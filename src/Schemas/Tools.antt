-- ===== src/Schemas/Tools.antt =====
-- schemas/tools.py: `ToolSchema`, and the formats in which it is offered to a model.
use agent_arena.Prelude.{String, ◌≡◌, refl}
use agent_arena.Prelude.Json.{Json, Fields, str, obj, done, field, at_field, as_str, as_obj}
use agent_arena.Prelude.Result.{Result, ok, ◌>>=◌}

pub record ToolSchema (F : Type 0) : Type 0 where
  pub name : String
  pub description : String
  pub parameters : Fields F

module _ {F : Type 0} where
  -- `ToolSchema.to_openai_format`
  unfoldable pub to_openai_format : ToolSchema F → Json F
  to_openai_format t = obj (
      field "type" (str "function") (
        field "function"
          (obj (
            field "name" (str t.name) (
              field "description" (str t.description)
                (field "parameters" (obj t.parameters) done))))
          done))

  -- `ToolSchema.to_anthropic_format`
  unfoldable pub to_anthropic_format : ToolSchema F → Json F
  to_anthropic_format t = obj (
      field "name" (str t.name)
        (field "description" (str t.description) (field "input_schema" (obj t.parameters) done)))

  -- `ToolSchema.to_dict`
  unfoldable pub tool_to_dict : ToolSchema F → Json F
  tool_to_dict t = obj (
      field "name" (str t.name)
        (field "description" (str t.description) (field "parameters" (obj t.parameters) done)))

  -- `ToolSchema.from_dict`
  unfoldable pub tool_from_dict : Json F → Result (ToolSchema F)
  tool_from_dict j = do
    data_ ← as_obj j
    name ← at_field data_ "name" >>= as_str
    description ← at_field data_ "description" >>= as_str
    parameters ← at_field data_ "parameters" >>= as_obj
    ok (record { name = name; description = description; parameters = parameters })

  -- A tool schema that is written and read back is unchanged; so is the one that stands under
  -- "function" in the OpenAI format.
  pub tool-roundtrip :
      (t : ToolSchema F)
      → (tool_from_dict (tool_to_dict t) ≡ ok t)
        × ((as_obj (to_openai_format t) >>= λ d. at_field d "function" >>= tool_from_dict) ≡ ok t)
  unfolding tool_from_dict tool_to_dict to_openai_format at_field
  tool-roundtrip t = (refl, refl)
