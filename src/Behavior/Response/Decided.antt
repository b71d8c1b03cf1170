-- ===== src/Behavior/Response/Decided.antt =====
-- `AgentDecision.from_llm_response`, `idle` and `to_dict`.
use agent_arena.Prelude.{String, Option, none, some, false, zero, string_key, ◌==◌, if◌then◌else◌}
use agent_arena.Prelude.Floats.{Floats}
use agent_arena.Prelude.Int.{pos}
use agent_arena.Prelude.Json.{
  Json, Fields, null, bool, int, float, str, arr, obj, end, done, field, get_field,
}
use agent_arena.Prelude.Result.{Result, ok, raise, Exn, ◌>>=◌}
use agent_arena.Behavior.Response.{AgentDecision, Text, Patterns, or_try, find_data}

module _ {F : Type 0} where
  -- `AgentDecision.idle`
  unfoldable pub idle : Option String → AgentDecision F
  idle none = record { tool = str "idle"; params = obj done; reasoning = none }
  idle (some r) = record { tool = str "idle"; params = obj done; reasoning = some (str r) }

  abbrev reasoning_field : Option (Json F) → Fields F
  reasoning_field none = done
  reasoning_field (some r) = field "reasoning" r done

  -- `AgentDecision.to_dict`
  unfoldable pub to_dict : AgentDecision F → Json F
  to_dict d = obj (field "tool" d.tool (field "params" d.params (reasoning_field d.reasoning)))

  -- `data.get("tool")` of what is no dictionary
  abbrev as_dict : Json F → Result (Fields F)
  as_dict (obj d) = ok d
  as_dict _ = raise (Exn.other_error "object has no attribute 'get'")

  -- the extracted text, if it is not empty, before what the data says
  abbrev prefer : Option String → Option (Json F) → Option (Json F)
  prefer none said = said
  prefer (some s) said = if s == "" then said else some (str s)

  abbrev or_value : Option (Json F) → Json F → Json F
  or_value none default = default
  or_value (some j) default = j

  abbrev given : Json F → Option (Json F)
  given null = none
  given j = some j

  -- the last of `a or b or c`, which is the value if all are false
  abbrev last : Option (Json F) → Option (Json F)
  last none = none
  last (some j) = given j

module _ {F : Type 0} ⦃fl : Floats F⦄ where
  -- the values that are true
  unfoldable pub truthy : Option (Json F) → Option (Json F)
  truthy none = none
  truthy (some null) = none
  truthy (some (bool false)) = none
  truthy (some (int (pos zero))) = none
  truthy (some (str String.[])) = none
  truthy (some (float x)) = if fl.is_zero x then none else some (float x)
  truthy (some (arr end)) = none
  truthy (some (obj done)) = none
  truthy (some j) = some j

  -- `d.get(a) or d.get(b) or d.get(c)`
  abbrev pub first_of : Fields F → String → String → String → Option (Json F)
  first_of d a b c =
      or_try (truthy (get_field d a)) (or_try (truthy (get_field d b)) (truthy (get_field d c)))

  -- the part of `from_llm_response` after the data is found
  unfoldable pub decision_of : Option String → Json F → Result (AgentDecision F)
  unfolding truthy get_field
  decision_of reasoning_text j = do
    d ← as_dict j
    ok (record {
      tool =
          or_value (or_try (truthy (get_field d "tool")) (first_of d "action" "tool_name" "name"))
            (str "idle");
      params = or_value (first_of d "params" "parameters" "arguments") (obj done);
      reasoning = prefer reasoning_text (
          or_try (truthy (get_field d "reasoning"))
            (or_try (truthy (get_field d "thought")) (last (get_field d "explanation"))));
    })

module _ {F : Type 0} (p : Patterns F) ⦃fl : Floats F⦄ where
  abbrev decide_on : Option String → Option (Json F) → Result (AgentDecision F)
  decide_on reasoning_text none =
      raise (Exn.value_error "Invalid JSON in LLM response: No valid JSON found")
  decide_on reasoning_text (some j) = decision_of reasoning_text j

  -- `AgentDecision.from_llm_response` of a text; that of a dictionary `d` is `decision_of none (obj d)`
  unfoldable pub from_llm_response : Text → Result (AgentDecision F)
  unfolding find_data decision_of
  from_llm_response response = decide_on (p.thinking response) (find_data p response)
