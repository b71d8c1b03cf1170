-- ===== src/Schemas/Decision.antt =====
-- schemas/decision.py: `Decision`.
use agent_arena.Prelude.{String, Option, none, some, ◌≡◌, arith}
use agent_arena.Prelude.Json.{
  Json, Fields, str, obj, done, field, get_field, at_field, as_str, as_obj,
}
use agent_arena.Prelude.Result.{Result, ok, ◌>>=◌}
use agent_arena.Schemas.{or_default, or_none}

pub record Decision (F : Type 0) : Type 0 where
  pub tool : String
  pub params : Fields F
  pub reasoning : Option String

module _ {F : Type 0} where
  -- `Decision.idle`
  unfoldable pub idle : Option String → Decision F
  idle reasoning = record { tool = "idle"; params = done; reasoning = reasoning }

  -- `Decision.from_dict`
  unfoldable pub decision_from_dict : Json F → Result (Decision F)
  decision_from_dict j = do
    data_ ← as_obj j
    tool ← at_field data_ "tool" >>= as_str
    params ← or_default as_obj done (get_field data_ "params")
    reasoning ← or_none as_str (get_field data_ "reasoning")
    ok (record { tool = tool; params = params; reasoning = reasoning })

  abbrev reasoning_fields : Option String → Fields F
  reasoning_fields none = done
  reasoning_fields (some r) = field "reasoning" (str r) done

  -- `Decision.to_dict`
  unfoldable pub decision_to_dict : Decision F → Json F
  decision_to_dict d =
      obj (field "tool" (str d.tool) (field "params" (obj d.params) (reasoning_fields d.reasoning)))

  -- A decision that is written and read back is unchanged, with and without a reasoning.
  pub decision_from_dict-decision_to_dict :
      (d : Decision F) → decision_from_dict (decision_to_dict d) ≡ ok d
  unfolding decision_from_dict decision_to_dict at_field get_field
  decision_from_dict-decision_to_dict d = ground arith
