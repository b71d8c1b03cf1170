-- ===== src/Server/Traces.antt =====
-- `_record_decision_trace` of the server: the steps of one decision, for the debug store.
use agent_arena.Prelude.{String, List, [], ◌∷◌, Option, none, some, length}
use agent_arena.Prelude.Floats.{Floats}
use agent_arena.Prelude.Int.{pos}
use agent_arena.Prelude.Json.{Json, Fields, null, int, float, str, obj, done, field, get_field}
use agent_arena.Prelude.Result.{Result, ok, raise, ◌>>=◌}
use agent_arena.Debug.{DebugStore, DebugTrace, record_trace, add_debug_step}
use agent_arena.Schemas.{null_or, position_to_list}
use agent_arena.Schemas.Decision.{Decision}
use agent_arena.Schemas.Observation.{Observation}
use agent_arena.Server.{Outside, Server, or_else}

module _ {F : Type 0} where
  -- the summary of the observation
  unfoldable pub observation_step : Observation F → Json F
  observation_step o = obj (
      field "position" (position_to_list o.position) (
        field "health" (float o.health) (
          field "energy" (float o.energy) (
            field "nearby_resources" (int (pos (length o.nearby_resources)))
              (field "nearby_hazards" (int (pos (length o.nearby_hazards))) done)))))

  unfoldable pub decision_step : Decision F → Json F
  decision_step d = obj (
      field "tool" (str d.tool)
        (field "params" (obj d.params) (field "reasoning" (null_or str d.reasoning) done)))

  abbrev given : Fields F → String → Json F → Json F
  given t k default = or_else default (get_field t k)

  -- the prompt, the answer and its parsing, from the agent's `last_trace`
  unfoldable pub agent_steps : Fields F → List (String × Json F)
  agent_steps t =
      (
        "prompt",
        obj (
            field "system_prompt" (given t "system_prompt" (str ""))
              (field "user_prompt" (given t "user_prompt" (str "")) done)),
      )
      ∷ (
        "llm_response",
        obj (
            field "raw_output" (given t "llm_raw_output" (str "")) (
              field "tokens_used" (given t "tokens_used" (int (pos 0)))
                (field "finish_reason" (given t "finish_reason" null) done))),
      )
      ∷ (
        "parse",
        obj (
            field "method" (given t "parse_method" (str "unknown"))
              (field "parsed_json" (given t "parsed_json" null) done)),
      )
      ∷ []

  -- `if agent_trace:`, which an empty one does not pass
  abbrev steps_of : Option (Fields F) → List (String × Json F)
  steps_of none = []
  steps_of (some done) = []
  steps_of (some (field k v t)) = agent_steps (field k v t)

module _ {A F : Type 0} (out : Outside A F) ⦃fl : Floats F⦄ where
  abbrev add_steps : List (String × Json F) → DebugTrace F → Result (DebugTrace F)
  add_steps [] t = ok t
  add_steps ((name, payload) ∷ steps) t =
      add_debug_step (out.step_time name) name payload t >>= add_steps steps

  abbrev kept : DebugStore F → Result (DebugTrace F) → DebugStore F
  kept store (raise e) = store
  kept store (ok t) = record_trace store t

  abbrev recorded_in :
      Option (DebugStore F)
      → String
      → Observation F
      → Decision F
      → Option (Fields F)
      → Option (DebugStore F)
  recorded_in none agent_id o d last_trace = none
  recorded_in (some store) agent_id o d last_trace =
      let empty : DebugTrace F = record {
        agent_id = agent_id;
        tick = o.tick;
        episode_id = "";
        steps = [];
        trace_id = out.trace_id;
        start_time = float out.start_time;
      } in
      some (
        kept store (do
          first ← add_steps (("observation", observation_step o) ∷ []) empty
          told ← add_steps (steps_of last_trace) first
          add_steps (("decision", decision_step d) ∷ []) told))

  -- `_record_decision_trace`, in which an exception is logged and swallowed
  unfoldable pub record_decision_trace :
      String → Observation F → Decision F → Server A F → Server A F
  unfolding observation_step decision_step agent_steps add_debug_step record_trace
  record_decision_trace agent_id o d s = record s {
    debug_store = recorded_in s.debug_store agent_id o d (out.last_trace s.agent);
  }
