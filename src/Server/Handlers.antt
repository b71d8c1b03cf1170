-- ===== src/Server/Handlers.antt =====
-- `POST /observe` and `POST /tick`. What a handler did to the server before an exception stays done.
use agent_arena.Prelude.{ℕ, ◌+◌, String, string_key}
use agent_arena.Prelude.Floats.{Floats}
use agent_arena.Prelude.Int.{pos}
use agent_arena.Prelude.Json.{
  Json, Items, Fields, null, int, str, arr, obj, end, item, done, field, get_field, as_str, as_obj,
}
use agent_arena.Prelude.Result.{Result, ok, raise}
use agent_arena.Schemas.{or_default, items_of}
use agent_arena.Schemas.Decision.{Decision, decision_to_dict}
use agent_arena.Schemas.Observation.{Observation, observation_from_dict}
use agent_arena.Server.{
  Outside, Server, Response, replies, http_error, str_of, text_or, count, or_else, set_default,
  fallback, track, consult,
}
use agent_arena.Server.Traces.{record_decision_trace}

module _ {A F B C : Type 0} where
  -- one statement after another, until one raises
  abbrev pub then_do :
      Result B × Server A F → (B → Server A F → Result C × Server A F) → Result C × Server A F
  then_do (ok b, s) k = k b s
  then_do (raise e, s) k = (raise e, s)

module _ {A F : Type 0} where
  -- `except Exception as e: raise HTTPException(status_code=500, detail=str(e))`
  abbrev pub answer : Result (Json F) × Server A F → Response F × Server A F
  answer (ok j, s) = (replies j, s)
  answer (raise e, s) = (http_error 500 (str_of e), s)

module _ {F : Type 0} where
  abbrev pub observe_reply : String → Decision F → Json F
  observe_reply agent_id d = obj (
      field "agent_id" (str agent_id) (
        field "tool" (str d.tool) (
          field "params" (obj d.params)
            (field "reasoning" (str (text_or d.reasoning "Agent decision")) done))))

  abbrev pub action : Json F → Decision F → Json F
  action agent_id d = obj (field "agent_id" agent_id (field "action" (decision_to_dict d) done))

  -- the observations of one agent, with what the request tells beside them
  abbrev pub completed : Json F → Json F → Fields F → Fields F
  completed tick agent_id d = set_default "tick" tick (set_default "agent_id" agent_id d)

  abbrev pub count_items : Items F → ℕ
  count_items end = 0
  count_items (item j js) = count_items js + 1

  abbrev pub tick_reply : Json F → Items F → Json F
  tick_reply tick actions = obj (field "tick" tick (field "actions" (arr actions) done))

module _ {A F : Type 0} (out : Outside A F) ⦃fl : Floats F⦄ where
  abbrev decided : String → Observation F → Decision F → Server A F → Result (Json F) × Server A F
  decided agent_id o d s =
      (ok (observe_reply agent_id d), count 1 (record_decision_trace out agent_id o d s))

  -- `POST /observe`
  unfoldable pub process_observation : Fields F → Server A F → Response F × Server A F
  unfolding track observation_from_dict record_decision_trace
  process_observation observation s = answer (
      then_do (or_default as_str "unknown" (get_field observation "agent_id"), s)
        λ agent_id s1. then_do (track out observation s1) λ _ s2.
          then_do (observation_from_dict (obj observation), s2)
            λ o s3. then_do (consult out (ok o) s3) (decided agent_id o))

  abbrev acted : Json F → Result (Decision F) × Server A F → Result (Json F) × Server A F
  acted agent_id (r, s) = (ok (action agent_id (fallback r)), s)

  -- one round of the loop: the tracking stands outside the inner `try`
  unfoldable pub process_agent : Json F → Json F → Server A F → Result (Json F) × Server A F
  unfolding track observation_from_dict decision_to_dict set_default
  process_agent tick agent_data s =
      then_do (as_obj agent_data, s)
        λ d s1.
          let agent_id = or_else null (get_field d "agent_id") in
          then_do (or_default as_obj done (get_field d "observations"), s1)
            λ obs s2.
              let obs_data = completed tick agent_id obs in
              then_do (track out obs_data s2)
                λ _ s3. acted agent_id (consult out (observation_from_dict (obj obs_data)) s3)

  unfoldable pub process_agents : Json F → Items F → Server A F → Result (Items F) × Server A F
  unfolding process_agent
  process_agents tick end s = (ok end, s)
  process_agents tick (item j js) s =
      then_do (process_agent tick j s) λ action s1.
        then_do (process_agents tick js s1) λ actions s2. (ok (item action actions), s2)

  -- `POST /tick`
  unfoldable pub process_tick : Fields F → Server A F → Response F × Server A F
  unfolding process_agents
  process_tick request s =
      let tick = or_else (int (pos 0)) (get_field request "tick") in
      answer (
        then_do (items_of (get_field request "agents"), s)
          λ agents s1.
            then_do (process_agents tick agents s1)
              λ actions s2. (ok (tick_reply tick actions), count (count_items agents) s2))
