-- ===== src/Trace/Files.antt =====
-- python/agent_runtime/reasoning_trace.py: `TraceStep`, `ReasoningTrace`, and their JSON form as
-- `to_dict` writes it and `get_episode_traces` reads it back.
use agent_arena.Prelude.{ℕ, ◌≡◌, refl, String, List, [], ◌∷◌, ◌++◌, Option, none, some, arith}
use agent_arena.Prelude.Int.{ℤ, pos}
use agent_arena.Prelude.Json.{
  Json, Items, Fields, int, float, str, arr, obj, end, item, done, field, get_field, at_field,
  as_int, as_str, as_obj, as_arr, as_float?,
}
use agent_arena.Prelude.Result.{Result, ok, raise, Exn, ◌>>=◌}

pub record TraceStep (F : Type 0) : Type 0 where
  pub timestamp : String
  pub agent_id : String
  pub tick : ℕ
  pub name : String
  pub payload : Fields F
  pub duration_ms : Option F

pub record ReasoningTrace (F : Type 0) : Type 0 where
  pub agent_id : String
  pub tick : ℕ
  pub episode_id : String
  pub start_time : String
  pub steps : List (TraceStep F)

abbrev as_nat : ℤ → Result ℕ
as_nat (pos n) = ok n
as_nat _ = raise (Exn.other_error "negative tick")

module _ {F : Type 0} where
  -- `ReasoningTrace.add_step`; `now` is the time stamp
  unfoldable pub add_step :
      ReasoningTrace F → String → String → Fields F → Option F → ReasoningTrace F
  add_step t now name payload duration_ms = record t {
    steps =
        t.steps
        ++ (record {
          timestamp = now;
          agent_id = t.agent_id;
          tick = t.tick;
          name = name;
          payload = payload;
          duration_ms = duration_ms;
        })
          ∷ [];
  }

  abbrev duration_fields : Option F → Fields F
  duration_fields none = done
  duration_fields (some x) = field "duration_ms" (float x) done

  -- `TraceStep.to_dict`
  unfoldable pub step_to_dict : TraceStep F → Json F
  step_to_dict s = obj (
      field "timestamp" (str s.timestamp) (
        field "agent_id" (str s.agent_id) (
          field "tick" (int (pos s.tick)) (
            field "name" (str s.name)
              (field "data" (obj s.payload) (duration_fields s.duration_ms))))))

  unfoldable pub steps_to_items : List (TraceStep F) → Items F
  steps_to_items [] = end
  steps_to_items (s ∷ ss) = item (step_to_dict s) (steps_to_items ss)

  -- `ReasoningTrace.to_dict`
  unfoldable pub trace_to_dict : ReasoningTrace F → Json F
  trace_to_dict t = obj (
      field "agent_id" (str t.agent_id) (
        field "tick" (int (pos t.tick)) (
          field "episode_id" (str t.episode_id) (
            field "start_time" (str t.start_time)
              (field "steps" (arr (steps_to_items t.steps)) done)))))

  -- The body of the loop over `data.get("steps", [])` in `get_episode_traces`.
  unfoldable pub step_from_dict : Json F → Result (TraceStep F)
  step_from_dict j = do
    d ← as_obj j
    timestamp ← at_field d "timestamp" >>= as_str
    agent_id ← at_field d "agent_id" >>= as_str
    tick ← at_field d "tick" >>= as_int >>= as_nat
    name ← at_field d "name" >>= as_str
    payload ← at_field d "data" >>= as_obj
    duration_ms ← as_float? (get_field d "duration_ms")
    ok (record {
      timestamp = timestamp;
      agent_id = agent_id;
      tick = tick;
      name = name;
      payload = payload;
      duration_ms = duration_ms;
    })

  unfoldable pub steps_from_items : Items F → Result (List (TraceStep F))
  steps_from_items end = ok []
  steps_from_items (item j js) = do s ← step_from_dict j; ss ← steps_from_items js; ok (s ∷ ss)

  abbrev steps_or_empty : Option (Json F) → Result (List (TraceStep F))
  steps_or_empty none = ok []
  steps_or_empty (some j) = as_arr j >>= steps_from_items

  -- The body of the loop over the lines in `get_episode_traces`.
  unfoldable pub trace_from_dict : Json F → Result (ReasoningTrace F)
  trace_from_dict j = do
    d ← as_obj j
    agent_id ← at_field d "agent_id" >>= as_str
    tick ← at_field d "tick" >>= as_int >>= as_nat
    episode_id ← at_field d "episode_id" >>= as_str
    start_time ← at_field d "start_time" >>= as_str
    steps ← steps_or_empty (get_field d "steps")
    ok (record {
      agent_id = agent_id;
      tick = tick;
      episode_id = episode_id;
      start_time = start_time;
      steps = steps;
    })

  step-roundtrip : (s : TraceStep F) → step_from_dict (step_to_dict s) ≡ ok s
  unfolding step_from_dict step_to_dict at_field get_field
  step-roundtrip s = ground arith

  steps-roundtrip : (ss : List (TraceStep F)) → steps_from_items (steps_to_items ss) ≡ ok ss
  unfolding steps_from_items steps_to_items
  steps-roundtrip [] = refl
  steps-roundtrip (s ∷ ss) = rw (step-roundtrip s) (rw (steps-roundtrip ss))

  -- A trace that is written as a line of JSON is read back unchanged, its steps in order, with and
  -- without durations.
  pub trace_from_dict-trace_to_dict :
      (t : ReasoningTrace F) → trace_from_dict (trace_to_dict t) ≡ ok t
  unfolding trace_from_dict trace_to_dict at_field get_field
  trace_from_dict-trace_to_dict t = rw (steps-roundtrip t.steps)
