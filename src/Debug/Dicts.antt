-- ===== src/Debug/Dicts.antt =====
-- `DebugTrace.from_dict` and `DebugTraceStep.from_dict`. `now` stands for the clock and `new_id` for
-- the identifier drawn, where a key is missing.
use agent_arena.Prelude.{◌≡◌, refl, ap, String, List, [], ◌∷◌, Option, none, some}
use agent_arena.Prelude.Floats.{Floats}
use agent_arena.Prelude.Int.{pos}
use agent_arena.Prelude.Json.{
  Json, Items, Fields, null, bool, int, float, str, arr, obj, end, item, done, field, get_field,
  at_field, as_int, as_str, as_obj,
}
use agent_arena.Prelude.Result.{Result, ok, ◌>>=◌}
use agent_arena.Schemas.{as_number, or_default, items_of, read_all}
use agent_arena.Schemas.Observation.{as_tick}
use agent_arena.Debug.{
  DebugTrace, DebugTraceStep, serialize, serialize_items, serialize_fields, debug_step_to_dict,
  debug_steps_to_items, debug_trace_to_dict,
}

module _ {F : Type 0} where
  abbrev or_json : Json F → Option (Json F) → Json F
  or_json d none = d
  or_json d (some j) = j

module _ {F : Type 0} ⦃fl : Floats F⦄ where
  unfoldable pub debug_step_from_dict : F → Json F → Result (DebugTraceStep F)
  debug_step_from_dict now j = do
    d ← as_obj j
    name ← at_field d "name" >>= as_str
    payload ← at_field d "data"
    timestamp ← or_default as_number now (get_field d "timestamp")
    elapsed_ms ← or_default as_number (fl.of_int (pos 0)) (get_field d "elapsed_ms")
    ok (record { name = name; payload = payload; timestamp = timestamp; elapsed_ms = elapsed_ms })

  unfoldable pub debug_trace_from_dict : F → String → Json F → Result (DebugTrace F)
  unfolding debug_step_from_dict
  debug_trace_from_dict now new_id j = do
    d ← as_obj j
    agent_id ← at_field d "agent_id" >>= as_str
    tick ← at_field d "tick" >>= as_int >>= as_tick
    episode_id ← or_default as_str "" (get_field d "episode_id")
    trace_id ← or_default as_str new_id (get_field d "trace_id")
    items ← items_of (get_field d "steps")
    steps ← read_all (debug_step_from_dict now) items
    ok (record {
      agent_id = agent_id;
      tick = tick;
      episode_id = episode_id;
      steps = steps;
      trace_id = trace_id;
      start_time = or_json (float now) (get_field d "start_time");
    })

mutual
  unfolding serialize

  serialize_same : {F : Type 0} (j : Json F) → serialize j ≡ j
  serialize_same null = refl
  serialize_same (bool b) = refl
  serialize_same (int n) = refl
  serialize_same (float x) = refl
  serialize_same (str s) = refl
  serialize_same (arr xs) = ap arr (serialize_items_same xs)
  serialize_same (obj d) = ap obj (serialize_fields_same d)

  serialize_items_same : {F : Type 0} (xs : Items F) → serialize_items xs ≡ xs
  serialize_items_same end = refl
  serialize_items_same (item j xs) = cc (serialize_same j, serialize_items_same xs)

  serialize_fields_same : {F : Type 0} (d : Fields F) → serialize_fields d ≡ d
  serialize_fields_same done = refl
  serialize_fields_same (field k j d) = cc (serialize_same j, serialize_fields_same d)

module _ {F : Type 0} ⦃fl : Floats F⦄ where
  step-back :
      (now : F) (s : DebugTraceStep F) → debug_step_from_dict now (debug_step_to_dict s) ≡ ok s
  unfolding debug_step_from_dict debug_step_to_dict at_field get_field
  step-back now s = rw (serialize_same s.payload) refl

  steps-back :
      (now : F) (ss : List (DebugTraceStep F))
      → read_all (debug_step_from_dict now) (debug_steps_to_items ss) ≡ ok ss
  unfolding debug_steps_to_items
  steps-back now [] = refl
  steps-back now (s ∷ ss) = rw (step-back now s, steps-back now ss) refl

  -- A debug trace that is written by `to_dict` is read back by `from_dict` as it was.
  pub debug_trace-roundtrip :
      (now : F) (new_id : String) (t : DebugTrace F)
      → debug_trace_from_dict now new_id (debug_trace_to_dict t) ≡ ok t
  unfolding debug_trace_from_dict debug_trace_to_dict at_field get_field
  debug_trace-roundtrip now new_id t = rw (steps-back now t.steps) refl
