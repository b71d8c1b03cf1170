-- ===== src/Tests/BehaviorRuns.antt =====
-- The hooks of behaviours.
use agent_arena.Prelude.{◌≡◌, refl, true, List, [], ◌∷◌, none, some, string_key, nat_key, pair_key}
use agent_arena.Prelude.Dict.{has, get, put}
use agent_arena.Prelude.Int.{ℤ, pos}
use agent_arena.Prelude.Json.{done}
use agent_arena.Trace.{TraceStore, start_capture}
use agent_arena.Trace.Evict.{evict_oldest}
use agent_arena.Trace.Cycle.{StepCall, IsRecorded}
use agent_arena.Behavior.{AgentBehavior, traced_decision}
use agent_arena.Behavior.Turns.{traced_decision-IsRecorded}
use agent_arena.Tests.Ints.{int_floats}
use agent_arena.Tests.SchemaRuns.{seeing}
use agent_arena.Tests.TraceRuns.{good}

abbrev store : TraceStore ℤ
store = record {
  enabled = true;
  max_entries = 2;
  log_to_file = true;
  objects = [];
  traces = [];
  episode_id = "ep_1";
  episode_file_handle = some "ep_1";
  files = ("ep_1", []) ∷ [];
  watchers = ("*", 4 ∷ []) ∷ [];
  notified = [];
}

abbrev steps : List (StepCall ℤ)
steps =
    record { now = "t1"; name = "retrieved"; payload = done; duration_ms = none }
    ∷ record { now = "t2"; name = "decision"; payload = done; duration_ms = some (pos 3) }
    ∷ []

abbrev forager : AgentBehavior ℤ
forager = record { world_map = none; has_trace_store = true; agent_id = none; current_trace = none }

store_kept : has (start_capture "a" seeing.tick "t0" store).1.traces ("a", seeing.tick) ≡ true
unfolding start_capture get put evict_oldest
store_kept = refl

traced_decision-IsRecorded_example :
    ((traced_decision good seeing "a" "t0" steps forager store).0.current_trace ≡ none)
    × IsRecorded good "a" seeing.tick "t0" steps store "ep_1"
        (traced_decision good seeing "a" "t0" steps forager store).1
traced_decision-IsRecorded_example =
    traced_decision-IsRecorded good seeing "a" "t0" steps forager store "ep_1" refl refl refl refl
      refl store_kept
