-- ===== src/Tests/ServerRuns.antt =====
-- The server, its tracker, and the adapters' fallback.
use mathlib.Core.List.{Memᴰ}
use agent_arena.Prelude.{
  ℕ, ◌+◌, ◌≡◌, ◌≤◌, ◌↔◌, refl, true, false, String, List, [], ◌∷◌, none, some, length, ◌==◌,
  string_key, if◌then◌else◌,
}
use agent_arena.Prelude.Dict.{get}
use agent_arena.Prelude.Int.{ℤ, pos}
use agent_arena.Prelude.Json.{Fields, null, end, done, field, get_field}
use agent_arena.Prelude.Result.{Result, ok, raise, Exn}
use agent_arena.Prelude.Sort.{All}
use agent_arena.Adapters.{fallback_decision}
use agent_arena.Adapters.Offered.{IsOffered, fallback_decision-IsOffered}
use agent_arena.Schemas.{Position, position_to_list, to_items}
use agent_arena.Schemas.Decision.{Decision, idle}
use agent_arena.Schemas.Observation.{Observation, HasDict, observation_to_dict}
use agent_arena.Server.{Outside, Server, init, http_error, str_of}
use agent_arena.Server.Handlers.{process_tick, process_observation}
use agent_arena.Server.Served.{
  tick_request, agent_entry, read_reply, ask_all, observe_answer, process_tick-decisions,
  process_observation-decision,
}
use agent_arena.Server.Spoiled.{spoiled, process_tick-spoiled}
use agent_arena.Server.Isolated.{
  Sent, observes, sends, sent_entries, ask_sent, process_tick-isolated,
}
use agent_arena.Server.Tracker as Tracker
use agent_arena.Server.Tracker.{ObservationEntry, ObservationTracker, track_observation}
use agent_arena.Server.Tracker.Visible.{
  fields_of, hazard_names, note_all, track_observation-changes,
}
use agent_arena.Tests.Ints.{int_floats}
use agent_arena.Tests.MemoryRuns.{plain}
use agent_arena.Tests.SchemaRuns.{seeing}

abbrev other : Observation ℤ
other = record seeing { agent_id = "b"; tick = 8; nearby_resources = [] }

-- an agent that counts its calls and fails for "b"
abbrev ask : ℕ → Observation ℤ → Result (Decision ℤ) × ℕ
ask n o = (
  if o.agent_id == "b" then raise (Exn.value_error "no idea") else ok (idle (some "waiting")),
  n + 1,
)

abbrev outside : Outside ℕ ℤ
outside = record {
  decide_callback = ask;
  last_trace = λ n. none;
  show = λ j. "...";
  now = "t0";
  start_time = pos 5;
  step_time = λ s. pos 6;
  trace_id = "0a";
}

abbrev quiet : Server ℕ ℤ
quiet = record {
  agent = 0;
  enable_debug = false;
  total_ticks = 0;
  total_observations = 0;
  observation_tracker = none;
  debug_store = none;
}

abbrev tracker : ObservationTracker ℤ
tracker = record { max_entries = 1000; observations = []; last_visible = [] }

abbrev server : Server ℕ ℤ
server = record quiet {
  enable_debug = true;
  observation_tracker = some tracker;
  debug_store = some (record { max_memory_traces = 1000; buffer = [] });
}

server-init : (init 0 true ≡ server) × (init 0 false ≡ quiet)
unfolding init
server-init = (refl, refl)

two-HasDict : All (λ o. HasDict o.objective) (seeing ∷ other ∷ [])
unfolding get
two-HasDict = ((refl, (refl, tt)), ((refl, (refl, tt)), tt))

two_asked :
    (ask_all outside 0 (seeing ∷ other ∷ [])).0
    ≡ ("a", idle (some "waiting")) ∷ ("b", idle (some "Error: no idea")) ∷ []
unfolding ask_all
two_asked = refl

process_tick-decisions_example :
    (read_reply
        (process_tick outside
          (tick_request 8 (to_items agent_entry (seeing ∷ other ∷ [])))
          server).0
      ≡ ok (ask_all outside 0 (seeing ∷ other ∷ [])).0)
    × ((process_tick outside
          (tick_request 8 (to_items agent_entry (seeing ∷ other ∷ [])))
          server).1.agent
        ≡ (ask_all outside 0 (seeing ∷ other ∷ [])).1)
    × ((process_tick outside
          (tick_request 8 (to_items agent_entry (seeing ∷ other ∷ [])))
          server).1.total_ticks
        ≡ 0 + 1)
    × ((process_tick outside
          (tick_request 8 (to_items agent_entry (seeing ∷ other ∷ [])))
          server).1.total_observations
        ≡ 0 + 2)
process_tick-decisions_example =
    process_tick-decisions outside 8 (seeing ∷ other ∷ []) server two-HasDict

process_observation-decision_example :
    ((process_observation outside (fields_of (observation_to_dict other)) server).0
      ≡ observe_answer "b" (raise (Exn.value_error "no idea")))
    × ((process_observation outside (fields_of (observation_to_dict other)) server).1.agent ≡ 1)
    × ((process_observation outside (fields_of (observation_to_dict other)) server).1.total_ticks
        ≡ 0 + 0)
    × ((process_observation outside
          (fields_of (observation_to_dict other))
          server).1.total_observations
        ≡ 0 + 0)
process_observation-decision_example =
    process_observation-decision outside other server two-HasDict.1.0

abbrev unreadable : Fields ℤ
unreadable = field "nearby_resources" null done

process_tick-spoiled_example :
    (e : Exn) × ((process_tick outside
        (tick_request 8 (spoiled (seeing ∷ []) "c" unreadable end))
        server).0
      ≡ http_error 500 (str_of e))
    × ((process_tick outside
          (tick_request 8 (spoiled (seeing ∷ []) "c" unreadable end))
          server).1.agent
        ≡ (ask_all outside 0 (seeing ∷ [])).1)
    × ((process_tick outside
          (tick_request 8 (spoiled (seeing ∷ []) "c" unreadable end))
          server).1.total_ticks
        ≡ 0)
unfolding get_field
process_tick-spoiled_example =
    process_tick-spoiled outside 8 (seeing ∷ []) "c" unreadable end server tracker
      (two-HasDict.0, tt) refl refl

abbrev mixed : List (Sent ℤ)
mixed = sends "c" unreadable ∷ observes seeing ∷ []

process_tick-isolated_example :
    (read_reply (process_tick outside (tick_request 8 (sent_entries mixed)) quiet).0
      ≡ ok (ask_sent outside 0 mixed).0)
    × ((process_tick outside (tick_request 8 (sent_entries mixed)) quiet).1.agent
        ≡ (ask_sent outside 0 mixed).1)
    × ((process_tick outside (tick_request 8 (sent_entries mixed)) quiet).1.total_observations
        ≡ 0 + 2)
unfolding get_field
process_tick-isolated_example =
    process_tick-isolated outside 8 mixed quiet (refl, (two-HasDict.0, tt)) refl

track_observation-changes_example :
    (e : ObservationEntry ℤ) × (t : ObservationTracker ℤ) × (track_observation
        (λ j. "...")
        "t0"
        (fields_of (observation_to_dict seeing))
        (note_all "t0" (Tracker.init 1) (seeing ∷ other ∷ []))
      ≡ ok (e, t))
    × ((x : String)
        → Memᴰ x e.gained_resources ↔ (Memᴰ x ("berry_1" ∷ []) × ¬ Memᴰ x ("berry_1" ∷ [])))
    × ((x : String)
        → Memᴰ x e.lost_resources ↔ (Memᴰ x ("berry_1" ∷ []) × ¬ Memᴰ x ("berry_1" ∷ [])))
    × ((x : String)
        → Memᴰ x e.gained_hazards ↔ (Memᴰ x (hazard_names seeing) × ¬ Memᴰ x (hazard_names seeing)))
    × ((x : String)
        → Memᴰ x e.lost_hazards ↔ (Memᴰ x (hazard_names seeing) × ¬ Memᴰ x (hazard_names seeing)))
    × (length t.observations ≤ 1)
track_observation-changes_example =
    track_observation-changes "t0" (λ j. "...") 1 (seeing ∷ other ∷ []) seeing

fallback_decision-IsOffered_example :
    IsOffered (fallback_decision plain seeing)
    × ((fallback_decision plain seeing).tool ≡ "move_to")
    × ((p : Position ℤ) × ((fallback_decision plain seeing).params
          ≡ field "target_position" (position_to_list p) done))
fallback_decision-IsOffered_example = fallback_decision-IsOffered plain seeing
