-- ===== src/Tests/TraceRuns.antt =====
-- The trace store on small stores, with numbers for floats.
use mathlib.Core.List.{Memᴰ, foldl, Perm}
use mathlib.Core.Option.{some-injective}
use mathlib.Core.Path.{subst, subst₂}
use agent_arena.Prelude.{
  ℕ, ◌<◌, ◌≡◌, ◌↔◌, inl, inr, refl, String, true, List, [], ◌∷◌, none, some, map, ◌==◌, string_key,
  nat_key, pair_key, arith, Bool-cases,
}
use agent_arena.Prelude.Dict.{get, put, has}
use agent_arena.Prelude.Json.{Json}
use agent_arena.Prelude.Result.{ok}
use agent_arena.Prelude.Sort.{sort_by, IsSorted}
use agent_arena.Trace.{
  TraceStore, Disk, start_episode, start_capture, step_at, get_capture, finish_capture,
}
use agent_arena.Trace.Evict.{Key, evict_oldest}
use agent_arena.Trace.Files.{
  steps_from_items, steps_to_items, step_from_dict, step_to_dict, ReasoningTrace, add_step,
  trace_to_dict, trace_from_dict, trace_from_dict-trace_to_dict,
}
use agent_arena.Prelude.Json.{done, get_field, at_field}
use agent_arena.Trace.Backed.{IsValid, Backs}
use agent_arena.Trace.Capture.{Captured, get_capture-start_capture, start_capture_lost}
use agent_arena.Trace.Cycle.{StepCall, recorded, cycle, IsRecorded, cycle-IsRecorded}
use agent_arena.Trace.Query.{
  by_tick, by_tick_agent, get_captures_for_agent, get_captures_for_agent_exact, IsFound,
}
use agent_arena.Trace.Episode.{get_episode_traces, read_lines}
use agent_arena.Trace.Watch.{watch, unwatch, unwatch-watch, listeners}
use agent_arena.Trace.Calls.{
  Call, starts_episode, starts_capture, finishes_capture, call, IsLog, calls-IsValid,
  calls-readable,
}

abbrev pub good : Disk
good = record { opens = λ e. true; writes = true }

-- TraceStore(max_entries=1, log_to_file=True, episode_id="ep_1")
abbrev pub fresh : TraceStore ℕ
fresh = record {
  enabled = true;
  max_entries = 1;
  log_to_file = true;
  objects = [];
  traces = [];
  episode_id = "ep_1";
  episode_file_handle = some "ep_1";
  files = ("ep_1", []) ∷ [];
  watchers = ("*", 4 ∷ []) ∷ [];
  notified = [];
}

fresh-IsValid : IsValid fresh
unfolding get
fresh-IsValid = record { distinct = tt; bounded = omega arith; backed = λ k ref h. absurd (cc h) }

fresh-IsLog : IsLog fresh
unfolding get
fresh-IsLog = record { dumps = λ e lines h. ([], ground arith) }

abbrev one_step : List (StepCall ℕ)
one_step = record { now = "t1"; name = "decision"; payload = done; duration_ms = some 3 } ∷ []

-- a full store, its one trace at tick 9
abbrev late : TraceStore ℕ
late = record fresh {
  objects =
      record { agent_id = "a"; tick = 9; episode_id = "ep_1"; start_time = "t0"; steps = [] } ∷ [];
  traces = (("a", 9), 0) ∷ [];
}

late_backed : (k : Key) (ref : ℕ) → get late.traces k ≡ some ref → Backs late.objects k ref
unfolding get
late_backed k ref h = elim (Bool-cases (("a", 9) == k)) [
  | inl same ↦
      let e : ("a", 9) ≡ k = (pair_key.beq_iff ("a", 9) k).0 same in
      let r : 0 ≡ ref = some-injective _ _ (rw same at h) in
      subst₂ (Backs late.objects) e r (record {
        trace = record {
          agent_id = "a";
          tick = 9;
          episode_id = "ep_1";
          start_time = "t0";
          steps = [];
        };
        found = refl;
        agent = refl;
        tick = refl;
      })
  | inr other ↦ absurd (cc (rw other at h))
]

late-IsValid : IsValid late
unfolding get
late-IsValid = record { distinct = (refl, tt); bounded = omega arith; backed = late_backed }

late_newer : (j : Key) → has late.traces j ≡ true → 3 < j.1
unfolding get
late_newer j h = elim (Bool-cases (("a", 9) == j)) [
  | inl same ↦
      let e : ("a", 9) ≡ j = (pair_key.beq_iff ("a", 9) j).0 same in
      subst (λ (i : Key). 3 < i.1) e (omega arith)
  | inr other ↦ absurd (cc (rw other at h))
]

-- a run of a whole cycle, and of the file's reading
cycle_run :
    get_episode_traces (cycle good "a" 9 "t0" one_step fresh) "ep_1"
    ≡ recorded good "a" 9 "t0" one_step fresh ∷ []
unfolding cycle finish_capture get_capture start_capture step_at get_episode_traces read_lines
    steps_from_items steps_to_items step_from_dict step_to_dict get put trace_to_dict
    trace_from_dict evict_oldest add_step sort_by get_field at_field
cycle_run = refl

get_capture-start_capture_example : Captured "a" 3 "t1" late (start_capture "a" 3 "t1" late).1
get_capture-start_capture_example = get_capture-start_capture "a" 3 "t1" late late-IsValid refl

start_capture_lost_example : get_capture (start_capture "a" 3 "t1" late).1 "a" 3 ≡ none
start_capture_lost_example = start_capture_lost "a" 3 "t1" late refl (omega arith) late_newer

fresh_kept : has (start_capture "a" 9 "t0" fresh).1.traces ("a", 9) ≡ true
unfolding start_capture get put evict_oldest
fresh_kept = refl

cycle-IsRecorded_example :
    IsRecorded good "a" 9 "t0" one_step fresh "ep_1" (cycle good "a" 9 "t0" one_step fresh)
cycle-IsRecorded_example =
    cycle-IsRecorded good "a" 9 "t0" one_step fresh "ep_1" refl refl refl refl fresh_kept

get_captures_for_agent_exact_example :
    IsSorted by_tick (get_captures_for_agent late "a" (some 2) none)
    × ((t : ReasoningTrace ℕ)
        → Memᴰ t (get_captures_for_agent late "a" (some 2) none)
          ↔ IsFound late (some 2) none t "a" t.tick)
get_captures_for_agent_exact_example =
    get_captures_for_agent_exact late "a" (some 2) none late-IsValid

abbrev script : List (Call ℕ)
script =
    starts_episode good "ep_2"
    ∷ starts_capture "a" 1 "t0"
    ∷ finishes_capture good "a" 1
    ∷ starts_capture "b" 2 "t1"
    ∷ []

calls-IsValid_example : IsValid (foldl call fresh script)
calls-IsValid_example = calls-IsValid script fresh fresh-IsValid

abbrev written : List (Json ℕ)
written =
    trace_to_dict
      (record { agent_id = "a"; tick = 1; episode_id = "ep_2"; start_time = "t0"; steps = [] })
    ∷ []

script_file : get (foldl call fresh script).files "ep_2" ≡ some written
unfolding call start_episode finish_capture get_capture start_capture get put trace_to_dict
    evict_oldest
script_file = refl

calls-readable_example :
    (ts : List (ReasoningTrace ℕ)) × (written ≡ map trace_to_dict ts)
    × IsSorted by_tick_agent (get_episode_traces (foldl call fresh script) "ep_2")
    × Perm (get_episode_traces (foldl call fresh script) "ep_2") ts
calls-readable_example = calls-readable script fresh "ep_2" written fresh-IsLog script_file

trace_from_dict-trace_to_dict_example :
    trace_from_dict (trace_to_dict (recorded good "a" 9 "t0" one_step fresh))
    ≡ ok (recorded good "a" 9 "t0" one_step fresh)
trace_from_dict-trace_to_dict_example =
    trace_from_dict-trace_to_dict (recorded good "a" 9 "t0" one_step fresh)

unwatch-watch_example :
    (s' : TraceStore ℕ) × (unwatch "a" 7 (watch "a" 7 late) ≡ ok s')
    × ((other : String) → listeners s' other ≡ listeners late other)
unfolding get
unwatch-watch_example = unwatch-watch "a" 7 late (λ m. elim m [ ])
