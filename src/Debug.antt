-- ===== src/Debug.antt =====
-- python/sdk/agent_arena_sdk/server/debug_store.py: `DebugStore`, over the `PromptInspector` of the
-- runtime, if there is one. Its `_trace_store` is `None`, as `TraceStore` has no `get_instance`. A
-- deque drops its first item when it is over its length. The clock and the identifier of a new trace
-- are arguments; `start_time` is a float, or the text that a `ReasoningTrace` has.
pub mod Recent
pub mod Dicts
use agent_arena.Prelude.{
  ℕ, String, Bool, true, false, ◌&&◌, List, [], ◌∷◌, ◌++◌, map, Option, none, some, keep, leb, ◌==◌,
  string_key, if◌then◌else◌,
}
use agent_arena.Prelude.Bounded.{append_pop}
use agent_arena.Prelude.DictKeys.{add_key}
use agent_arena.Prelude.Floats.{Floats}
use agent_arena.Prelude.Int.{ℤ, pos}
use agent_arena.Prelude.Json.{
  Json, Items, Fields, null, bool, int, float, str, arr, obj, end, item, done, field,
}
use agent_arena.Prelude.Result.{Result, ok, raise, Exn, ◌>>=◌}
use agent_arena.Prelude.Sort.{sort_by, ascending}
use agent_arena.Prelude.Text.{str_leb}
use agent_arena.Inspector.{
  PromptInspector, DecisionCapture, capture_to_dict, get_capture, get_captures_for_agent,
  get_all_captures,
}
use agent_arena.Schemas.{as_number}
use agent_arena.Trace.Files.{ReasoningTrace, TraceStep}
use agent_arena.Trace.Query.{from_tick, to_tick}
use agent_arena.Window.{slice_from_end}

pub record DebugTraceStep (F : Type 0) : Type 0 where
  pub name : String
  pub payload : Json F
  pub timestamp : F
  pub elapsed_ms : F

pub record DebugTrace (F : Type 0) : Type 0 where
  pub agent_id : String
  pub tick : ℕ
  pub episode_id : String
  pub steps : List (DebugTraceStep F)
  pub trace_id : String
  pub start_time : Json F

pub record DebugStore (F : Type 0) : Type 0 where
  pub max_memory_traces : ℕ
  pub buffer : List (DebugTrace F)

-- `DebugTraceStep._serialize`, on the data that JSON has
unfoldable mutual
  pub serialize : {F : Type 0} → Json F → Json F
  serialize (arr xs) = arr (serialize_items xs)
  serialize (obj d) = obj (serialize_fields d)
  serialize j = j

  pub serialize_items : {F : Type 0} → Items F → Items F
  serialize_items end = end
  serialize_items (item j xs) = item (serialize j) (serialize_items xs)

  pub serialize_fields : {F : Type 0} → Fields F → Fields F
  serialize_fields done = done
  serialize_fields (field k j d) = field k (serialize j) (serialize_fields d)

module _ {F : Type 0} where
  -- `DebugTraceStep.to_dict`
  unfoldable pub debug_step_to_dict : DebugTraceStep F → Json F
  unfolding serialize
  debug_step_to_dict s = obj (
      field "name" (str s.name) (
        field "data" (serialize s.payload)
          (field "timestamp" (float s.timestamp) (field "elapsed_ms" (float s.elapsed_ms) done))))

  unfoldable pub debug_steps_to_items : List (DebugTraceStep F) → Items F
  unfolding debug_step_to_dict
  debug_steps_to_items [] = end
  debug_steps_to_items (s ∷ ss) = item (debug_step_to_dict s) (debug_steps_to_items ss)

  -- `DebugTrace.to_dict`
  unfoldable pub debug_trace_to_dict : DebugTrace F → Json F
  unfolding debug_steps_to_items
  debug_trace_to_dict t = obj (
      field "agent_id" (str t.agent_id) (
        field "tick" (int (pos t.tick)) (
          field "episode_id" (str t.episode_id) (
            field "trace_id" (str t.trace_id) (
              field "start_time" t.start_time
                (field "steps" (arr (debug_steps_to_items t.steps)) done))))))

module _ {F : Type 0} ⦃fl : Floats F⦄ where
  -- `DebugTrace.add_step` at the time `now`
  unfoldable pub add_debug_step : F → String → Json F → DebugTrace F → Result (DebugTrace F)
  add_debug_step now name payload t = as_number t.start_time >>= λ start. ok (record t {
    steps =
        t.steps
        ++ (record {
          name = name;
          payload = payload;
          timestamp = now;
          elapsed_ms = fl.mul (fl.sub now start) (fl.of_int (pos 1000));
        })
          ∷ [];
  })

module _ {F : Type 0} where
  -- `_runtime_trace_to_debug`: the steps of a `ReasoningTrace` have no `elapsed_ms`
  abbrev converted : String → ReasoningTrace F → List (TraceStep F) → Result (DebugTrace F)
  converted trace_id t [] = ok (record {
    agent_id = t.agent_id;
    tick = t.tick;
    episode_id = t.episode_id;
    steps = [];
    trace_id = trace_id;
    start_time = str t.start_time;
  })
  converted trace_id t (s ∷ ss) =
      raise (Exn.other_error "'TraceStep' object has no attribute 'elapsed_ms'")

  unfoldable pub runtime_trace_to_debug : String → ReasoningTrace F → Result (DebugTrace F)
  runtime_trace_to_debug trace_id t = converted trace_id t t.steps

  -- `DebugStore(max_memory_traces)`
  unfoldable pub init : ℕ → DebugStore F
  init max_memory_traces = record { max_memory_traces = max_memory_traces; buffer = [] }

  unfoldable pub record_trace : DebugStore F → DebugTrace F → DebugStore F
  record_trace s t = record s { buffer = append_pop s.max_memory_traces s.buffer t }

  unfoldable pub record_runtime_trace :
      String → ReasoningTrace F → DebugStore F → Result (DebugStore F)
  unfolding runtime_trace_to_debug record_trace
  record_runtime_trace trace_id t s =
      runtime_trace_to_debug trace_id t >>= λ d. ok (record_trace s d)

  -- `if agent_id:` lets an empty text pass
  abbrev pub of_agent : Option String → DebugTrace F → Bool
  of_agent none t = true
  of_agent (some agent_id) t = if agent_id == "" then true else t.agent_id == agent_id

  abbrev pub wanted : Option String → Option ℕ → Option ℕ → DebugTrace F → Bool
  wanted agent_id tick_start tick_end t =
      of_agent agent_id t && from_tick tick_start t.tick && to_tick tick_end t.tick

  abbrev pub debug_by_tick : DebugTrace F → DebugTrace F → Bool
  debug_by_tick = ascending (λ t. t.tick)

  -- `get_recent_traces`, its three filters in one
  unfoldable pub get_recent_traces :
      DebugStore F → ℤ → Option String → Option ℕ → Option ℕ → List (Json F)
  unfolding slice_from_end debug_trace_to_dict
  get_recent_traces s limit agent_id tick_start tick_end = map debug_trace_to_dict (
      slice_from_end limit
        (sort_by debug_by_tick (keep (wanted agent_id tick_start tick_end) s.buffer)))

  abbrev agents_in : List (DebugTrace F) → List String
  agents_in [] = []
  agents_in (t ∷ ts) = add_key (agents_in ts) t.agent_id

  unfoldable pub list_agents : DebugStore F → List String
  unfolding add_key
  list_agents s = sort_by str_leb (agents_in s.buffer)

  abbrev one_capture : Option (DecisionCapture F) → List (Json F)
  one_capture none = []
  one_capture (some c) = capture_to_dict c ∷ []

  abbrev captures_for : PromptInspector F → String → Option ℕ → Option ℕ → Option ℕ → List (Json F)
  captures_for p agent_id (some tick) lo hi = one_capture (get_capture p agent_id tick)
  captures_for p agent_id none lo hi = map capture_to_dict (get_captures_for_agent p agent_id lo hi)

  abbrev captures_of_all : PromptInspector F → Option ℕ → Option ℕ → List (Json F)
  captures_of_all p lo hi = map capture_to_dict (get_all_captures p lo hi)

  -- `get_captures`: a tick counts only with an agent
  unfoldable pub get_captures :
      Option (PromptInspector F) → Option String → Option ℕ → Option ℕ → Option ℕ → List (Json F)
  get_captures none agent_id tick lo hi = []
  get_captures (some p) none tick lo hi = captures_of_all p lo hi
  get_captures (some p) (some agent_id) tick lo hi =
      if agent_id == "" then captures_of_all p lo hi else captures_for p agent_id tick lo hi

  unfoldable pub clear : DebugStore F → DebugStore F
  clear s = record s { buffer = [] }
