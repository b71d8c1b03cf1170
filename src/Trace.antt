-- ===== src/Trace.antt =====
-- python/agent_runtime/reasoning_trace.py: the `TraceStore`.
-- A `ReasoningTrace` is shared: the agent adds steps to the object that `start_capture` returned,
-- and the store reads it through its dictionary. `objects` is the heap of all traces made, and a
-- reference is an index into it. The clock and the outcome of file operations are arguments; a
-- line of a file is the JSON value that it holds; a watcher is known by its identity.
pub mod Evict
pub mod Files
pub mod Backed
pub mod Capture
pub mod Cycle
pub mod Query
pub mod Episode
pub mod Watch
pub mod Calls
use mathlib.Core.List.{filter_map}
use agent_arena.Prelude.{
  ℕ, zero, suc, ◌+◌, ◌≡◌, String, Bool, true, false, ◌&&◌, ◌||◌, List, [], ◌∷◌, ◌++◌, Option, none,
  some, length, get_elem?, set, keep, map, ltb, leb, ◌==◌, string_key, nat_key, pair_key,
  if◌then◌else◌,
}
use agent_arena.Prelude.Dict.{Dict, get, put, del}
use agent_arena.Prelude.Json.{Json, Fields}
use agent_arena.Prelude.Result.{Result, ok, raise, Exn}
use agent_arena.Prelude.Sort.{sort_by, ascending}
use Evict.{Key, evict_oldest}
use Files.{ReasoningTrace, add_step, trace_to_dict, trace_from_dict}

pub record TraceStore (F : Type 0) : Type 0 where
  pub enabled : Bool
  pub max_entries : ℕ
  pub log_to_file : Bool
  pub objects : List (ReasoningTrace F)
  pub traces : Dict Key ℕ
  pub episode_id : String
  -- the episode whose file is open for append
  pub episode_file_handle : Option String
  -- the lines of `<log_dir>/<episode>.jsonl`, by episode
  pub files : Dict String (List (Json F))
  pub watchers : Dict String (List ℕ)
  -- the watcher calls made so far, the last one last
  pub notified : List (ℕ × ReasoningTrace F)

-- Which file operations succeed: a failed one is logged and swallowed.
pub record Disk : Type 0 where
  pub opens : String → Bool
  pub writes : Bool

-- `d.get(k, [])`
abbrev pub or_nil {ℓ} : {A : Type ℓ} → Option (List A) → List A
or_nil none = []
or_nil (some xs) = xs

module _ {F : Type 0} where
  -- `_open_episode_file`: append mode makes a missing file, and keeps what stands in another.
  unfoldable pub open_episode_file : Disk → TraceStore F → TraceStore F
  open_episode_file disk s =
      if s.log_to_file
      then (if disk.opens s.episode_id
          then record s {
            episode_file_handle = some s.episode_id;
            files = put s.files s.episode_id (or_nil (get s.files s.episode_id));
          }
          else record s { episode_file_handle = none })
      else s

  unfoldable pub start_episode : Disk → String → TraceStore F → TraceStore F
  unfolding open_episode_file
  start_episode disk episode_id s =
      let closed = record s { episode_file_handle = none; episode_id = episode_id } in
      if s.log_to_file then open_episode_file disk closed else closed

  unfoldable pub end_episode : TraceStore F → TraceStore F
  end_episode s = record s { episode_file_handle = none }

  abbrev pub new_trace : TraceStore F → String → ℕ → String → ReasoningTrace F
  new_trace s agent_id tick now = record {
    agent_id = agent_id;
    tick = tick;
    episode_id = s.episode_id;
    start_time = now;
    steps = [];
  }

  -- The result is the reference to the new trace, and `none` if the store is disabled.
  unfoldable pub start_capture : String → ℕ → String → TraceStore F → Option ℕ × TraceStore F
  start_capture agent_id tick now s =
      if s.enabled
      then (
        some (length s.objects),
        record s {
          objects = s.objects ++ new_trace s agent_id tick now ∷ [];
          traces = evict_oldest s.max_entries (put s.traces (agent_id, tick) (length s.objects));
        },
      )
      else (none, s)

  abbrev pub write_at :
      List (ReasoningTrace F) → ℕ → Option (ReasoningTrace F) → List (ReasoningTrace F)
  write_at objects ref none = objects
  write_at objects ref (some t) = set objects ref t

  abbrev pub map_step :
      Option (ReasoningTrace F) → String → String → Fields F → Option F → Option (ReasoningTrace F)
  map_step none now name payload duration_ms = none
  map_step (some t) now name payload duration_ms = some (add_step t now name payload duration_ms)

  -- `trace.add_step(...)` through a reference to a trace
  unfoldable pub step_at : ℕ → String → String → Fields F → Option F → TraceStore F → TraceStore F
  step_at ref now name payload duration_ms s = record s {
    objects =
        write_at s.objects ref (map_step (get_elem? s.objects ref) now name payload duration_ms);
  }

  -- the object behind a dictionary's entry
  abbrev pub deref : TraceStore F → Option ℕ → Option (ReasoningTrace F)
  deref s none = none
  deref s (some ref) = get_elem? s.objects ref

  unfoldable pub get_capture : TraceStore F → String → ℕ → Option (ReasoningTrace F)
  get_capture s agent_id tick = deref s (get s.traces (agent_id, tick))

  abbrev append_line : TraceStore F → ReasoningTrace F → Bool → Option String → TraceStore F
  append_line s t writes none = s
  append_line s t writes (some file) =
      if writes
      then record s { files = put s.files file (or_nil (get s.files file) ++ trace_to_dict t ∷ []) }
      else s

  -- `_write_to_jsonl`
  unfoldable pub write_to_jsonl : Disk → ReasoningTrace F → TraceStore F → TraceStore F
  write_to_jsonl disk t s = append_line s t disk.writes s.episode_file_handle

  -- `_notify_watchers`: the agent's own watchers, then those of "*". An exception is swallowed.
  unfoldable pub notify_watchers : String → ReasoningTrace F → TraceStore F → TraceStore F
  notify_watchers agent_id t s = record s {
    notified =
        (s.notified ++ map (λ c. (c, t)) (or_nil (get s.watchers agent_id)))
        ++ map (λ c. (c, t)) (or_nil (get s.watchers "*"));
  }

  abbrev finish_found : Disk → String → TraceStore F → Option (ReasoningTrace F) → TraceStore F
  finish_found disk agent_id s none = s
  finish_found disk agent_id s (some t) =
      notify_watchers agent_id t (if s.log_to_file then write_to_jsonl disk t s else s)

  unfoldable pub finish_capture : Disk → String → ℕ → TraceStore F → TraceStore F
  unfolding get_capture write_to_jsonl notify_watchers
  finish_capture disk agent_id tick s =
      if s.enabled then finish_found disk agent_id s (get_capture s agent_id tick) else s

  unfoldable pub clear : TraceStore F → TraceStore F
  clear s = record s { traces = [] }
