-- ===== src/Inspector.antt =====
-- python/agent_runtime/prompt_inspector.py: the `PromptInspector`. As for the `TraceStore`, `objects`
-- is the heap of the captures made, to which the agent holds references. A file is known by the
-- (agent_id, tick) that its name `<agent_id>_tick_<tick>.json` spells.
pub mod Replaced
pub mod Queries
use mathlib.Core.List.{filter_map}
use agent_arena.Prelude.{
  ℕ, String, Bool, true, false, ◌&&◌, List, [], ◌∷◌, ◌++◌, Option, none, some, length, get_elem?,
  set, keep, ltb, ◌==◌, string_key, nat_key, pair_key, nat_beq, if◌then◌else◌,
}
use agent_arena.Prelude.Dict.{Dict, get, put}
use agent_arena.Prelude.Int.{pos}
use agent_arena.Prelude.Json.{Json, Items, Fields, int, str, arr, obj, end, item, done, field}
use agent_arena.Prelude.Sort.{sort_by, ascending}
use agent_arena.Prelude.Text.{str_leb}
use agent_arena.Trace.Evict.{Key, evict_oldest}
use agent_arena.Trace.Query.{in_range}

pub data InspectorStage : Type 0 where
  observation prompt_building llm_request llm_response decision : InspectorStage

abbrev pub stage_value : InspectorStage → String
stage_value InspectorStage.observation = "observation"
stage_value InspectorStage.prompt_building = "prompt_building"
stage_value InspectorStage.llm_request = "llm_request"
stage_value InspectorStage.llm_response = "llm_response"
stage_value InspectorStage.decision = "decision"

pub record InspectorEntry (F : Type 0) : Type 0 where
  pub timestamp : String
  pub agent_id : String
  pub tick : ℕ
  pub stage : InspectorStage
  pub payload : Fields F

pub record DecisionCapture (F : Type 0) : Type 0 where
  pub agent_id : String
  pub tick : ℕ
  pub start_time : String
  pub entries : List (InspectorEntry F)

pub record PromptInspector (F : Type 0) : Type 0 where
  pub enabled : Bool
  pub max_entries : ℕ
  pub log_to_file : Bool
  pub objects : List (DecisionCapture F)
  pub captures : Dict Key ℕ
  -- what each file holds, `none` for one whose writing broke off
  pub files : Dict Key (Option (Json F))

-- How `open(filepath, "w")` and the dump go: a failure is logged and swallowed, and one after the
-- opening leaves a broken file.
pub data Writing : Type 0 where
  written unopened broken : Writing

module _ {F : Type 0} where
  -- `DecisionCapture.add_entry`
  unfoldable pub add_entry :
      DecisionCapture F → String → InspectorStage → Fields F → DecisionCapture F
  add_entry c now stage payload = record c {
    entries =
        c.entries
        ++ (record {
          timestamp = now;
          agent_id = c.agent_id;
          tick = c.tick;
          stage = stage;
          payload = payload;
        })
          ∷ [];
  }

  -- `InspectorEntry.to_dict`
  unfoldable pub entry_to_dict : InspectorEntry F → Json F
  entry_to_dict e = obj (
      field "timestamp" (str e.timestamp) (
        field "agent_id" (str e.agent_id) (
          field "tick" (int (pos e.tick))
            (field "stage" (str (stage_value e.stage)) (field "data" (obj e.payload) done)))))

  unfoldable pub entries_to_items : List (InspectorEntry F) → Items F
  entries_to_items [] = end
  entries_to_items (e ∷ es) = item (entry_to_dict e) (entries_to_items es)

  -- `DecisionCapture.to_dict`
  unfoldable pub capture_to_dict : DecisionCapture F → Json F
  capture_to_dict c = obj (
      field "agent_id" (str c.agent_id) (
        field "tick" (int (pos c.tick)) (
          field "start_time" (str c.start_time)
            (field "entries" (arr (entries_to_items c.entries)) done))))

  abbrev pub new_capture : String → ℕ → String → DecisionCapture F
  new_capture agent_id tick now = record {
    agent_id = agent_id;
    tick = tick;
    start_time = now;
    entries = [];
  }

  unfoldable pub start_capture :
      String → ℕ → String → PromptInspector F → Option ℕ × PromptInspector F
  start_capture agent_id tick now p =
      if p.enabled
      then (
        some (length p.objects),
        record p {
          objects = p.objects ++ new_capture agent_id tick now ∷ [];
          captures =
              evict_oldest p.max_entries (put p.captures (agent_id, tick) (length p.objects));
        },
      )
      else (none, p)

  abbrev pub entry_written :
      List (DecisionCapture F)
      → ℕ
      → Option (DecisionCapture F)
      → String
      → InspectorStage
      → Fields F
      → List (DecisionCapture F)
  entry_written objects ref none now stage payload = objects
  entry_written objects ref (some c) now stage payload =
      set objects ref (add_entry c now stage payload)

  -- `capture.add_entry(...)` through a reference to a capture
  unfoldable pub entry_at :
      ℕ → String → InspectorStage → Fields F → PromptInspector F → PromptInspector F
  entry_at ref now stage payload p = record p {
    objects = entry_written p.objects ref (get_elem? p.objects ref) now stage payload;
  }

  abbrev pub deref : PromptInspector F → Option ℕ → Option (DecisionCapture F)
  deref p none = none
  deref p (some ref) = get_elem? p.objects ref

  unfoldable pub get_capture : PromptInspector F → String → ℕ → Option (DecisionCapture F)
  get_capture p agent_id tick = deref p (get p.captures (agent_id, tick))

  -- `_write_to_file`
  unfoldable pub write_to_file : Writing → DecisionCapture F → PromptInspector F → PromptInspector F
  write_to_file Writing.written c p = record p {
    files = put p.files (c.agent_id, c.tick) (some (capture_to_dict c));
  }
  write_to_file Writing.unopened c p = p
  write_to_file Writing.broken c p = record p { files = put p.files (c.agent_id, c.tick) none }

  abbrev finish_found : Writing → PromptInspector F → Option (DecisionCapture F) → PromptInspector F
  finish_found w p none = p
  finish_found w p (some c) = if p.log_to_file then write_to_file w c p else p

  unfoldable pub finish_capture : Writing → String → ℕ → PromptInspector F → PromptInspector F
  unfolding get_capture write_to_file
  finish_capture w agent_id tick p =
      if p.enabled then finish_found w p (get_capture p agent_id tick) else p

  -- the comprehension over `self.captures.items()`, as far as the capture behind each entry
  unfoldable pub select : PromptInspector F → (Key × ℕ → Bool) → List (DecisionCapture F)
  select p test = filter_map (λ e. get_elem? p.objects e.1) (keep test p.captures)

  -- the sort keys `c.tick` and `(c.tick, c.agent_id)`
  abbrev pub by_tick : DecisionCapture F → DecisionCapture F → Bool
  by_tick = ascending (λ c. c.tick)

  abbrev pub by_tick_agent : DecisionCapture F → DecisionCapture F → Bool
  by_tick_agent c d =
      if ltb c.tick d.tick
      then true
      else if nat_beq c.tick d.tick
      then str_leb c.agent_id d.agent_id
      else false

  unfoldable pub get_captures_for_agent :
      PromptInspector F → String → Option ℕ → Option ℕ → List (DecisionCapture F)
  unfolding select
  get_captures_for_agent p agent_id tick_start tick_end =
      sort_by by_tick (select p (λ e. e.0.0 == agent_id && in_range tick_start tick_end e))

  unfoldable pub get_all_captures :
      PromptInspector F → Option ℕ → Option ℕ → List (DecisionCapture F)
  unfolding select
  get_all_captures p tick_start tick_end =
      sort_by by_tick_agent (select p (in_range tick_start tick_end))

  unfoldable pub clear : PromptInspector F → PromptInspector F
  clear p = record p { captures = [] }
