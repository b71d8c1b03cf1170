-- ===== src/Server/Debugging.antt =====
-- The debug endpoints of the server, which are registered only with debugging on; so they have the
-- tracker and the store. FastAPI checks the limits.
use agent_arena.Prelude.{
  ℕ, String, Bool, false, ◌&&◌, ◌||◌, List, [], ◌∷◌, Option, none, some, length, keep, ◌==◌,
  string_key, if◌then◌else◌,
}
use agent_arena.Prelude.Dict.{keys}
use agent_arena.Prelude.DictKeys.{add_key}
use agent_arena.Prelude.Int.{ℤ, pos}
use agent_arena.Prelude.Json.{Json, Items, int, str, arr, obj, end, item, done, field, get_field}
use agent_arena.Debug as Debug
use agent_arena.Debug.{DebugStore, get_recent_traces, get_captures}
use agent_arena.Inspector.{PromptInspector}
use agent_arena.Schemas.{to_items}
use agent_arena.Server.Tracker as Tracker
use agent_arena.Server.Tracker.{ObservationTracker, sorted, get_recent, get_changes}

abbrev joined : List String → List String → List String
joined [] ys = ys
joined (x ∷ xs) ys = add_key (joined xs ys) x

module _ {F : Type 0} where
  abbrev listed : String → List (Json F) → Json F
  listed name js = obj (
      field name (arr (to_items (λ (j : Json F). j) js))
        (field "count" (int (pos (length js))) done))

  -- `GET /debug/observations`
  unfoldable pub get_observations : ObservationTracker F → ℤ → Option String → Json F
  unfolding get_recent
  get_observations t limit agent_id = listed "observations" (get_recent t limit agent_id)

  -- `GET /debug/changes`
  unfoldable pub get_changed : ObservationTracker F → ℤ → Option String → Json F
  unfolding get_changes
  get_changed t limit agent_id = listed "changes" (get_changes t limit agent_id)

  -- `POST /debug/reset`
  unfoldable pub reset_observations : ObservationTracker F → Json F × ObservationTracker F
  reset_observations t = (obj (field "status" (str "reset") done), Tracker.clear t)

  abbrev is_text : String → Option (Json F) → Bool
  is_text s (some (str t)) = t == s
  is_text s _ = false

  abbrev tool_in : Option (Json F) → Option (Json F)
  tool_in (some (obj d)) = get_field d "tool"
  tool_in _ = none

  abbrev decides : String → Json F → Bool
  decides tool (obj s) =
      is_text "decision" (get_field s "name") && is_text tool (tool_in (get_field s "data"))
  decides tool _ = false

  unfoldable pub any_decides : String → Items F → Bool
  any_decides tool end = false
  any_decides tool (item s ss) = decides tool s || any_decides tool ss

  abbrev steps_of : Option (Json F) → Items F
  steps_of (some (arr ss)) = ss
  steps_of _ = end

  -- a trace with a decision for the tool
  abbrev has_decision : String → Json F → Bool
  has_decision tool (obj t) = any_decides tool (steps_of (get_field t "steps"))
  has_decision tool _ = false

  -- `if tool:` lets an empty text pass
  abbrev for_tool : Option String → List (Json F) → List (Json F)
  for_tool none ts = ts
  for_tool (some tool) ts = if tool == "" then ts else keep (has_decision tool) ts

  -- `GET /debug/traces`: the tool is looked for in what the limit left
  unfoldable pub get_traces :
      DebugStore F → ℤ → Option String → Option ℕ → Option ℕ → Option String → Json F
  unfolding get_recent_traces any_decides
  get_traces s limit agent_id tick_start tick_end tool =
      listed "traces" (for_tool tool (get_recent_traces s limit agent_id tick_start tick_end))

  -- `GET /debug/prompts`
  unfoldable pub get_prompts :
      Option (PromptInspector F) → Option String → Option ℕ → Option ℕ → Option ℕ → Json F
  unfolding get_captures
  get_prompts p agent_id tick tick_start tick_end =
      listed "captures" (get_captures p agent_id tick tick_start tick_end)

  -- `GET /debug/agents`
  unfoldable pub list_agents : DebugStore F → ObservationTracker F → Json F
  unfolding sorted add_key
  list_agents s t = obj (
      field "agents"
        (arr (
          to_items (λ (x : String). str x)
            (sorted (joined (keys t.last_visible) (Debug.list_agents s)))))
        done)
