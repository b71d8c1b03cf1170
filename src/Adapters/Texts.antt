-- ===== src/Adapters/Texts.antt =====
-- `format_observation`: the text of an observation for a model's prompt.
use agent_arena.Prelude.{
  String, List, [], ◌∷◌, ◌++◌, ◌++ₛ◌, map, take, Option, none, some, string_key, if◌then◌else◌,
}
use agent_arena.Prelude.Dict.{Dict, get}
use agent_arena.Prelude.Floats.{Floats}
use agent_arena.Prelude.Int.{pos}
use agent_arena.Prelude.Json.{Json, Fields, done, field, get_field, as_obj}
use agent_arena.Prelude.Result.{Result, ok, ◌>>=◌}
use agent_arena.Prelude.Text.{join}
use agent_arena.Adapters.{targets_of}
use agent_arena.Episodes.Texts.{Format}
use agent_arena.Schemas.{Position, position_to_list, or_empty}
use agent_arena.Schemas.Exploration.{ExploreTarget, ExplorationInfo}
use agent_arena.Schemas.Objective.{Objective, MetricDefinition}
use agent_arena.Schemas.Observation.{Observation}
use agent_arena.Schemas.Percepts.{ResourceInfo, ItemInfo, ToolResult}

module _ {F : Type 0} (f : Format F) (show : Json F → String) where
  abbrev in_sight : String → String → F → Position F → String
  in_sight name kind distance position =
      name
      ++ₛ " ("
      ++ₛ kind
      ++ₛ ") dist="
      ++ₛ f.fixed 1 distance
      ++ₛ " pos="
      ++ₛ show (position_to_list position)

  abbrev target_text : ExploreTarget F → String
  target_text t =
      t.direction
      ++ₛ " pos="
      ++ₛ show (position_to_list t.position)
      ++ₛ " ("
      ++ₛ f.fixed 1 t.distance
      ++ₛ "u away)"

  -- the entries of a dictionary as `k: v`
  abbrev entries : Fields F → List String
  entries done = []
  entries (field k v d) = (k ++ₛ ": " ++ₛ show v) ∷ entries d

  abbrev item_text : ItemInfo → String
  item_text i = i.name ++ₛ " x" ++ₛ f.of_int i.quantity

  abbrev target_of : Option (MetricDefinition F) → String
  target_of none = ""
  target_of (some m) = "/" ++ₛ f.fixed 0 m.target

  abbrev progress_parts : Objective F → Dict String F → List String
  progress_parts g [] = []
  progress_parts g ((metric, value) ∷ rest) =
      (metric ++ₛ ": " ++ₛ f.fixed 0 value ++ₛ target_of (get g.success_metrics metric))
      ∷ progress_parts g rest

  abbrev progress_line : Objective F → Dict String F → List String
  progress_line g [] = []
  progress_line g (p ∷ ps) = ("Progress: " ++ₛ join ", " (progress_parts g (p ∷ ps))) ∷ []

  unfoldable pub objective_lines : Option (Objective F) → Dict String F → List String
  unfolding get join
  objective_lines none progress = []
  objective_lines (some g) progress =
      "" ∷ ("Objective: " ++ₛ g.description) ∷ progress_line g progress

-- `label: a; b; c`, or `label: None`
unfoldable pub summary : String → List String → String
unfolding join
summary label [] = label ++ₛ ": None"
summary label (x ∷ xs) = label ++ₛ ": " ++ₛ join "; " (x ∷ xs)

abbrev items_text : List String → String
items_text [] = "Inventory: Empty"
items_text (x ∷ xs) = "Inventory: " ++ₛ join ", " (x ∷ xs)

module _ {F : Type 0} where
  abbrev result_lines : Option (ToolResult F) → List String
  result_lines none = []
  result_lines (some r) =
      ("Last action: "
        ++ₛ r.tool
        ++ₛ " -> "
        ++ₛ (if r.success then "OK" else "FAILED: " ++ₛ r.error))
      ∷ []

module _ {F : Type 0} (f : Format F) (show : Json F → String) ⦃fl : Floats F⦄ where
  -- a filled dictionary, or else the list of items
  abbrev inventory_text : Option (Fields F) → List ItemInfo → String
  inventory_text (some d) is = "Inventory: " ++ₛ join ", " (entries f show d)
  inventory_text none is = items_text (map (item_text f show) is)

  -- an inventory in `custom` goes before the list of items; if it is filled and no dictionary,
  -- `items` raises
  unfoldable pub inventory_line : Observation F → Result String
  unfolding get_field join
  inventory_line o = do
    raw ← or_empty as_obj (get_field o.custom "inventory")
    ok (inventory_text raw o.inventory)

  abbrev explored : Option (ExplorationInfo F) → F
  explored none = fl.of_int (pos 0)
  explored (some e) = e.exploration_percentage

  abbrev hint : List (ExploreTarget F) → String
  hint [] = "No resources visible! Move to an unexplored area to find them."
  hint (t ∷ ts) =
      "No resources visible! Use explore or move_to an exploration target to find them. Nearest: "
      ++ₛ show (position_to_list t.position)

  abbrev hint_lines : List (ResourceInfo F) → List (ExploreTarget F) → List String
  hint_lines [] ts = hint ts ∷ []
  hint_lines (r ∷ rs) ts = []

  -- `format_observation`
  unfoldable pub format_observation : Observation F → Result String
  unfolding inventory_line summary objective_lines
  format_observation o = do
    inventory ← inventory_line o
    let targets = targets_of o.exploration
    ok (
        join "\n" (
          ("Tick: "
              ++ₛ f.of_int (pos o.tick)
              ++ₛ " | Position: ("
              ++ₛ f.fixed 1 o.position.0
              ++ₛ ", "
              ++ₛ f.fixed 1 o.position.1
              ++ₛ ", "
              ++ₛ f.fixed 1 o.position.2
              ++ₛ ") | Health: "
              ++ₛ f.fixed 0 o.health
              ++ₛ " | Energy: "
              ++ₛ f.fixed 0 o.energy)
            ∷ ("Perception: "
                ++ₛ f.fixed 0 o.perception_radius
                ++ₛ " units | Explored: "
                ++ₛ f.fixed 1 (explored o.exploration)
                ++ₛ "%")
            ∷ ""
            ∷ summary "Resources" (
                map (λ r. in_sight f show r.name r.kind r.distance r.position)
                  (take 5 o.nearby_resources))
            ∷ summary "Hazards" (
                map (λ h. in_sight f show h.name h.kind h.distance h.position)
                  (take 5 o.nearby_hazards))
            ∷ summary "Stations" (
                map (λ s. in_sight f show s.name s.kind s.distance s.position)
                  (take 5 o.nearby_stations))
            ∷ inventory
            ∷ ""
            ∷ summary "Exploration targets" (map (target_text f show) (take 4 targets))
            ∷ hint_lines o.nearby_resources targets
          ++ objective_lines f show o.objective o.current_progress
          ++ result_lines o.last_tool_result))
