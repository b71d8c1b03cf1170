-- ===== src/Adapters.antt =====
-- python/sdk/agent_arena_sdk/adapters/base.py: `FrameworkAdapter`, the base of the adapters for
-- language models. `decide` is the subclass's. `show` stands for `str` of a list or of another value.
pub mod Texts
pub mod Offered
use agent_arena.Prelude.{
  String, Bool, List, [], ◌∷◌, ◌++ₛ◌, Option, none, some, map, string_key, if◌then◌else◌,
}
use agent_arena.Prelude.Floats.{Floats}
use agent_arena.Prelude.Int.{pos}
use agent_arena.Prelude.Json.{Json, Items, Fields, str, arr, obj, end, item, done, field}
use agent_arena.Beginner.{nearest_hazard}
use agent_arena.Episodes.Texts.{Format}
use agent_arena.Schemas.{Position}
use agent_arena.Schemas.Decision.{Decision}
use agent_arena.Schemas.Exploration.{ExploreTarget, ExplorationInfo}
use agent_arena.Schemas.Observation.{Observation}
use agent_arena.Schemas.Percepts.{ResourceInfo, HazardInfo}
use agent_arena.Schemas.Tools.{ToolSchema}
use agent_arena.Starter.{go_to}
use agent_arena.Starter.Collecting.{closest_resource}

module _ {F : Type 0} where
  -- the JSON schema of an object with one required property
  abbrev one_property : String → Fields F → Fields F
  one_property name schema = field "type" (str "object") (
      field "properties" (obj (field name (obj schema) done))
        (field "required" (arr (item (str name) end)) done))

  abbrev no_property : Fields F
  no_property = field "type" (str "object") (field "properties" (obj done) done)

  abbrev text_property : String → Fields F
  text_property description =
      field "type" (str "string") (field "description" (str description) done)

  unfoldable pub get_action_tools : List (ToolSchema F)
  get_action_tools =
      record {
        name = "move_to";
        description =
            "Navigate to a target position. The game handles pathfinding and obstacle avoidance. This ends your turn.";
        parameters = one_property "target_position" (
            field "type" (str "array") (
              field "items" (obj (field "type" (str "number") done))
                (field "description" (str "Target position as [x, y, z]") done)));
      }
      ∷ record {
        name = "collect";
        description =
            "Collect a nearby resource by name. Must be within collection range. This ends your turn.";
        parameters = one_property "target_name" (text_property "Name of the resource to collect");
      }
      ∷ record {
        name = "craft_item";
        description =
            "Craft an item at a nearby crafting station. Must be within range of the correct station type. Recipes: torch (1 wood + 1 stone at workbench), meal (2 berry at workbench), shelter (3 wood + 2 stone at anvil). This ends your turn.";
        parameters =
            one_property "recipe" (text_property "Recipe name (e.g., 'torch', 'shelter', 'meal')");
      }
      ∷ record {
        name = "explore";
        description =
            "Move toward the nearest unexplored area to discover new resources. Use this when no resources are visible. This ends your turn.";
        parameters = no_property;
      }
      ∷ record {
        name = "idle";
        description = "Do nothing this tick. This ends your turn.";
        parameters = no_property;
      }
      ∷ []

module _ {F : Type 0} ⦃fl : Floats F⦄ where
  -- `max(x, 0.1)`
  abbrev at_least_tenth : F → F
  at_least_tenth x =
      let tenth = fl.div (fl.of_int (pos 1)) (fl.of_int (pos 10)) in
      if fl.lt x tenth then tenth else x

  -- 5 units on, away from the hazard and on the same height
  unfoldable pub flee_position : Position F → Position F → Position F
  flee_position at danger =
      let dx = fl.sub at.0 danger.0 in
      let dz = fl.sub at.2 danger.2 in
      let dist = at_least_tenth (fl.sqrt (fl.add (fl.mul dx dx) (fl.mul dz dz))) in
      let five = fl.of_int (pos 5) in
      (fl.add at.0 (fl.mul (fl.div dx dist) five), at.1, fl.add at.2 (fl.mul (fl.div dz dist) five))

module _ {F : Type 0} where
  abbrev pub targets_of : Option (ExplorationInfo F) → List (ExploreTarget F)
  targets_of none = []
  targets_of (some e) = e.explore_targets

  abbrev pub or_decide : Option (Decision F) → Decision F → Decision F
  or_decide (some d) next = d
  or_decide none next = next

module _ {F : Type 0} (f : Format F) ⦃fl : Floats F⦄ where
  -- Priorities 1 and 2 give a decision or leave it to the next; 3 and 4 decide.
  abbrev pub flee : Observation F → List (HazardInfo F) → Option (Decision F)
  flee o [] = none
  flee o (h ∷ hs) =
      let closest = nearest_hazard h hs in
      if fl.lt closest.distance (fl.of_int (pos 3))
      then some (
          go_to (flee_position o.position closest.position)
            ("Fleeing hazard " ++ₛ closest.name ++ₛ " at dist " ++ₛ f.fixed 1 closest.distance))
      else none

  abbrev pub approach : List (ResourceInfo F) → Option (Decision F)
  approach [] = none
  approach (r ∷ rs) =
      let closest = closest_resource r rs in
      some (
        go_to closest.position
          ("Moving toward " ++ₛ closest.name ++ₛ " at dist " ++ₛ f.fixed 1 closest.distance))

  abbrev pub scout : Position F → List (ExploreTarget F) → Decision F
  scout at [] =
      go_to (fl.add at.0 (fl.of_int (pos 10)), at.1, at.2)
        "No resources or exploration data, moving to explore"
  scout at (t ∷ ts) = go_to t.position ("Exploring " ++ₛ t.direction)

  unfoldable pub fallback_decision : Observation F → Decision F
  unfolding flee_position nearest_hazard closest_resource
  fallback_decision o =
      or_decide (flee o o.nearby_hazards)
        (or_decide (approach o.nearby_resources) (scout o.position (targets_of o.exploration)))
