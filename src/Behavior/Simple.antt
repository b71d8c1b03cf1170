-- ===== src/Behavior/Simple.antt =====
-- python/agent_runtime/behavior.py: `SimpleAgentBehavior`, with the `SimpleContext` of
-- python/agent_runtime/schemas.py. `decide` is the user's and an argument. The context keeps a
-- resource or a hazard as its record, which has the keys of the dictionary that the source makes of
-- it; so the defaults for a missing key are not reached.
use mathlib.Core.List.{map}
use agent_arena.Prelude.{
  ℕ, String, List, [], ◌∷◌, Option, none, some, ◌==◌, string_key, if◌then◌else◌,
}
use agent_arena.Prelude.Bounded.{append_slice}
use agent_arena.Prelude.Floats.{Floats}
use agent_arena.Prelude.Int.{pos}
use agent_arena.Prelude.Json.{Fields, str, done, field}
use agent_arena.Schemas.{Position, position_to_list}
use agent_arena.Schemas.Decision.{Decision}
use agent_arena.Schemas.Observation.{Observation}
use agent_arena.Schemas.Percepts.{ResourceInfo, HazardInfo, ItemInfo}
use agent_arena.Beginner.{nearest_hazard}
use agent_arena.Starter.Collecting.{closest_resource}

pub record SimpleContext (F : Type 0) : Type 0 where
  pub position : Position F
  pub nearby_resources : List (ResourceInfo F)
  pub nearby_hazards : List (HazardInfo F)
  pub inventory : List String
  pub goal : Option String
  pub tick : ℕ

pub record SimpleAgentBehavior (F : Type 0) : Type 0 where
  pub memory_capacity : ℕ
  pub observations : List (Observation F)
  pub goal : Option String

module _ {F : Type 0} where
  -- `SimpleContext.from_observation`
  unfoldable pub from_observation : Observation F → Option String → SimpleContext F
  from_observation o goal = record {
    position = o.position;
    nearby_resources = o.nearby_resources;
    nearby_hazards = o.nearby_hazards;
    inventory = map (λ (i : ItemInfo). i.name) o.inventory;
    goal = goal;
    tick = o.tick;
  }

  unfoldable pub set_goal : String → SimpleAgentBehavior F → SimpleAgentBehavior F
  set_goal goal b = record b { goal = some goal }

  abbrev target : Position F → Fields F
  target p = field "target_position" (position_to_list p) done

  abbrev first_item : List String → Fields F
  first_item [] = done
  first_item (name ∷ names) = field "item_name" (str name) done

module _ {F : Type 0} ⦃fl : Floats F⦄ where
  -- 5 units on, away from the hazard, in all three axes
  unfoldable pub away_from : Position F → Position F → Position F
  away_from at danger =
      let dx = fl.sub at.0 danger.0 in
      let dy = fl.sub at.1 danger.1 in
      let dz = fl.sub at.2 danger.2 in
      let dist = fl.sqrt (fl.add (fl.add (fl.mul dx dx) (fl.mul dy dy)) (fl.mul dz dz)) in
      let five = fl.of_int (pos 5) in
      if fl.lt (fl.of_int (pos 0)) dist
      then (
        fl.add at.0 (fl.mul (fl.div dx dist) five),
        fl.add at.1 (fl.mul (fl.div dy dist) five),
        fl.add at.2 (fl.mul (fl.div dz dist) five),
      )
      else at

  abbrev pub flee : Position F → List (HazardInfo F) → Position F
  flee at [] = at
  flee at (h ∷ hs) = away_from at (nearest_hazard h hs).position

  abbrev pub move_target : SimpleContext F → List (ResourceInfo F) → Position F
  move_target c [] = flee c.position c.nearby_hazards
  move_target c (r ∷ rs) = (closest_resource r rs).position

  abbrev pub pickup_item : List (ResourceInfo F) → Fields F
  pickup_item [] = done
  pickup_item (r ∷ rs) = field "item_id" (str (closest_resource r rs).name) done

  -- `_infer_parameters`
  unfoldable pub infer_parameters : String → SimpleContext F → Fields F
  unfolding away_from closest_resource nearest_hazard
  infer_parameters tool_name c =
      if tool_name == "move_to"
      then target (move_target c c.nearby_resources)
      else if tool_name == "pickup"
      then pickup_item c.nearby_resources
      else if tool_name == "drop"
      then first_item c.inventory
      else if tool_name == "use"
      then first_item c.inventory
      else done

module _ {F : Type 0} (decide : SimpleContext F → String) ⦃fl : Floats F⦄ where
  -- `_internal_decide`
  unfoldable pub internal_decide :
      Observation F → SimpleAgentBehavior F → Decision F × SimpleAgentBehavior F
  unfolding infer_parameters from_observation
  internal_decide o b =
      let c = from_observation o b.goal in
      let tool_name = decide c in
      (
        record { tool = tool_name; params = infer_parameters tool_name c; reasoning = none },
        record b { observations = append_slice b.memory_capacity b.observations o },
      )

  abbrev pub decide_on : SimpleAgentBehavior F → Observation F → SimpleAgentBehavior F
  decide_on b o = (internal_decide o b).1
