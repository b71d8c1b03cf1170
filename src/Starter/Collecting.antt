-- ===== src/Starter/Collecting.antt =====
-- `_plan_resource_collection`: the closest visible resource, or one that is remembered.
use agent_arena.Prelude.{String, List, [], ◌∷◌, ◌++ₛ◌, Option, none, if◌then◌else◌}
use agent_arena.Prelude.Floats.{Floats}
use agent_arena.Prelude.Int.{pos}
use agent_arena.Prelude.Result.{Result, ok}
use agent_arena.Planner.{ActionStep, plan_collect}
use agent_arena.Schemas.{Position}
use agent_arena.Schemas.Decision.{Decision}
use agent_arena.Schemas.Observation.{Observation}
use agent_arena.Schemas.Percepts.{ResourceInfo}
use agent_arena.Sightings.{Sighting, find_uncollected_resources}
use agent_arena.Starter.{Starter, Toolkit, begin_plan}

module _ {F : Type 0} ⦃fl : Floats F⦄ where
  -- `min(resources, key=lambda r: r.distance)`: the first of the closest
  unfoldable pub closest_resource : ResourceInfo F → List (ResourceInfo F) → ResourceInfo F
  closest_resource r [] = r
  closest_resource r (s ∷ ss) = closest_resource (if fl.lt s.distance r.distance then s else r) ss

  -- `plan_collect` with its `collect_radius` of 2
  abbrev pub collect_steps : String → Position F → Position F → List (ActionStep F)
  collect_steps name position at = plan_collect name position at (fl.of_int (pos 2))

module _ {F : Type 0} (k : Toolkit F) ⦃fl : Floats F⦄ where
  abbrev pub collect_remembered :
      Observation F → List (Sighting F) → Starter F → Result (Option (Decision F) × Starter F)
  collect_remembered o [] a = ok (none, a)
  collect_remembered o (s ∷ ss) a =
      begin_plan (collect_steps s.name s.position o.position)
        ("Returning to " ++ₛ s.name ++ₛ " last seen at tick " ++ₛ k.format.of_int (pos s.tick)) a

  abbrev pub collect_from :
      Observation F → List (ResourceInfo F) → Starter F → Result (Option (Decision F) × Starter F)
  collect_from o [] a = collect_remembered o (find_uncollected_resources a.memory o.tick (pos 40)) a
  collect_from o (r ∷ rs) a =
      let closest = closest_resource r rs in
      begin_plan (collect_steps closest.name closest.position o.position)
        ("Collecting " ++ₛ closest.kind ++ₛ " at distance " ++ₛ k.format.fixed 1 closest.distance) a

  unfoldable pub plan_resource_collection :
      Observation F → Starter F → Result (Option (Decision F) × Starter F)
  unfolding closest_resource begin_plan plan_collect find_uncollected_resources
  plan_resource_collection o a = collect_from o o.nearby_resources a
