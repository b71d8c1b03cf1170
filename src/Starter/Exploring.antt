-- ===== src/Starter/Exploring.antt =====
-- `_seek_safety` and `_explore`.
use agent_arena.Prelude.{
  Bool, false, not, ◌||◌, List, [], ◌∷◌, ◌++◌, ◌++ₛ◌, Option, none, some, map, length, keep,
  last_slice, if◌then◌else◌,
}
use agent_arena.Prelude.Floats.{Floats}
use agent_arena.Prelude.Int.{pos}
use agent_arena.Planner.{plan_explore, set_plan}
use agent_arena.Schemas.{Position}
use agent_arena.Schemas.Decision.{Decision, idle}
use agent_arena.Schemas.Exploration.{ExplorationInfo, ExploreTarget}
use agent_arena.Schemas.Observation.{Observation}
use agent_arena.Sightings.{find_hazard_zones}
use agent_arena.Sightings.Productive.{centroid, distance, find_productive_areas}
use agent_arena.Starter.{Starter, Toolkit, escape_position, go_to}

module _ {F : Type 0} ⦃fl : Floats F⦄ where
  unfoldable pub visited_near : Position F → List (Position F) → Bool
  unfolding distance
  visited_near p [] = false
  visited_near p (v ∷ vs) = fl.lt (distance v p) (fl.of_int (pos 5)) || visited_near p vs

  -- `_recently_visited`
  unfoldable pub recently_visited : Starter F → Position F → Bool
  unfolding visited_near
  recently_visited a p = visited_near p (last_slice 20 a.visited_positions)

  -- the known hazards: the visible ones, then those remembered for 30 ticks
  abbrev pub hazard_positions : Observation F → Starter F → List (Position F)
  hazard_positions o a =
      map (λ h. h.position) o.nearby_hazards
      ++ map (λ z. z.1) (find_hazard_zones a.memory o.tick (pos 30))

  -- `_explore`'s targets that are not visited
  abbrev pub unvisited : Starter F → Option (ExplorationInfo F) → List (ExploreTarget F)
  unvisited a none = []
  unvisited a (some e) = keep (λ t. not (recently_visited a t.position)) e.explore_targets

module _ {F : Type 0} (k : Toolkit F) ⦃fl : Floats F⦄ where
  abbrev safe_from : Observation F → List (Position F) → Decision F
  safe_from o [] = idle (some "Recovering health")
  safe_from o ps =
      go_to (escape_position o.position (centroid ps) (fl.of_int (pos 10)))
        ("Low health (" ++ₛ k.format.fixed 0 o.health ++ₛ ") - seeking safety")

  -- `_seek_safety`; `_center` of some positions is their centroid
  unfoldable pub seek_safety : Observation F → Starter F → Decision F
  unfolding find_hazard_zones escape_position centroid idle
  seek_safety o a = safe_from o (hazard_positions o a)

  abbrev new_direction : Observation F → Starter F → Decision F
  new_direction o a =
      let (c, s) = k.heading (length a.visited_positions) in
      go_to
        (
          fl.add o.position.0 (fl.mul c (fl.of_int (pos 10))),
          o.position.1,
          fl.add o.position.2 (fl.mul s (fl.of_int (pos 10))),
        )
        "Exploring new direction"

  unfoldable pub explore_productive : Observation F → Starter F → List (Position F) → Decision F
  unfolding recently_visited
  explore_productive o a [] = new_direction o a
  explore_productive o a (p ∷ ps) =
      let rest = explore_productive o a ps in
      if recently_visited a p
      then rest
      else go_to p "Exploring productive area (resources cluster here)"

  abbrev explore_from : Observation F → Starter F → List (ExploreTarget F) → Decision F × Starter F
  explore_from o a [] = (explore_productive o a (find_productive_areas a.memory), a)
  explore_from o a (t ∷ ts) = (
    go_to t.position ("Exploring " ++ₛ t.direction ++ₛ " (frontier)"),
    record a { planner = set_plan (plan_explore t.position t.direction) a.planner },
  )

  -- `_explore`
  unfoldable pub explore : Observation F → Starter F → Decision F × Starter F
  unfolding recently_visited explore_productive find_productive_areas set_plan plan_explore
  explore o a = explore_from o a (unvisited a o.exploration)
