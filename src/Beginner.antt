-- ===== src/Beginner.antt =====
-- starters/beginner/agent.py: the `Agent` of the beginner's starter, which keeps no state. The
-- formatting of numbers is an argument; an inventory counts in integers.
pub mod Priorities
use agent_arena.Prelude.{
  String, Bool, true, false, ◌&&◌, List, [], ◌∷◌, ◌++ₛ◌, Option, none, some, ◌==◌, string_key,
  if◌then◌else◌,
}
use agent_arena.Prelude.Dict.{Dict, get}
use agent_arena.Prelude.Floats.{Floats}
use agent_arena.Prelude.Int.{ℤ, pos}
use agent_arena.Prelude.IntRange.{int_leb}
use agent_arena.Prelude.Json.{Json, Fields, str, done, field, get_field, as_int, as_obj}
use agent_arena.Prelude.Result.{Result, ok, ◌>>=◌}
use agent_arena.Episodes.Texts.{Format}
use agent_arena.Schemas.{Position}
use agent_arena.Schemas.Decision.{Decision, idle}
use agent_arena.Schemas.Exploration.{ExplorationInfo, ExploreTarget}
use agent_arena.Schemas.Objective.{MetricDefinition, Objective}
use agent_arena.Schemas.Observation.{Observation}
use agent_arena.Schemas.Percepts.{HazardInfo, ResourceInfo, StationInfo}
use agent_arena.Starter.{go_to}
use agent_arena.Starter.Collecting.{closest_resource}

module _ {F : Type 0} ⦃fl : Floats F⦄ where
  unfoldable pub calculate_escape_position : Position F → Position F → F → Position F
  calculate_escape_position agent danger away =
      let dx = fl.sub agent.0 danger.0 in
      let dz = fl.sub agent.2 danger.2 in
      let far = fl.sqrt (fl.add (fl.mul dx dx) (fl.mul dz dz)) in
      if fl.lt (fl.of_int (pos 0)) far
      then (
        fl.add danger.0 (fl.mul (fl.div dx far) away),
        agent.1,
        fl.add danger.2 (fl.mul (fl.div dz far) away),
      )
      else (fl.add danger.0 away, agent.1, fl.add danger.2 (fl.of_int (pos 0)))

  -- `min(hazards, key=lambda h: h.distance)`
  unfoldable pub nearest_hazard : HazardInfo F → List (HazardInfo F) → HazardInfo F
  nearest_hazard h [] = h
  nearest_hazard h (g ∷ gs) = nearest_hazard (if fl.lt g.distance h.distance then g else h) gs

module _ {F : Type 0} (f : Format F) ⦃fl : Floats F⦄ where
  -- the loop of `check_danger`
  unfoldable pub escape_from : Position F → List (HazardInfo F) → Option (Decision F)
  unfolding calculate_escape_position
  escape_from at [] = none
  escape_from at (h ∷ hs) =
      let rest = escape_from at hs in
      if fl.lt h.distance (fl.of_int (pos 3))
      then some (
          go_to (calculate_escape_position at h.position (fl.of_int (pos 5)))
            ("Escaping " ++ₛ h.kind ++ₛ " hazard at distance " ++ₛ f.fixed 1 h.distance))
      else rest

  unfoldable pub check_danger : Observation F → Option (Decision F)
  unfolding escape_from
  check_danger o = escape_from o.position o.nearby_hazards

  abbrev pub toward : ResourceInfo F → Decision F
  toward r =
      go_to r.position ("Moving toward " ++ₛ r.kind ++ₛ " at distance " ++ₛ f.fixed 1 r.distance)

  abbrev collect_closest : List (ResourceInfo F) → Option (Decision F)
  collect_closest [] = none
  collect_closest (r ∷ rs) = some (toward (closest_resource r rs))

  unfoldable pub collect_resources : Observation F → Option (Decision F)
  unfolding closest_resource
  collect_resources o = collect_closest o.nearby_resources

module _ {F : Type 0} where
  -- `inventory.get(name, 0) >= n`
  abbrev count_of : Option (Json F) → Result ℤ
  count_of none = ok (pos 0)
  count_of (some j) = as_int j

  unfoldable pub enough : Fields F → String → ℤ → Result Bool
  enough inventory name n = count_of (get_field inventory name) >>= λ have. ok (int_leb n have)

  -- `enough of this and enough of that`, which looks at the second only after the first
  unfoldable pub enough_both : Fields F → String → ℤ → String → ℤ → Result Bool
  unfolding enough
  enough_both inventory a n b k =
      enough inventory a n >>= λ first. if first then enough inventory b k else ok false

  abbrev crafting : String → String → Decision F
  crafting recipe reasoning = record {
    tool = "craft_item";
    params = field "recipe" (str recipe) done;
    reasoning = some reasoning;
  }

  abbrev decided_if :
      Bool → Decision F → Result (Option (Decision F)) → Result (Option (Decision F))
  decided_if b d rest = if b then ok (some d) else rest

  -- the recipes that a station close by is for, then the stations after it
  unfoldable pub craft_at_workbench :
      Fields F → Result (Option (Decision F)) → Result (Option (Decision F))
  unfolding enough_both enough
  craft_at_workbench inventory rest =
      enough_both inventory "wood" (pos 1) "stone" (pos 1) >>= λ torch.
      decided_if torch (crafting "torch" "At workbench with wood and stone, crafting torch") (
        enough inventory "berry" (pos 2) >>= λ meal.
        decided_if meal (crafting "meal" "At workbench with berries, crafting meal") rest)

  unfoldable pub craft_at_anvil :
      Fields F → Result (Option (Decision F)) → Result (Option (Decision F))
  unfolding enough_both
  craft_at_anvil inventory rest =
      enough_both inventory "wood" (pos 3) "stone" (pos 2) >>= λ shelter.
      decided_if shelter (crafting "shelter" "At anvil with materials, crafting shelter") rest

module _ {F : Type 0} ⦃fl : Floats F⦄ where
  -- the loop over the stations
  unfoldable pub craft_at_stations : Fields F → List (StationInfo F) → Result (Option (Decision F))
  unfolding craft_at_workbench craft_at_anvil
  craft_at_stations inventory [] = ok none
  craft_at_stations inventory (s ∷ ss) =
      let rest = craft_at_stations inventory ss in
      if fl.lt (fl.of_int (pos 3)) s.distance
      then rest
      else if s.kind == "workbench"
      then craft_at_workbench inventory rest
      else if s.kind == "anvil"
      then craft_at_anvil inventory rest
      else rest

  abbrev craft_from : Observation F → Option (Json F) → Result (Option (Decision F))
  craft_from o none = ok none
  craft_from o (some j) = as_obj j >>= λ d. craft_at_stations d o.nearby_stations

  abbrev craft_near : Observation F → List (StationInfo F) → Result (Option (Decision F))
  craft_near o [] = ok none
  craft_near o ss = craft_from o (get_field o.custom "inventory")

  -- `try_crafting`: an inventory, where there is one, is an object; an empty one has enough of nothing
  unfoldable pub try_crafting : Observation F → Result (Option (Decision F))
  unfolding craft_at_stations
  try_crafting o = craft_near o o.nearby_stations

  abbrev safe_from : Observation F → List (HazardInfo F) → Decision F
  safe_from o [] = idle (some "Recovering health")
  safe_from o (h ∷ hs) =
      go_to
        (calculate_escape_position o.position (nearest_hazard h hs).position (fl.of_int (pos 10)))
        "Low health - seeking safety"

  unfoldable pub seek_safety : Observation F → Decision F
  unfolding calculate_escape_position nearest_hazard idle
  seek_safety o = safe_from o o.nearby_hazards

  abbrev explore_first : List (ExploreTarget F) → Decision F
  explore_first [] = idle (some "No immediate actions needed")
  explore_first (t ∷ ts) = go_to t.position ("Exploring " ++ₛ t.direction)

  abbrev explore_known : Option (ExplorationInfo F) → Decision F
  explore_known none = explore_first []
  explore_known (some e) = explore_first e.explore_targets

  unfoldable pub explore : Observation F → Decision F
  unfolding idle
  explore o = explore_known o.exploration

module _ {F : Type 0} (f : Format F) ⦃fl : Floats F⦄ where
  abbrev zero_or : Option F → F
  zero_or none = fl.of_int (pos 0)
  zero_or (some x) = x

  -- the loop of `pursue_objective`
  unfoldable pub pursue_metrics :
      Observation F → Dict String (MetricDefinition F) → Option (Decision F)
  unfolding collect_resources seek_safety
  pursue_metrics o [] = none
  pursue_metrics o ((name, metric) ∷ ms) =
      let rest = pursue_metrics o ms in
      if name == "resources_collected"
        && fl.lt (zero_or (get o.current_progress name)) metric.target
      then collect_resources f o
      else if name == "health_remaining" && fl.lt o.health metric.target
      then some (seek_safety o)
      else rest

  abbrev pursue : Observation F → Option (Objective F) → Option (Decision F)
  pursue o none = none
  pursue o (some objective) = pursue_metrics o objective.success_metrics

  unfoldable pub pursue_objective : Observation F → Option (Decision F)
  unfolding pursue_metrics
  pursue_objective o = pursue o o.objective

  abbrev crafted_or : Observation F → Option (Decision F) → Result (Decision F)
  crafted_or o (some d) = ok d
  crafted_or o none = ok (explore o)

  abbrev pub calmly : Observation F → Option (Decision F) → Result (Decision F)
  calmly o (some d) = ok d
  calmly o none = try_crafting o >>= crafted_or o

  abbrev pub safely : Observation F → Option (Decision F) → Result (Decision F)
  safely o (some d) = ok d
  safely o none = calmly o (collect_resources f o)

  unfoldable pub decide : Observation F → Result (Decision F)
  unfolding check_danger collect_resources try_crafting explore
  decide o = safely o (check_danger f o)
