-- ===== src/Starter/Crafting.antt =====
-- `_plan_crafting`, `_try_opportunistic_craft`, and what they look up.
use agent_arena.Prelude.{
  String, Bool, true, ◌&&◌, List, [], ◌∷◌, ◌++ₛ◌, Option, none, some, reverse, ◌==◌, string_key,
  if◌then◌else◌,
}
use agent_arena.Prelude.Dict.{Dict, get, put}
use agent_arena.Prelude.Floats.{Floats}
use agent_arena.Prelude.Int.{ℤ, pos, ◌+ℤ◌}
use agent_arena.Prelude.IntRange.{int_leb}
use agent_arena.Prelude.Json.{Json, Fields, str, done, field, get_field, as_int, as_obj}
use agent_arena.Prelude.Result.{Result, ok, ◌>>=◌}
use agent_arena.Planner.{plan_craft, remaining_steps, set_plan}
use agent_arena.Schemas.{Position}
use agent_arena.Schemas.Decision.{Decision}
use agent_arena.Schemas.Observation.{Observation}
use agent_arena.Schemas.Percepts.{ResourceInfo, StationInfo, ItemInfo}
use agent_arena.Sightings.{Sighting, find_uncollected_resources}
use agent_arena.Starter.{Starter, Toolkit, begin_plan, is_in}

pub record Recipe : Type 0 where
  pub name : String
  pub station : String
  pub materials : List (String × ℤ)

-- RECIPES
abbrev pub recipes : List Recipe
recipes =
    (record {
      name = "torch";
      station = "workbench";
      materials = ("wood", pos 1) ∷ ("stone", pos 1) ∷ [];
    })
    ∷ (record { name = "meal"; station = "workbench"; materials = ("berry", pos 2) ∷ [] })
    ∷ (record {
      name = "shelter";
      station = "anvil";
      materials = ("wood", pos 3) ∷ ("stone", pos 2) ∷ [];
    })
    ∷ []

-- `counts.get(name, 0)`
abbrev or_zero : Option ℤ → ℤ
or_zero none = pos 0
or_zero (some n) = n

abbrev pub counted : Dict String ℤ → String → ℤ
counted counts name = or_zero (get counts name)

unfoldable pub count_items : List ItemInfo → Dict String ℤ → Dict String ℤ
count_items [] counts = counts
count_items (i ∷ is) counts =
    count_items is (put counts i.name (counted counts i.name +ℤ i.quantity))

-- the materials of which there are too few
unfoldable pub missing : Dict String ℤ → List (String × ℤ) → List String
missing counts [] = []
missing counts ((material, needed) ∷ ms) =
    let rest = missing counts ms in
    if int_leb needed (counted counts material) then rest else material ∷ rest

-- `all(inventory.get(m, 0) >= q for m, q in materials.items())`
unfoldable pub has_all : Dict String ℤ → List (String × ℤ) → Bool
has_all counts [] = true
has_all counts ((material, needed) ∷ ms) =
    int_leb needed (counted counts material) && has_all counts ms

abbrev pub first_of {ℓ} : {A : Type ℓ} → Option A → Option A → Option A
first_of none b = b
first_of (some a) b = some a

module _ {F : Type 0} where
  unfoldable pub count_custom : Fields F → Dict String ℤ → Result (Dict String ℤ)
  count_custom done counts = ok counts
  count_custom (field name j rest) counts =
      as_int j >>= λ n. count_custom rest (put counts name (counted counts name +ℤ n))

  abbrev custom_counts : Option (Json F) → Dict String ℤ → Result (Dict String ℤ)
  custom_counts none counts = ok counts
  custom_counts (some j) counts = as_obj j >>= λ d. count_custom d counts

  -- `_get_inventory_counts`
  unfoldable pub get_inventory_counts : Observation F → Result (Dict String ℤ)
  unfolding count_items count_custom
  get_inventory_counts o =
      custom_counts (get_field o.custom "inventory") (count_items o.inventory [])

  unfoldable pub station_among : String → List (StationInfo F) → Option (String × Position F)
  station_among kind [] = none
  station_among kind (s ∷ ss) =
      if s.kind == kind then some (s.name, s.position) else station_among kind ss

  unfoldable pub station_in : String → List (Observation F) → Option (String × Position F)
  unfolding station_among
  station_in kind [] = none
  station_in kind (o ∷ os) = first_of (station_among kind o.nearby_stations) (station_in kind os)

  -- `_find_station`
  unfoldable pub find_station : Observation F → String → Starter F → Option (String × Position F)
  unfolding station_in
  find_station o kind a =
      first_of (station_among kind o.nearby_stations)
        (station_in kind (reverse a.memory.observations))

  unfoldable pub visible_material : String → List (ResourceInfo F) → Option (Position F)
  visible_material material [] = none
  visible_material material (r ∷ rs) =
      if r.kind == material then some r.position else visible_material material rs

  -- a name that has the material's as a prefix has it as a part
  unfoldable pub remembered_material : String → List (Sighting F) → Option (Position F)
  remembered_material material [] = none
  remembered_material material (s ∷ ss) =
      let rest = remembered_material material ss in
      if is_in material s.name then some s.position else rest

  -- `_find_material`
  unfoldable pub find_material : Observation F → String → Starter F → Option (Position F)
  unfolding visible_material remembered_material find_uncollected_resources
  find_material o material a =
      first_of (visible_material material o.nearby_resources)
        (remembered_material material (find_uncollected_resources a.memory o.tick (pos 40)))

  abbrev with_position :
      String
      → Option (Position F)
      → Option (List (String × Position F))
      → Option (List (String × Position F))
  with_position name none rest = none
  with_position name (some p) none = none
  with_position name (some p) (some rest) = some ((name, p) ∷ rest)

  -- the positions of the missing materials, if all are known
  unfoldable pub locate :
      Observation F → Starter F → List String → Option (List (String × Position F))
  unfolding find_material
  locate o a [] = some []
  locate o a (name ∷ names) = with_position name (find_material o name a) (locate o a names)

module _ {F : Type 0} (k : Toolkit F) where
  -- with nothing missing the plan is to go and craft
  abbrev pub craft_at :
      Recipe
      → String × Position F
      → List String
      → List (String × Position F)
      → Starter F
      → Result (Option (Decision F) × Starter F)
  craft_at r (station, position) [] located a =
      begin_plan (plan_craft r.name station position none)
        ("Crafting " ++ₛ r.name ++ₛ " at " ++ₛ station) a
  craft_at r (station, position) (m ∷ ms) located a =
      let steps = plan_craft r.name station position (some located) in
      begin_plan steps
        ("Crafting plan: "
          ++ₛ r.name
          ++ₛ " ("
          ++ₛ k.format.of_int (pos (remaining_steps (set_plan steps a.planner)))
          ++ₛ " steps)")
        a

  abbrev pub craft_with :
      Recipe
      → Option (String × Position F)
      → List String
      → Option (List (String × Position F))
      → Starter F
      → Result (Option (Decision F) × Starter F)
      → Result (Option (Decision F) × Starter F)
  craft_with r none names located a rest = rest
  craft_with r (some station) names none a rest = rest
  craft_with r (some station) names (some located) a rest = craft_at r station names located a

  -- the loop over RECIPES
  unfoldable pub craft_first :
      Observation F
      → Dict String ℤ
      → Starter F
      → List Recipe
      → Result (Option (Decision F) × Starter F)
  unfolding begin_plan plan_craft remaining_steps set_plan missing find_station locate
  craft_first o counts a [] = ok (none, a)
  craft_first o counts a (r ∷ rs) =
      let names = missing counts r.materials in
      craft_with r (find_station o r.station a) names (locate o a names) a
        (craft_first o counts a rs)

  -- `_plan_crafting`
  unfoldable pub plan_crafting :
      Observation F → Starter F → Result (Option (Decision F) × Starter F)
  unfolding craft_first get_inventory_counts
  plan_crafting o a = get_inventory_counts o >>= λ counts. craft_first o counts a recipes

module _ {F : Type 0} where
  unfoldable pub craft_here : Dict String ℤ → StationInfo F → List Recipe → Option (Decision F)
  unfolding has_all
  craft_here counts s [] = none
  craft_here counts s (r ∷ rs) =
      let rest = craft_here counts s rs in
      if s.kind == r.station && has_all counts r.materials
      then some (record {
        tool = "craft_item";
        params = field "recipe" (str r.name) done;
        reasoning = some ("Opportunistic craft: " ++ₛ r.name ++ₛ " at " ++ₛ s.kind);
      })
      else rest

module _ {F : Type 0} ⦃fl : Floats F⦄ where
  unfoldable pub craft_nearby : Dict String ℤ → List (StationInfo F) → Option (Decision F)
  unfolding craft_here
  craft_nearby counts [] = none
  craft_nearby counts (s ∷ ss) =
      let rest = craft_nearby counts ss in
      if fl.lt (fl.of_int (pos 3)) s.distance
      then rest
      else first_of (craft_here counts s recipes) rest

  -- `_try_opportunistic_craft`
  unfoldable pub try_opportunistic_craft : Observation F → Result (Option (Decision F))
  unfolding craft_nearby get_inventory_counts
  try_opportunistic_craft o =
      get_inventory_counts o >>= λ counts. ok (craft_nearby counts o.nearby_stations)
