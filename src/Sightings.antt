-- ===== src/Sightings.antt =====
-- starters/intermediate/memory.py: the starter's `SlidingWindowMemory`, with what it recalls of
-- resources and hazards.
pub mod Recall
pub mod Uncollected
pub mod Productive
use mathlib.Core.List.{foldl}
use agent_arena.Prelude.{
  ℕ, String, Bool, true, false, not, ◌&&◌, List, [], ◌∷◌, ◌++◌, map, reverse, length, keep, ltb,
  leb, ◌==◌, string_key, if◌then◌else◌,
}
use agent_arena.Prelude.Bounded.{append_pop}
use agent_arena.Prelude.Dict.{Dict, put}
use agent_arena.Prelude.DictKeys.{contains, add_key}
use agent_arena.Prelude.Int.{ℤ, sub_ℕ}
use agent_arena.Prelude.IntRange.{int_leb}
use agent_arena.Prelude.Result.{Result, ok, raise, Exn}
use agent_arena.Prelude.Sort.{sort_by, descending}
use agent_arena.Schemas.{Position}
use agent_arena.Schemas.Observation.{Observation}
use agent_arena.Window.{slice_from_end}

pub record Memory (F : Type 0) : Type 0 where
  pub capacity : ℕ
  pub observations : List (Observation F)
  pub collected : List String

-- a tuple (name, position, tick)
pub record Sighting (F : Type 0) : Type 0 where
  pub name : String
  pub position : Position F
  pub tick : ℕ

-- the last position and tick by name
abbrev pub Seen : Type 0 → Type 0
Seen F = Dict String (Position F × ℕ)

module _ {F : Type 0} where
  unfoldable pub init : ℕ → Result (Memory F)
  init capacity =
      if ltb capacity 1
      then raise (Exn.value_error "Capacity must be at least 1")
      else ok (record { capacity = capacity; observations = []; collected = [] })

  unfoldable pub store : Memory F → Observation F → Memory F
  store m o = record m { observations = append_pop m.capacity m.observations o }

  unfoldable pub mark_collected : String → Memory F → Memory F
  unfolding add_key
  mark_collected name m = record m { collected = add_key m.collected name }

  unfoldable pub get_recent : Memory F → ℤ → List (Observation F)
  unfolding slice_from_end
  get_recent m n = reverse (slice_from_end n m.observations)

  -- what an observation shows, by name
  abbrev pub resources_of : Observation F → List (String × Position F)
  resources_of o = map (λ r. (r.name, r.position)) o.nearby_resources

  abbrev pub hazards_of : Observation F → List (String × Position F)
  hazards_of o = map (λ h. (h.name, h.position)) o.nearby_hazards

  -- the inner loop of `find_resources_seen` and `find_hazards_seen`
  unfoldable pub note_all : ℕ → List (String × Position F) → Seen F → Seen F
  note_all tick [] d = d
  note_all tick ((name, position) ∷ rs) d = note_all tick rs (put d name (position, tick))

  -- the outer loop
  unfoldable pub seen_in :
      (Observation F → List (String × Position F)) → List (Observation F) → Seen F → Seen F
  unfolding note_all
  seen_in of [] d = d
  seen_in of (o ∷ os) d = seen_in of os (note_all o.tick (of o) d)

  abbrev pub sighting : String × (Position F × ℕ) → Sighting F
  sighting (name, (position, tick)) = record { name = name; position = position; tick = tick }

  unfoldable pub find_resources_seen : Memory F → List (Sighting F)
  unfolding seen_in
  find_resources_seen m = map sighting (seen_in resources_of m.observations [])

  unfoldable pub find_hazards_seen : Memory F → List (Sighting F)
  unfolding seen_in
  find_hazards_seen m = map sighting (seen_in hazards_of m.observations [])

  -- `current_tick - tick < recency`
  abbrev pub is_recent : ℕ → ℤ → Sighting F → Bool
  is_recent current_tick recency s = not (int_leb recency (sub_ℕ current_tick s.tick))

  unfoldable pub find_uncollected_resources : Memory F → ℕ → ℤ → List (Sighting F)
  unfolding find_resources_seen contains
  find_uncollected_resources m current_tick recency = sort_by (descending (λ s. s.tick)) (
      keep (λ s. not (contains m.collected s.name) && is_recent current_tick recency s)
        (find_resources_seen m))

  unfoldable pub find_hazard_zones : Memory F → ℕ → ℤ → List (String × Position F)
  unfolding find_hazards_seen
  find_hazard_zones m current_tick recency =
      map (λ s. (s.name, s.position)) (keep (is_recent current_tick recency) (find_hazards_seen m))

  unfoldable pub count_observations : Memory F → ℕ
  count_observations m = length m.observations

  unfoldable pub is_full : Memory F → Bool
  is_full m = leb m.capacity (length m.observations)

  unfoldable pub clear : Memory F → Memory F
  clear m = record m { observations = []; collected = [] }
