-- ===== src/Tests/SpatialRuns.antt =====
-- A spatial memory that has seen two objects and a collision, with integers for floats.
use mathlib.Core.List.{foldl, Memᴰ}
use agent_arena.Prelude.{true, false, ◌≡◌, ◌↔◌, refl, List, [], ◌∷◌, map, none, some, string_key}
use agent_arena.Prelude.Dict.{get, put, del}
use agent_arena.Prelude.DictKeys.{contains, add_key, drop_key}
use agent_arena.Prelude.Int.{ℤ, pos, negsuc, ◌+ℤ◌, ◌-ℤ◌, div_floor}
use agent_arena.Prelude.Json.{done}
use agent_arena.Prelude.Sort.{IsSorted, insert_sorted, sort_by}
use agent_arena.Schemas.World.{
  WorldObject, SpatialQueryResult, from_resource, from_hazard, from_entity, distance_to,
}
use agent_arena.Spatial.{
  SpatialMemory, init, store_or_update, update_from_observation, seen, mark_collected,
  record_experience, get_object,
}
use agent_arena.Spatial.Cells.{pos_to_grid, add_name, remove_name}
use agent_arena.Spatial.Index.{MemoryCall, observes, records, clears_experiences, step, IsIndexed}
use agent_arena.Spatial.Calls.{init_steps-IsIndexed}
use agent_arena.Spatial.Near.{query_near_position, gather, get_nearby_cells, by_distance, admits}
use agent_arena.Spatial.Near.Exact.{IsNear, query_near_position_exact}
use agent_arena.Spatial.Statuses.{gone, mark_collected_lasting}
use agent_arena.Tests.Ints.{int_floats, int_floats-IsExact, root}
use agent_arena.Tests.SchemaRuns.{seeing, bump}

abbrev lived : List (MemoryCall ℤ)
lived = observes seeing ∷ records bump ∷ []

abbrev known : SpatialMemory ℤ
known = foldl step (init (pos 100)) lived

abbrev berry : WorldObject ℤ
berry = record {
  name = "berry_1";
  object_type = "resource";
  subtype = "berry";
  position = (pos 3, pos 0, negsuc 0);
  last_seen_tick = 7;
  status = "active";
  damage = pos 0;
  metadata = done;
}

berry-known : get_object known "berry_1" ≡ some berry
unfolding get_object step init update_from_observation seen record_experience store_or_update get
    put from_resource from_hazard from_entity
berry-known = refl

init_steps-IsIndexed_example : IsIndexed known
init_steps-IsIndexed_example = init_steps-IsIndexed (pos 100) lived

known-IsIndexed : IsIndexed known
known-IsIndexed = init_steps-IsIndexed (pos 100) lived

query_near_position_exact_example :
    IsSorted by_distance
      (query_near_position (λ names. names) known (pos 0, pos 0, pos 0) (pos 20) none false true)
    × ((r : SpatialQueryResult ℤ)
        → Memᴰ r (
            query_near_position
              (λ names. names)
              known
              (pos 0, pos 0, pos 0)
              (pos 20)
              none
              false
              true)
          ↔ IsNear known (pos 0, pos 0, pos 0) (pos 20) none false true r)
query_near_position_exact_example =
    query_near_position_exact known (pos 0, pos 0, pos 0) (pos 20) none false true (λ names. names)
      (λ names n. (λ m. m, λ m. m)) int_floats-IsExact known-IsIndexed

-- the berry and the tree are within 20 of the origin, and the fire is not
near_names :
    map
      (λ r. r.obj.name)
      (query_near_position (λ names. names) known (pos 0, pos 0, pos 0) (pos 20) none false true)
    ≡ "berry_1" ∷ "tree" ∷ []
unfolding query_near_position gather get_nearby_cells admits step init update_from_observation seen
    record_experience store_or_update add_name remove_name pos_to_grid get put del contains add_key
    drop_key ◌+ℤ◌ ◌-ℤ◌ div_floor insert_sorted sort_by from_resource from_hazard from_entity
    distance_to root mathlib.Core.List.filter_map
near_names = refl

mark_collected_lasting_example :
    gone (
      get_object
        (foldl step (mark_collected "berry_1" known).1 (observes seeing ∷ clears_experiences ∷ []))
        "berry_1")
    ≡ true
mark_collected_lasting_example =
    mark_collected_lasting known "berry_1" berry (observes seeing ∷ clears_experiences ∷ [])
      berry-known (tt, (tt, tt))
