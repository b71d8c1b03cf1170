-- ===== src/Spatial/Near.antt =====
-- `query_near_position`. Python iterates over the set of candidates in an order that it does not
-- specify: `iterated` stands for it.
use mathlib.Core.List.{foldl, filter_map, Memᴰ}
use agent_arena.Prelude.{
  ℕ, String, Bool, true, false, not, ◌&&◌, ◌||◌, List, [], ◌∷◌, map, Option, none, some, ◌==◌,
  string_key,
}
use agent_arena.Prelude.Dict.{get}
use agent_arena.Prelude.DictKeys.{add_key}
use agent_arena.Prelude.Floats.{Floats}
use agent_arena.Prelude.Int.{ℤ, pos, sub_ℕ, ◌+ℤ◌, ◌-ℤ◌}
use agent_arena.Prelude.IntRange.{int_range, int_leb}
use agent_arena.Prelude.Maps.{for_each}
use agent_arena.Prelude.Sort.{sort_by}
use agent_arena.Schemas.{Position}
use agent_arena.Schemas.World.{WorldObject, SpatialQueryResult, distance_to}
use agent_arena.Spatial.{SpatialMemory, is_gone, passes}
use agent_arena.Spatial.Cells.{Cell, Grid, cell_key, names_in, pos_to_grid, cells_per_axis}
pub mod Cover
pub mod Exact

-- the coordinates `center + d` for `d in range(-n, n + 1)`
abbrev pub axis : ℤ → ℤ → List ℤ
axis center n = map (λ d. center +ℤ d) (int_range (pos 0 -ℤ n) (n +ℤ pos 1))

-- the names in some cells of the grid, as a set
unfoldable pub gather : Grid → List String → List Cell → List String
gather g names [] = names
gather g names (c ∷ cs) = gather g (foldl add_key names (names_in (get g c))) cs

module _ {F : Type 0} ⦃fl : Floats F⦄ where
  -- `_get_nearby_cells`
  unfoldable pub get_nearby_cells : Position F → F → List Cell
  unfolding pos_to_grid
  get_nearby_cells position radius =
      let center = pos_to_grid position in
      let n = cells_per_axis radius in
      for_each (axis center.0 n)
        (λ x. for_each (axis center.1 n) (λ y. map (λ z. (x, y, z)) (axis center.2 n)))

  -- `self._current_tick - obj.last_seen_tick`
  abbrev pub staleness_of : SpatialMemory F → WorldObject F → ℤ
  staleness_of m o = sub_ℕ m.current_tick o.last_seen_tick

  -- the conditions of the loop's `continue`s, in their order
  unfoldable pub admits :
      SpatialMemory F → Position F → F → Option String → Bool → Bool → WorldObject F → Bool
  unfolding distance_to
  admits m position radius object_type include_collected include_stale o =
      passes object_type o.object_type
      && ((include_collected || not (is_gone o.status))
          && (not (fl.lt radius (distance_to o position))
              && (include_stale || int_leb (staleness_of m o) m.stale_threshold)))

  abbrev pub result_of : SpatialMemory F → Position F → WorldObject F → SpatialQueryResult F
  result_of m position o = record {
    obj = o;
    distance = distance_to o position;
    score = fl.of_int (pos 1);
    staleness = staleness_of m o;
  }

  abbrev pub result_if :
      SpatialMemory F → Position F → WorldObject F → Bool → Option (SpatialQueryResult F)
  result_if m position o true = some (result_of m position o)
  result_if m position o false = none

  -- the loop's body for one candidate, by what the name stands for
  abbrev pub candidate :
      SpatialMemory F
      → Position F
      → F
      → Option String
      → Bool
      → Bool
      → Option (WorldObject F)
      → Option (SpatialQueryResult F)
  candidate m position radius object_type include_collected include_stale none = none
  candidate m position radius object_type include_collected include_stale (some o) =
      result_if m position o
        (admits m position radius object_type include_collected include_stale o)

  abbrev pub by_distance : SpatialQueryResult F → SpatialQueryResult F → Bool
  by_distance r s = fl.le r.distance s.distance

  unfoldable pub query_near_position :
      (List String → List String)
      → SpatialMemory F
      → Position F
      → F
      → Option String
      → Bool
      → Bool
      → List (SpatialQueryResult F)
  unfolding get_nearby_cells gather admits
  query_near_position iterated m position radius object_type include_collected include_stale =
      sort_by by_distance (
        filter_map
          (λ name.
            candidate m position radius object_type include_collected include_stale
              (get m.objects name))
          (iterated (gather m.spatial_grid [] (get_nearby_cells position radius))))
