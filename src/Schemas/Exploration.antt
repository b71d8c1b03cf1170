-- ===== src/Schemas/Exploration.antt =====
-- schemas/observation.py: `ExplorationInfo` and `ExploreTarget`.
use agent_arena.Prelude.{String, List, ◌≡◌, refl}
use agent_arena.Prelude.Floats.{Floats}
use agent_arena.Prelude.Int.{ℤ, pos}
use agent_arena.Prelude.Json.{
  Json, Fields, int, float, str, arr, obj, done, field, get_field, at_field, as_int, as_str, as_obj,
}
use agent_arena.Prelude.Result.{Result, ok, ◌>>=◌}
use agent_arena.Schemas.{
  Position, position_to_list, as_number, as_position, or_default, items_of, read_all, to_items,
  read_all-to_items,
}

pub record ExploreTarget (F : Type 0) : Type 0 where
  pub direction : String
  pub distance : F
  pub position : Position F

pub record ExplorationInfo (F : Type 0) : Type 0 where
  pub exploration_percentage : F
  pub total_cells : ℤ
  pub seen_cells : ℤ
  pub frontiers_by_direction : Fields F
  pub explore_targets : List (ExploreTarget F)

module _ {F : Type 0} where
  unfoldable pub target_to_dict : ExploreTarget F → Json F
  target_to_dict t = obj (
      field "direction" (str t.direction)
        (field "distance" (float t.distance) (field "position" (position_to_list t.position) done)))

  -- `ExplorationInfo.to_dict`
  unfoldable pub exploration_to_dict : ExplorationInfo F → Json F
  unfolding target_to_dict
  exploration_to_dict e = obj (
      field "exploration_percentage" (float e.exploration_percentage) (
        field "total_cells" (int e.total_cells) (
          field "seen_cells" (int e.seen_cells) (
            field "frontiers_by_direction" (obj e.frontiers_by_direction)
              (field "explore_targets" (arr (to_items target_to_dict e.explore_targets)) done)))))

module _ {F : Type 0} ⦃fl : Floats F⦄ where
  unfoldable pub target_from_dict : Json F → Result (ExploreTarget F)
  target_from_dict j = do
    t ← as_obj j
    direction ← at_field t "direction" >>= as_str
    distance ← at_field t "distance" >>= as_number
    position ← at_field t "position" >>= as_position
    ok (record { direction = direction; distance = distance; position = position })

  -- `ExplorationInfo.from_dict`
  unfoldable pub exploration_from_dict : Json F → Result (ExplorationInfo F)
  unfolding target_from_dict
  exploration_from_dict j = do
    data_ ← as_obj j
    targets ← items_of (get_field data_ "explore_targets") >>= read_all target_from_dict
    exploration_percentage ←
        or_default as_number (fl.of_int (pos 0)) (get_field data_ "exploration_percentage")
    total_cells ← or_default as_int (pos 0) (get_field data_ "total_cells")
    seen_cells ← or_default as_int (pos 0) (get_field data_ "seen_cells")
    frontiers ← or_default as_obj done (get_field data_ "frontiers_by_direction")
    ok (record {
      exploration_percentage = exploration_percentage;
      total_cells = total_cells;
      seen_cells = seen_cells;
      frontiers_by_direction = frontiers;
      explore_targets = targets;
    })

  target-roundtrip : (t : ExploreTarget F) → target_from_dict (target_to_dict t) ≡ ok t
  unfolding target_from_dict target_to_dict at_field get_field
  target-roundtrip t = refl

  pub exploration-roundtrip :
      (e : ExplorationInfo F) → exploration_from_dict (exploration_to_dict e) ≡ ok e
  unfolding exploration_from_dict exploration_to_dict at_field get_field
  exploration-roundtrip e =
      rw (read_all-to_items target_from_dict target_to_dict target-roundtrip e.explore_targets) refl
