-- ===== src/Spatial.antt =====
-- python/sdk/agent_arena_sdk/memory/spatial.py: `SpatialMemory` without its semantic search, as it is
-- with `enable_semantic=False` or without the long-term memory package. The older copy in
-- python/agent_runtime/memory/spatial.py has the same code. A set is a list of distinct items;
-- `mark_collected` writes the object in place, and here the entry of the dictionary is replaced.
pub mod Cells
pub mod Index
pub mod Calls
pub mod Near
pub mod Statuses
pub mod Queries
use mathlib.Core.List.{foldl}
use agent_arena.Prelude.{
  ℕ, ◌-◌, String, Bool, true, false, not, ◌&&◌, ◌||◌, List, [], ◌∷◌, ◌++◌, map, Option, none, some,
  length, keep, ltb, ◌==◌, string_key, if◌then◌else◌,
}
use agent_arena.Prelude.Bounded.{append_pop}
use agent_arena.Prelude.Dict.{Dict, get, put, has, values}
use agent_arena.Prelude.Floats.{Floats}
use agent_arena.Prelude.Int.{ℤ, pos}
use agent_arena.Prelude.IntRange.{int_key}
use agent_arena.Prelude.Json.{done}
use agent_arena.Schemas.{Position}
use agent_arena.Schemas.Observation.{Observation}
use agent_arena.Schemas.World.{
  WorldObject, ExperienceEvent, from_resource, from_hazard, from_entity,
}
use agent_arena.Window.{slice_from_end}
use Cells.{Cell, Grid, pos_to_grid, add_to_grid, remove_from_grid}

pub record SpatialMemory (F : Type 0) : Type 0 where
  pub objects : Dict String (WorldObject F)
  pub spatial_grid : Grid
  pub stale_threshold : ℤ
  pub current_tick : ℕ
  pub experiences : List (ExperienceEvent F)
  pub max_experiences : ℕ

-- `status in ("collected", "destroyed")`
abbrev pub is_gone : String → Bool
is_gone status = status == "collected" || status == "destroyed"

-- `if subtype and obj.subtype != subtype: continue`, and the same for the type
abbrev pub passes : Option String → String → Bool
passes none value = true
passes (some wanted) value = wanted == "" || value == wanted

module _ {F : Type 0} where
  -- `SpatialMemory(enable_semantic=False, stale_threshold=...)`
  unfoldable pub init : ℤ → SpatialMemory F
  init stale_threshold = record {
    objects = [];
    spatial_grid = [];
    stale_threshold = stale_threshold;
    current_tick = 0;
    experiences = [];
    max_experiences = 50;
  }

  abbrev pub set_status :
      String → SpatialMemory F → String → Option (WorldObject F) → Bool × SpatialMemory F
  set_status name m status none = (false, m)
  set_status name m status (some o) =
      (true, record m { objects = put m.objects name (record o { status = status }) })

  unfoldable pub mark_collected : String → SpatialMemory F → Bool × SpatialMemory F
  mark_collected name m = set_status name m "collected" (get m.objects name)

  unfoldable pub mark_destroyed : String → SpatialMemory F → Bool × SpatialMemory F
  mark_destroyed name m = set_status name m "destroyed" (get m.objects name)

  unfoldable pub query_by_type :
      SpatialMemory F → String → Option String → Bool → List (WorldObject F)
  query_by_type m object_type subtype include_collected =
      keep
        (λ o.
          (o.object_type == object_type && passes subtype o.subtype)
          && (include_collected || not (is_gone o.status)))
        (values m.objects)

  unfoldable pub get_object : SpatialMemory F → String → Option (WorldObject F)
  get_object m name = get m.objects name

  unfoldable pub get_all_objects : SpatialMemory F → Bool → List (WorldObject F)
  get_all_objects m include_collected =
      if include_collected
      then values m.objects
      else keep (λ o. not (is_gone o.status)) (values m.objects)

  unfoldable pub get_resources : SpatialMemory F → Bool → List (WorldObject F)
  unfolding query_by_type
  get_resources m include_collected = query_by_type m "resource" none include_collected

  unfoldable pub get_hazards : SpatialMemory F → List (WorldObject F)
  unfolding query_by_type
  get_hazards m = query_by_type m "hazard" none true

  unfoldable pub get_recent_experiences : SpatialMemory F → ℤ → List (ExperienceEvent F)
  unfolding slice_from_end
  get_recent_experiences m limit = slice_from_end limit m.experiences

  unfoldable pub clear_experiences : SpatialMemory F → SpatialMemory F
  clear_experiences m = record m { experiences = [] }

  unfoldable pub clear : SpatialMemory F → SpatialMemory F
  clear m = record m { objects = []; spatial_grid = []; experiences = [] }

module _ {F : Type 0} ⦃fl : Floats F⦄ where
  abbrev pub kept_status : WorldObject F → WorldObject F → WorldObject F
  kept_status existing o =
      if is_gone existing.status then record o { status = existing.status } else o

  -- `_store_or_update`, by whether the name is known
  abbrev pub store_found :
      WorldObject F → SpatialMemory F → Option (WorldObject F) → SpatialMemory F
  store_found o m none = record m {
    objects = put m.objects o.name o;
    spatial_grid = add_to_grid o.name o.position m.spatial_grid;
  }
  store_found o m (some existing) = record m {
    objects = put m.objects o.name (kept_status existing o);
    spatial_grid =
        add_to_grid o.name o.position
          (remove_from_grid existing.name existing.position m.spatial_grid);
  }

  unfoldable pub store_or_update : SpatialMemory F → WorldObject F → SpatialMemory F
  unfolding add_to_grid remove_from_grid
  store_or_update m o = store_found o m (get m.objects o.name)

  -- the objects that an observation shows, in the order in which they are stored
  unfoldable pub seen : Observation F → List (WorldObject F)
  seen o =
      (map (λ r. from_resource r o.tick) o.nearby_resources
        ++ map (λ h. from_hazard h o.tick) o.nearby_hazards)
      ++ map (λ e. from_entity e o.tick) o.visible_entities

  unfoldable pub update_from_observation : Observation F → SpatialMemory F → SpatialMemory F
  unfolding seen store_or_update
  update_from_observation o m = foldl store_or_update (record m { current_tick = o.tick }) (seen o)

  -- what a collision is remembered as
  abbrev pub obstacle : ExperienceEvent F → String → WorldObject F
  obstacle e name = record {
    name = name;
    object_type = "obstacle";
    subtype = "collision";
    position = e.position;
    last_seen_tick = e.tick;
    status = "active";
    damage = fl.of_int (pos 0);
    metadata = done;
  }

  abbrev store_collision : ExperienceEvent F → SpatialMemory F → Option String → SpatialMemory F
  store_collision e m none = m
  store_collision e m (some name) =
      if e.event_type == "collision" && not (name == "")
      then store_or_update m (obstacle e name)
      else m

  unfoldable pub record_experience : ExperienceEvent F → SpatialMemory F → SpatialMemory F
  unfolding store_or_update
  record_experience e m =
      store_collision e (record m { experiences = append_pop m.max_experiences m.experiences e })
        e.object_name
