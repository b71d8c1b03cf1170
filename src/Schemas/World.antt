-- ===== src/Schemas/World.antt =====
-- schemas/spatial.py: `WorldObject`, `ExperienceEvent` and `SpatialQueryResult`.
use agent_arena.Prelude.{ℕ, String, Option, ◌≡◌, refl, arith}
use agent_arena.Prelude.Floats.{Floats}
use agent_arena.Prelude.Int.{ℤ, pos}
use agent_arena.Prelude.Json.{
  Json, Fields, int, float, str, obj, done, field, get_field, at_field, as_int, as_str, as_obj,
}
use agent_arena.Prelude.Result.{Result, ok, ◌>>=◌}
use agent_arena.Schemas.{
  Position, position_to_list, as_number, as_position, or_default, or_none, null_or,
}
use agent_arena.Schemas.Observation.{as_tick}
use agent_arena.Schemas.Percepts.{EntityInfo, ResourceInfo, HazardInfo}

pub record WorldObject (F : Type 0) : Type 0 where
  pub name : String
  pub object_type : String
  pub subtype : String
  pub position : Position F
  pub last_seen_tick : ℕ
  pub status : String
  pub damage : F
  pub metadata : Fields F

pub record ExperienceEvent (F : Type 0) : Type 0 where
  pub tick : ℕ
  pub event_type : String
  pub description : String
  pub position : Position F
  pub object_name : Option String
  pub damage_taken : F
  pub metadata : Fields F

pub record SpatialQueryResult (F : Type 0) : Type 0 where
  pub obj : WorldObject F
  pub distance : F
  pub score : F
  pub staleness : ℤ

module _ {F : Type 0} where
  -- `WorldObject.to_dict`
  unfoldable pub world_object_to_dict : WorldObject F → Json F
  world_object_to_dict o = obj (
      field "name" (str o.name) (
        field "object_type" (str o.object_type) (
          field "subtype" (str o.subtype) (
            field "position" (position_to_list o.position) (
              field "last_seen_tick" (int (pos o.last_seen_tick)) (
                field "status" (str o.status)
                  (field "damage" (float o.damage) (field "metadata" (obj o.metadata) done))))))))

  -- `ExperienceEvent.to_dict`
  unfoldable pub experience_to_dict : ExperienceEvent F → Json F
  experience_to_dict e = obj (
      field "tick" (int (pos e.tick)) (
        field "event_type" (str e.event_type) (
          field "description" (str e.description) (
            field "position" (position_to_list e.position) (
              field "object_name" (null_or str e.object_name) (
                field "damage_taken" (float e.damage_taken)
                  (field "metadata" (obj e.metadata) done)))))))

module _ {F : Type 0} ⦃fl : Floats F⦄ where
  -- `WorldObject.distance_to`, where `x ** 2` is the product
  unfoldable pub distance_to : WorldObject F → Position F → F
  distance_to o (x, y, z) =
      let dx = fl.sub o.position.0 x in
      let dy = fl.sub o.position.1 y in
      let dz = fl.sub o.position.2 z in
      fl.sqrt (fl.add (fl.add (fl.mul dx dx) (fl.mul dy dy)) (fl.mul dz dz))

  -- `WorldObject.from_resource`
  unfoldable pub from_resource : ResourceInfo F → ℕ → WorldObject F
  from_resource r tick = record {
    name = r.name;
    object_type = "resource";
    subtype = r.kind;
    position = r.position;
    last_seen_tick = tick;
    status = "active";
    damage = fl.of_int (pos 0);
    metadata = done;
  }

  -- `WorldObject.from_hazard`
  unfoldable pub from_hazard : HazardInfo F → ℕ → WorldObject F
  from_hazard h tick = record {
    name = h.name;
    object_type = "hazard";
    subtype = h.kind;
    position = h.position;
    last_seen_tick = tick;
    status = "active";
    damage = h.damage;
    metadata = done;
  }

  -- `WorldObject.from_entity`
  unfoldable pub from_entity : EntityInfo F → ℕ → WorldObject F
  from_entity e tick = record {
    name = e.id;
    object_type = "entity";
    subtype = e.kind;
    position = e.position;
    last_seen_tick = tick;
    status = "active";
    damage = fl.of_int (pos 0);
    metadata = e.metadata;
  }

  -- `WorldObject.from_dict`
  unfoldable pub world_object_from_dict : Json F → Result (WorldObject F)
  world_object_from_dict j = do
    d ← as_obj j
    name ← at_field d "name" >>= as_str
    object_type ← at_field d "object_type" >>= as_str
    subtype ← at_field d "subtype" >>= as_str
    position ← at_field d "position" >>= as_position
    last_seen_tick ← at_field d "last_seen_tick" >>= as_int >>= as_tick
    status ← or_default as_str "active" (get_field d "status")
    damage ← or_default as_number (fl.of_int (pos 0)) (get_field d "damage")
    metadata ← or_default as_obj done (get_field d "metadata")
    ok (record {
      name = name;
      object_type = object_type;
      subtype = subtype;
      position = position;
      last_seen_tick = last_seen_tick;
      status = status;
      damage = damage;
      metadata = metadata;
    })

  -- `ExperienceEvent.from_dict`
  unfoldable pub experience_from_dict : Json F → Result (ExperienceEvent F)
  experience_from_dict j = do
    d ← as_obj j
    tick ← at_field d "tick" >>= as_int >>= as_tick
    event_type ← at_field d "event_type" >>= as_str
    description ← at_field d "description" >>= as_str
    position ← at_field d "position" >>= as_position
    object_name ← or_none as_str (get_field d "object_name")
    damage_taken ← or_default as_number (fl.of_int (pos 0)) (get_field d "damage_taken")
    metadata ← or_default as_obj done (get_field d "metadata")
    ok (record {
      tick = tick;
      event_type = event_type;
      description = description;
      position = position;
      object_name = object_name;
      damage_taken = damage_taken;
      metadata = metadata;
    })

  -- A remembered object that is written and read back is unchanged, and so is an experience, with and
  -- without the name of an object.
  pub world_from_dict-to_dict :
      (o : WorldObject F) (e : ExperienceEvent F)
      → (world_object_from_dict (world_object_to_dict o) ≡ ok o)
        × (experience_from_dict (experience_to_dict e) ≡ ok e)
  unfolding world_object_from_dict world_object_to_dict experience_from_dict experience_to_dict
      at_field get_field
  world_from_dict-to_dict o e = (refl, ground arith)
