-- ===== src/Schemas/Percepts.antt =====
-- schemas/observation.py: what an observation tells of entities, resources, hazards, stations and
-- items, and the result of the last tool.
use agent_arena.Prelude.{String, Bool, false, ◌≡◌, refl}
use agent_arena.Prelude.Floats.{Floats}
use agent_arena.Prelude.Int.{ℤ, pos}
use agent_arena.Prelude.Json.{
  Json, Fields, bool, int, float, str, obj, done, field, get_field, at_field, as_int, as_str,
  as_obj,
}
use agent_arena.Prelude.Result.{Result, ok, ◌>>=◌}
use agent_arena.Schemas.{Position, position_to_list, as_bool, as_number, as_position, or_default}

pub record EntityInfo (F : Type 0) : Type 0 where
  pub id : String
  pub kind : String
  pub position : Position F
  pub distance : F
  pub metadata : Fields F

pub record ResourceInfo (F : Type 0) : Type 0 where
  pub name : String
  pub kind : String
  pub position : Position F
  pub distance : F

pub record HazardInfo (F : Type 0) : Type 0 where
  pub name : String
  pub kind : String
  pub position : Position F
  pub distance : F
  pub damage : F

pub record StationInfo (F : Type 0) : Type 0 where
  pub name : String
  pub kind : String
  pub position : Position F
  pub distance : F

pub record ToolResult (F : Type 0) : Type 0 where
  pub tool : String
  pub success : Bool
  pub result : Fields F
  pub error : String
  pub duration_ticks : ℤ

pub record ItemInfo : Type 0 where
  pub id : String
  pub name : String
  pub quantity : ℤ

-- The entries of the lists that `Observation.to_dict` builds, and of those that `from_dict` reads.
module _ {F : Type 0} where
  unfoldable pub entity_to_dict : EntityInfo F → Json F
  entity_to_dict e = obj (
      field "id" (str e.id) (
        field "type" (str e.kind) (
          field "position" (position_to_list e.position)
            (field "distance" (float e.distance) (field "metadata" (obj e.metadata) done)))))

  unfoldable pub resource_to_dict : ResourceInfo F → Json F
  resource_to_dict r = obj (
      field "name" (str r.name) (
        field "type" (str r.kind) (
          field "position" (position_to_list r.position)
            (field "distance" (float r.distance) done))))

  unfoldable pub hazard_to_dict : HazardInfo F → Json F
  hazard_to_dict h = obj (
      field "name" (str h.name) (
        field "type" (str h.kind) (
          field "position" (position_to_list h.position)
            (field "distance" (float h.distance) (field "damage" (float h.damage) done)))))

  unfoldable pub station_to_dict : StationInfo F → Json F
  station_to_dict s = obj (
      field "name" (str s.name) (
        field "type" (str s.kind) (
          field "position" (position_to_list s.position)
            (field "distance" (float s.distance) done))))

  unfoldable pub item_to_dict : ItemInfo → Json F
  item_to_dict i =
      obj
        (field "id" (str i.id) (field "name" (str i.name) (field "quantity" (int i.quantity) done)))

  -- `ToolResult.to_dict`
  unfoldable pub tool_result_to_dict : ToolResult F → Json F
  tool_result_to_dict r = obj (
      field "tool" (str r.tool) (
        field "success" (bool r.success) (
          field "result" (obj r.result)
            (field "error" (str r.error) (field "duration_ticks" (int r.duration_ticks) done)))))

  -- `ToolResult.from_dict`
  unfoldable pub tool_result_from_dict : Json F → Result (ToolResult F)
  tool_result_from_dict j = do
    data_ ← as_obj j
    tool ← at_field data_ "tool" >>= as_str
    success ← or_default as_bool false (get_field data_ "success")
    result ← or_default as_obj done (get_field data_ "result")
    error ← or_default as_str "" (get_field data_ "error")
    duration_ticks ← or_default as_int (pos 0) (get_field data_ "duration_ticks")
    ok (record {
      tool = tool;
      success = success;
      result = result;
      error = error;
      duration_ticks = duration_ticks;
    })

  pub tool_result-roundtrip :
      (r : ToolResult F) → tool_result_from_dict (tool_result_to_dict r) ≡ ok r
  unfolding tool_result_from_dict tool_result_to_dict at_field get_field
  tool_result-roundtrip r = refl

module _ {F : Type 0} ⦃fl : Floats F⦄ where
  unfoldable pub entity_from_dict : Json F → Result (EntityInfo F)
  entity_from_dict j = do
    data_ ← as_obj j
    position ← at_field data_ "position" >>= as_position
    id ← at_field data_ "id" >>= as_str
    kind ← at_field data_ "type" >>= as_str
    distance ← at_field data_ "distance" >>= as_number
    metadata ← or_default as_obj done (get_field data_ "metadata")
    ok (record {
      id = id;
      kind = kind;
      position = position;
      distance = distance;
      metadata = metadata;
    })

  unfoldable pub resource_from_dict : Json F → Result (ResourceInfo F)
  resource_from_dict j = do
    data_ ← as_obj j
    position ← at_field data_ "position" >>= as_position
    name ← at_field data_ "name" >>= as_str
    kind ← at_field data_ "type" >>= as_str
    distance ← at_field data_ "distance" >>= as_number
    ok (record { name = name; kind = kind; position = position; distance = distance })

  unfoldable pub hazard_from_dict : Json F → Result (HazardInfo F)
  hazard_from_dict j = do
    data_ ← as_obj j
    position ← at_field data_ "position" >>= as_position
    name ← at_field data_ "name" >>= as_str
    kind ← at_field data_ "type" >>= as_str
    distance ← at_field data_ "distance" >>= as_number
    damage ← or_default as_number (fl.of_int (pos 0)) (get_field data_ "damage")
    ok (record {
      name = name;
      kind = kind;
      position = position;
      distance = distance;
      damage = damage;
    })

  unfoldable pub station_from_dict : Json F → Result (StationInfo F)
  station_from_dict j = do
    data_ ← as_obj j
    position ← at_field data_ "position" >>= as_position
    name ← at_field data_ "name" >>= as_str
    kind ← at_field data_ "type" >>= as_str
    distance ← at_field data_ "distance" >>= as_number
    ok (record { name = name; kind = kind; position = position; distance = distance })

  pub entity-roundtrip : (e : EntityInfo F) → entity_from_dict (entity_to_dict e) ≡ ok e
  unfolding entity_from_dict entity_to_dict at_field get_field
  entity-roundtrip e = refl

  pub resource-roundtrip : (r : ResourceInfo F) → resource_from_dict (resource_to_dict r) ≡ ok r
  unfolding resource_from_dict resource_to_dict at_field get_field
  resource-roundtrip r = refl

  pub hazard-roundtrip : (h : HazardInfo F) → hazard_from_dict (hazard_to_dict h) ≡ ok h
  unfolding hazard_from_dict hazard_to_dict at_field get_field
  hazard-roundtrip h = refl

  pub station-roundtrip : (s : StationInfo F) → station_from_dict (station_to_dict s) ≡ ok s
  unfolding station_from_dict station_to_dict at_field get_field
  station-roundtrip s = refl
