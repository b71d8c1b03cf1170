-- ===== src/Schemas/Observation.antt =====
-- schemas/observation.py: `Observation`. A tick is a natural number. The source checks no types when
-- it reads; here a value that does not have the type its field declares raises, so that what is read
-- is an observation as the game writes it, or one that lacks a required part.
use agent_arena.Prelude.{
  ℕ, String, List, [], ◌∷◌, Option, none, some, ◌≡◌, refl, ap, string_key, if◌then◌else◌,
}
use agent_arena.Prelude.Dict.{Dict, IsDict, is_some}
use agent_arena.Prelude.Floats.{Floats}
use agent_arena.Prelude.Int.{ℤ, pos}
use agent_arena.Prelude.Json.{
  Json, Items, Fields, int, float, str, arr, obj, end, item, done, field, get_field, at_field,
  as_int, as_str, as_obj,
}
use agent_arena.Prelude.Result.{Result, ok, raise, Exn, ◌>>=◌}
use agent_arena.Schemas.{
  Position, position_to_list, as_number, as_position, or_default, or_none, or_empty, null_or,
  items_of, read_all, to_items, read_all-to_items,
}
use agent_arena.Schemas.Exploration.{
  ExplorationInfo, exploration_to_dict, exploration_from_dict, exploration-roundtrip,
}
use agent_arena.Schemas.Objective.{
  Objective, objective_to_dict, objective_from_dict, objective_from_dict-objective_to_dict,
}
use agent_arena.Schemas.Percepts.{
  EntityInfo, ResourceInfo, HazardInfo, StationInfo, ToolResult, ItemInfo, entity_to_dict,
  resource_to_dict, hazard_to_dict, station_to_dict, item_to_dict, tool_result_to_dict,
  tool_result_from_dict, entity_from_dict, resource_from_dict, hazard_from_dict, station_from_dict,
  tool_result-roundtrip, entity-roundtrip, resource-roundtrip, hazard-roundtrip, station-roundtrip,
}

pub record Observation (F : Type 0) : Type 0 where
  pub agent_id : String
  pub tick : ℕ
  pub position : Position F
  pub rotation : Option (Position F)
  pub velocity : Option (Position F)
  pub visible_entities : List (EntityInfo F)
  pub nearby_resources : List (ResourceInfo F)
  pub nearby_hazards : List (HazardInfo F)
  pub nearby_stations : List (StationInfo F)
  pub inventory : List ItemInfo
  pub health : F
  pub energy : F
  pub perception_radius : F
  pub exploration : Option (ExplorationInfo F)
  pub scenario_name : String
  pub objective : Option (Objective F)
  pub current_progress : Dict String F
  pub custom : Fields F
  pub last_tool_result : Option (ToolResult F)

abbrev pub as_tick : ℤ → Result ℕ
as_tick (pos n) = ok n
as_tick _ = raise (Exn.other_error "not a tick")

module _ {F : Type 0} where
  unfoldable pub floats_to_fields : Dict String F → Fields F
  floats_to_fields [] = done
  floats_to_fields ((k, x) ∷ d) = field k (float x) (floats_to_fields d)

  -- `Observation.to_dict`
  unfoldable pub observation_to_dict : Observation F → Json F
  unfolding entity_to_dict resource_to_dict hazard_to_dict station_to_dict item_to_dict
      tool_result_to_dict exploration_to_dict objective_to_dict floats_to_fields
  observation_to_dict o = obj (
      field "agent_id" (str o.agent_id) (
        field "tick" (int (pos o.tick)) (
          field "position" (position_to_list o.position) (
            field "rotation" (null_or position_to_list o.rotation) (
              field "velocity" (null_or position_to_list o.velocity) (
                field "visible_entities" (arr (to_items entity_to_dict o.visible_entities)) (
                  field "nearby_resources" (arr (to_items resource_to_dict o.nearby_resources)) (
                    field "nearby_hazards" (arr (to_items hazard_to_dict o.nearby_hazards)) (
                      field "nearby_stations" (arr (to_items station_to_dict o.nearby_stations)) (
                        field "inventory" (arr (to_items item_to_dict o.inventory)) (
                          field "health" (float o.health) (
                            field "energy" (float o.energy) (
                              field "perception_radius" (float o.perception_radius) (
                                field "exploration" (null_or exploration_to_dict o.exploration) (
                                  field "scenario_name" (str o.scenario_name) (
                                    field "objective" (null_or objective_to_dict o.objective) (
                                      field "current_progress"
                                        (obj (floats_to_fields o.current_progress))
                                        (field "custom" (obj o.custom) (
                                          field "tool_result"
                                            (null_or tool_result_to_dict o.last_tool_result)
                                            done)))))))))))))))))))

  abbrev item_from_fields : Fields F → Result ItemInfo
  item_from_fields d = do
    id ← at_field d "id" >>= as_str
    name ← at_field d "name" >>= as_str
    quantity ← or_default as_int (pos 1) (get_field d "quantity")
    ok (record { id = id; name = name; quantity = quantity })

  -- Is it a dictionary with an "id"?
  abbrev item_fields : Json F → Option (Fields F)
  item_fields (obj d) = if is_some (get_field d "id") then some d else none
  item_fields _ = none

  abbrev with_item : Option (Fields F) → Result (List ItemInfo) → Result (List ItemInfo)
  with_item none rest = rest
  with_item (some d) rest = do i ← item_from_fields d; is ← rest; ok (i ∷ is)

  -- the loop over the raw inventory: what is no dictionary with an "id" is passed over
  unfoldable pub read_inventory : Items F → Result (List ItemInfo)
  read_inventory end = ok []
  read_inventory (item j js) = with_item (item_fields j) (read_inventory js)

  -- An inventory that is no list is passed over.
  abbrev inventory_of : Option (Json F) → Result (List ItemInfo)
  inventory_of (some (arr js)) = read_inventory js
  inventory_of _ = ok []

  -- An objective's metrics have distinct names.
  abbrev pub HasDict : Option (Objective F) → Type 0
  HasDict none = Unit
  HasDict (some o) = IsDict o.success_metrics

inventory-roundtrip :
    (F : Type 0) (is : List ItemInfo) → read_inventory {F = F} (to_items item_to_dict is) ≡ ok is
unfolding read_inventory item_to_dict at_field get_field
inventory-roundtrip F [] = refl
inventory-roundtrip F (i ∷ is) = rw (inventory-roundtrip F is) refl

module _ {F : Type 0} ⦃fl : Floats F⦄ where
  unfoldable pub read_floats : Fields F → Result (Dict String F)
  read_floats done = ok []
  read_floats (field k j d) = do x ← as_number j; rest ← read_floats d; ok ((k, x) ∷ rest)

  -- `Observation.from_dict`
  unfoldable pub observation_from_dict : Json F → Result (Observation F)
  unfolding entity_from_dict resource_from_dict hazard_from_dict station_from_dict
      tool_result_from_dict exploration_from_dict objective_from_dict read_inventory read_floats
  observation_from_dict j = do
    d ← as_obj j
    position ← at_field d "position" >>= as_position
    rotation ← or_none as_position (get_field d "rotation")
    velocity ← or_none as_position (get_field d "velocity")
    visible_entities ← items_of (get_field d "visible_entities") >>= read_all entity_from_dict
    nearby_resources ← items_of (get_field d "nearby_resources") >>= read_all resource_from_dict
    nearby_hazards ← items_of (get_field d "nearby_hazards") >>= read_all hazard_from_dict
    nearby_stations ← items_of (get_field d "nearby_stations") >>= read_all station_from_dict
    inventory ← inventory_of (get_field d "inventory")
    exploration ← or_empty exploration_from_dict (get_field d "exploration")
    objective ← or_empty objective_from_dict (get_field d "objective")
    last_tool_result ← or_empty tool_result_from_dict (get_field d "tool_result")
    agent_id ← at_field d "agent_id" >>= as_str
    tick ← at_field d "tick" >>= as_int >>= as_tick
    health ← or_default as_number (fl.of_int (pos 100)) (get_field d "health")
    energy ← or_default as_number (fl.of_int (pos 100)) (get_field d "energy")
    perception_radius ← or_default as_number (fl.of_int (pos 50)) (get_field d "perception_radius")
    scenario_name ← or_default as_str "" (get_field d "scenario_name")
    progress ← or_default as_obj done (get_field d "current_progress")
    current_progress ← read_floats progress
    custom ← or_default as_obj done (get_field d "custom")
    ok (record {
      agent_id = agent_id;
      tick = tick;
      position = position;
      rotation = rotation;
      velocity = velocity;
      visible_entities = visible_entities;
      nearby_resources = nearby_resources;
      nearby_hazards = nearby_hazards;
      nearby_stations = nearby_stations;
      inventory = inventory;
      health = health;
      energy = energy;
      perception_radius = perception_radius;
      exploration = exploration;
      scenario_name = scenario_name;
      objective = objective;
      current_progress = current_progress;
      custom = custom;
      last_tool_result = last_tool_result;
    })

  floats-roundtrip : (d : Dict String F) → read_floats (floats_to_fields d) ≡ ok d
  unfolding read_floats floats_to_fields
  floats-roundtrip [] = refl
  floats-roundtrip ((k, x) ∷ d) = rw (floats-roundtrip d) refl

  position-roundtrip :
      (p : Option (Position F)) → or_none as_position (some (null_or position_to_list p)) ≡ ok p
  position-roundtrip none = refl
  position-roundtrip (some p) = refl

  exploration_or_none :
      (e : Option (ExplorationInfo F))
      → or_empty exploration_from_dict (some (null_or exploration_to_dict e)) ≡ ok e
  unfolding exploration_to_dict
  exploration_or_none none = refl
  exploration_or_none (some e) =
      ap (λ (r : Result (ExplorationInfo F)). r >>= λ a. ok (some a)) (exploration-roundtrip e)

  tool_result_or_none :
      (r : Option (ToolResult F))
      → or_empty tool_result_from_dict (some (null_or tool_result_to_dict r)) ≡ ok r
  unfolding tool_result_to_dict
  tool_result_or_none none = refl
  tool_result_or_none (some r) =
      ap (λ (s : Result (ToolResult F)). s >>= λ a. ok (some a)) (tool_result-roundtrip r)

  objective_or_none :
      (o : Option (Objective F))
      → HasDict o
      → or_empty objective_from_dict (some (null_or objective_to_dict o)) ≡ ok o
  unfolding objective_to_dict
  objective_or_none none h = refl
  objective_or_none (some o) h =
      ap (λ (r : Result (Objective F)). r >>= λ a. ok (some a))
        (objective_from_dict-objective_to_dict o h)

  -- An observation, whose objective if any has metrics of distinct names, is unchanged in every
  -- part when it is written and read back, whichever of its optional parts are there.
  pub observation_from_dict-observation_to_dict :
      (o : Observation F)
      → HasDict o.objective
      → observation_from_dict (observation_to_dict o) ≡ ok o
  unfolding observation_from_dict observation_to_dict at_field get_field
  observation_from_dict-observation_to_dict o h =
      rw
        (
          position-roundtrip o.rotation,
          position-roundtrip o.velocity,
          read_all-to_items entity_from_dict entity_to_dict entity-roundtrip o.visible_entities,
          read_all-to_items resource_from_dict resource_to_dict resource-roundtrip
              o.nearby_resources,
          read_all-to_items hazard_from_dict hazard_to_dict hazard-roundtrip o.nearby_hazards,
          read_all-to_items station_from_dict station_to_dict station-roundtrip o.nearby_stations,
          inventory-roundtrip F o.inventory,
          exploration_or_none o.exploration,
          objective_or_none o.objective h,
          tool_result_or_none o.last_tool_result,
          floats-roundtrip o.current_progress,
        )
        refl
