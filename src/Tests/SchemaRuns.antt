-- ===== src/Tests/SchemaRuns.antt =====
-- Messages written and read back, with integers for floats.
use agent_arena.Prelude.{true, false, ◌≡◌, refl, [], ◌∷◌, none, some, string_key}
use agent_arena.Prelude.Dict.{get}
use agent_arena.Prelude.Int.{ℤ, pos, negsuc}
use agent_arena.Prelude.Json.{done, str, field, obj, get_field, at_field}
use agent_arena.Prelude.Result.{ok, raise, Exn}
use agent_arena.Schemas.Decision.{decision_from_dict}
use agent_arena.Schemas.Objective.{Objective}
use agent_arena.Schemas.Observation.{
  Observation, observation_to_dict, observation_from_dict,
  observation_from_dict-observation_to_dict,
}
use agent_arena.Schemas.World.{WorldObject, ExperienceEvent}
use agent_arena.Tests.Ints.{int_floats}

abbrev pub collect_berries : Objective ℤ
collect_berries = record {
  description = "Collect";
  success_metrics =
      (
        "berries",
        record { target = pos 10; weight = pos 1; lower_is_better = false; required = true },
      )
      ∷ (
        "time",
        record { target = pos 600; weight = pos 1; lower_is_better = true; required = false },
      )
      ∷ [];
  time_limit = pos 600;
}

abbrev pub seeing : Observation ℤ
seeing = record {
  agent_id = "a";
  tick = 7;
  position = (pos 0, pos 0, negsuc 4);
  rotation = none;
  velocity = some (pos 1, pos 0, pos 0);
  visible_entities = [];
  nearby_resources =
      record {
        name = "berry_1";
        kind = "berry";
        position = (pos 3, pos 0, negsuc 0);
        distance = pos 5;
      }
      ∷ [];
  nearby_hazards =
      record {
        name = "fire_1";
        kind = "fire";
        position = (pos 40, pos 0, pos 0);
        distance = pos 40;
        damage = pos 9;
      }
      ∷ [];
  nearby_stations = [];
  inventory = record { id = "i1"; name = "wood"; quantity = pos 2 } ∷ [];
  health = pos 80;
  energy = pos 100;
  perception_radius = pos 50;
  exploration = none;
  scenario_name = "foraging";
  objective = some collect_berries;
  current_progress = ("berries", pos 3) ∷ [];
  custom = done;
  last_tool_result = some (record {
    tool = "collect";
    success = true;
    result = done;
    error = "";
    duration_ticks = pos 2;
  });
}

observation_from_dict-observation_to_dict_example :
    observation_from_dict (observation_to_dict seeing) ≡ ok seeing
unfolding get
observation_from_dict-observation_to_dict_example =
    observation_from_dict-observation_to_dict seeing (refl, (refl, tt))

no_tool :
    decision_from_dict {F = ℤ} (obj (field "reasoning" (str "?") done))
    ≡ raise (Exn.key_error "tool")
unfolding decision_from_dict at_field get_field
no_tool = refl

abbrev tree : WorldObject ℤ
tree = record {
  name = "tree";
  object_type = "obstacle";
  subtype = "collision";
  position = (pos 1, pos 2, pos 3);
  last_seen_tick = 4;
  status = "active";
  damage = pos 0;
  metadata = done;
}

abbrev pub bump : ExperienceEvent ℤ
bump = record {
  tick = 4;
  event_type = "collision";
  description = "hit a tree";
  position = (pos 1, pos 2, pos 3);
  object_name = some "tree";
  damage_taken = pos 1;
  metadata = done;
}
