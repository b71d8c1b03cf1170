-- ===== src/Tests/LoopRuns.antt =====
-- The starter's decisions, and the debug store.
use mathlib.Core.List.{foldl, Memᴰ}
use mathlib.Core.Option.{some-injective}
use mathlib.Core.Path.{subst}
use agent_arena.Prelude.{
  false, ℕ, ◌+◌, ◌≡◌, ◌≤◌, refl, true, List, [], ◌∷◌, map, none, some, length, take, drop, newest,
  keep, min, string_key, arith, ◌==◌, ap,
}
use agent_arena.Prelude.Dict.{get, put}
use agent_arena.Prelude.Int.{ℤ, pos, negsuc, ◌+ℤ◌}
use agent_arena.Prelude.Json.{str, done, field, get_field}
use agent_arena.Prelude.Result.{Result, ok, raise}
use agent_arena.Prelude.Sort.{sort_by, All}
use agent_arena.Beginner as Beginner
use agent_arena.Beginner.{toward}
use agent_arena.Beginner.Priorities.{IsNear, decide_priorities}
use agent_arena.Debug as Debug
use agent_arena.Debug.{
  DebugTrace, record_trace, get_recent_traces, debug_trace_to_dict, debug_by_tick, wanted,
}
use agent_arena.Debug.Recent.{get_recent_traces-newest}
use agent_arena.Planner.{ActionStep}
use agent_arena.Schemas.Decision.{Decision}
use agent_arena.Schemas.Observation.{Observation}
use agent_arena.Schemas.Percepts.{ResourceInfo, HazardInfo, ToolResult}
use agent_arena.Sightings as Sightings
use agent_arena.Sightings.{find_hazard_zones, find_hazards_seen, seen_in, note_all}
use agent_arena.Starter.{
  Starter, Toolkit, danger_radius, check_danger, escape_visible, avoid_remembered,
  handle_tool_result,
}
use agent_arena.Starter.Crafting.{get_inventory_counts, count_items}
use agent_arena.Starter.Deciding.{decide, notice}
use agent_arena.Starter.Planned.{decide_all, decide_all-steps, Undisturbed, order_of, order_in}
use agent_arena.Starter.Named.{IsNamed, is_named}
use agent_arena.Starter.Turns.{decide-ok}
use agent_arena.Tests.Ints.{int_floats, int_floats-IsFloats}
use agent_arena.Tests.MemoryRuns.{plain}
use agent_arena.Tests.SchemaRuns.{seeing}

abbrev toolkit : Toolkit ℤ
toolkit = record {
  format = plain;
  lower = λ s. s;
  heading = λ n. (pos 1, pos 0);
  describe = λ name current target. name;
}

abbrev fresh : Starter ℤ
fresh = record {
  memory = record { capacity = 50; observations = []; collected = [] };
  planner = record { steps = []; step_index = 0 };
  visited_positions = [];
}

abbrev burning : Observation ℤ
burning = record seeing {
  nearby_hazards =
      (record {
        name = "fire_1";
        kind = "fire";
        position = (pos 2, pos 0, negsuc 4);
        distance = pos 2;
        damage = pos 9;
      })
      ∷ [];
}

burning-IsNamed : IsNamed burning
unfolding get_field
burning-IsNamed r p collects =
    subst (λ (t : ToolResult ℤ). is_named (get_field t.result "target_name") ≡ true)
      (some-injective _ _ p) refl

decide-ok_example :
    (r : Decision ℤ × Starter ℤ) × (decide toolkit burning fresh ≡ ok r)
    × ((h : HazardInfo ℤ)
        → Memᴰ h burning.nearby_hazards
        → int_floats.lt h.distance danger_radius ≡ true
        → (r.0.tool ≡ "move_to") × (r.1.planner.steps ≡ []))
unfolding get_inventory_counts count_items get_field get put ◌+ℤ◌
decide-ok_example = decide-ok toolkit burning fresh (("wood", pos 2) ∷ []) refl burning-IsNamed

abbrev fetch : List (ActionStep ℤ)
fetch =
    (record { tool = "move_to"; params = done; description = "Move to berry_1" })
    ∷ (record {
      tool = "collect";
      params = field "target_name" (str "berry_1") done;
      description = "Collect berry_1";
    })
    ∷ []

abbrev fetching : Starter ℤ
fetching = record fresh { planner = record { steps = fetch; step_index = 0 } }

abbrev moved : Observation ℤ
moved = record seeing {
  nearby_hazards = [];
  last_tool_result = some (record {
    tool = "move_to";
    success = true;
    result = done;
    error = "";
    duration_ticks = pos 1;
  });
}

moved-IsNamed : IsNamed moved
moved-IsNamed r p collects =
    absurd (cc (collects, ap (λ (t : ToolResult ℤ). t.tool == "collect") (some-injective _ _ p)))

abbrev taken_in : Result (Starter ℤ) → Starter ℤ
taken_in (ok a) = a
taken_in (raise e) = fetching

no_danger :
    (b : Starter ℤ)
    → notice moved fetching ≡ ok b
    → (check_danger toolkit moved b ≡ none) × Undisturbed toolkit [] b
unfolding check_danger notice escape_visible avoid_remembered find_hazard_zones find_hazards_seen
    seen_in note_all Sightings.store handle_tool_result
no_danger b p =
    (subst (λ (c : Starter ℤ). check_danger toolkit moved c ≡ none) (ap taken_in p) refl, tt)

decide_all-steps_example :
    (r : List (Decision ℤ) × Starter ℤ) × (decide_all toolkit (moved ∷ []) fetching ≡ ok r)
    × (map order_of r.0 ≡ map order_in (take 1 (drop 1 fetch)))
    × (r.1.planner.steps ≡ fetch)
    × (r.1.planner.step_index ≡ 0 + 1)
decide_all-steps_example =
    decide_all-steps toolkit (moved ∷ []) fetching (omega arith)
      ((_, refl, refl), moved-IsNamed, no_danger)

abbrev trace_at : ℕ → DebugTrace ℤ
trace_at n = record {
  agent_id = "a";
  tick = n;
  episode_id = "";
  steps = [];
  trace_id = "t";
  start_time = str "12:00";
}

get_recent_traces-newest_example :
    (get_recent_traces
        (foldl record_trace (Debug.init 2) (trace_at 1 ∷ trace_at 3 ∷ trace_at 2 ∷ []))
        (pos 1)
        (some "a")
        none
        (some 2)
      ≡ map debug_trace_to_dict (
          newest 1 (
            sort_by debug_by_tick (
              keep
                (wanted (some "a") none (some 2))
                (newest 2 (trace_at 1 ∷ trace_at 3 ∷ trace_at 2 ∷ []))))))
    × (length (
          get_recent_traces
            (foldl record_trace (Debug.init 2) (trace_at 1 ∷ trace_at 3 ∷ trace_at 2 ∷ []))
            (pos 1)
            (some "a")
            none
            (some 2))
        ≤ min 1 2)
get_recent_traces-newest_example =
    get_recent_traces-newest 2 0 (trace_at 1 ∷ trace_at 3 ∷ trace_at 2 ∷ []) (some "a") none
      (some 2)

decide_priorities_example :
    ((h : HazardInfo ℤ)
      → Memᴰ h burning.nearby_hazards
      → IsNear plain h
      → (d : Decision ℤ) × (Beginner.decide plain burning ≡ ok d) × (d.tool ≡ "move_to"))
    × (All (λ h. int_floats.lt h.distance (pos 3) ≡ false) burning.nearby_hazards
        → (r : ResourceInfo ℤ) → Memᴰ r burning.nearby_resources
        → (c : ResourceInfo ℤ) × Memᴰ c burning.nearby_resources
          × All (λ s. int_floats.le c.distance s.distance ≡ true) burning.nearby_resources
          × (Beginner.decide plain burning ≡ ok (toward plain c)))
decide_priorities_example = decide_priorities plain burning int_floats-IsFloats
