-- ===== src/Starter/Deciding.antt =====
-- `decide`, and how it pursues an objective.
use agent_arena.Prelude.{
  ◌+◌, String, ◌||◌, [], ◌∷◌, ◌++◌, ◌++ₛ◌, Option, none, some, length, if◌then◌else◌,
}
use agent_arena.Prelude.Floats.{Floats}
use agent_arena.Prelude.Int.{pos}
use agent_arena.Prelude.Result.{Result, ok, ◌>>=◌}
use agent_arena.Planner.{
  ActionStep, SubGoal, cancel, current_step, decompose, has_active_plan, select_goal,
}
use agent_arena.Schemas.Decision.{Decision}
use agent_arena.Schemas.Observation.{Observation}
use agent_arena.Sightings.{store}
use agent_arena.Starter.{Starter, Toolkit, check_danger, handle_tool_result, is_in, step_decision}
use agent_arena.Starter.Collecting.{plan_resource_collection}
use agent_arena.Starter.Crafting.{plan_crafting, try_opportunistic_craft}
use agent_arena.Starter.Exploring.{explore, seek_safety}

module _ {F : Type 0} where
  -- the first of two attempts that decides, the second one in the state that the first one leaves
  abbrev pub otherwise :
      (Starter F → Result (Decision F × Starter F))
      → Option (Decision F) × Starter F
      → Result (Decision F × Starter F)
  otherwise next (some d, a) = ok (d, a)
  otherwise next (none, a) = next a

  -- the observation noted, and the result of the last tool
  unfoldable pub notice : Observation F → Starter F → Result (Starter F)
  unfolding store handle_tool_result
  notice o a = handle_tool_result o (record a {
    memory = store a.memory o;
    visited_positions = a.visited_positions ++ o.position ∷ [];
  })

module _ {F : Type 0} (k : Toolkit F) ⦃fl : Floats F⦄ where
  abbrev explored : Decision F × Starter F → Result (Option (Decision F) × Starter F)
  explored (d, a) = ok (some d, a)

  -- `_execute_sub_goal`
  unfoldable pub execute_sub_goal :
      SubGoal F → Observation F → Starter F → Result (Option (Decision F) × Starter F)
  unfolding plan_resource_collection plan_crafting seek_safety explore
  execute_sub_goal g o a =
      let metric = k.lower g.metric_name in
      if is_in "resources" metric || is_in "collected" metric
      then plan_resource_collection k o a
      else if is_in "health" metric
      then (if fl.lt o.health g.target then ok (some (seek_safety k o a), a) else ok (none, a))
      else if is_in "craft" metric || is_in "items" metric
      then plan_crafting k o a
      else if is_in "time" metric
      then plan_resource_collection k o a
      else if is_in "exploration" metric || is_in "explore" metric
      then explored (explore k o a)
      else plan_resource_collection k o a

  abbrev pursue_goal :
      Observation F → Starter F → Option (SubGoal F) → Result (Option (Decision F) × Starter F)
  pursue_goal o a none = ok (none, a)
  pursue_goal o a (some g) = execute_sub_goal g o a

  -- `_pursue_objective`; without an objective there is no sub-goal
  unfoldable pub pursue_objective :
      Observation F → Starter F → Result (Option (Decision F) × Starter F)
  unfolding execute_sub_goal decompose select_goal
  pursue_objective o a =
      pursue_goal o a (select_goal (decompose k.describe o.objective o.current_progress))

  abbrev plan_text : Starter F → Option (ActionStep F) → String
  plan_text a none = ""
  plan_text a (some s) =
      "Plan step "
      ++ₛ k.format.of_int (pos (a.planner.step_index + 1))
      ++ₛ "/"
      ++ₛ k.format.of_int (pos (length a.planner.steps))
      ++ₛ ": "
      ++ₛ s.description

  -- priority 2: the current step of an active plan
  unfoldable pub continue_plan : Starter F → Result (Decision F × Starter F)
  unfolding current_step
  continue_plan a =
      step_decision (plan_text a (current_step a.planner)) (current_step a.planner) >>= λ d.
      ok (d, a)

  abbrev pub craft_or_explore :
      Observation F → Starter F → Option (Decision F) → Result (Decision F × Starter F)
  craft_or_explore o a (some d) = ok (d, a)
  craft_or_explore o a none = ok (explore k o a)

  -- priorities 3 to 6: the objective, resources, crafting, exploring
  unfoldable pub decide_anew : Observation F → Starter F → Result (Decision F × Starter F)
  unfolding pursue_objective plan_resource_collection try_opportunistic_craft explore
  decide_anew o a =
      pursue_objective o a
      >>= otherwise (λ b.
        plan_resource_collection k o b
        >>= otherwise (λ c. try_opportunistic_craft o >>= craft_or_explore o c))

  abbrev pub decide_safely :
      Observation F → Starter F → Option (Decision F) → Result (Decision F × Starter F)
  decide_safely o a (some d) = ok (d, record a { planner = cancel a.planner })
  decide_safely o a none = if has_active_plan a.planner then continue_plan a else decide_anew o a

  unfoldable pub decide : Observation F → Starter F → Result (Decision F × Starter F)
  unfolding notice check_danger continue_plan decide_anew cancel has_active_plan
  decide o a = notice o a >>= λ b. decide_safely o b (check_danger k o b)
