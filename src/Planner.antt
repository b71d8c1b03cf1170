-- ===== src/Planner.antt =====
-- starters/intermediate/planner.py: the `Planner`. The text of a sub-goal, which
-- `_create_description` formats, is an argument; `math.sqrt` and the floats are those of `Floats`.
pub mod Steps
pub mod Goals
use mathlib.Core.List.{filter_map}
use agent_arena.Prelude.{
  ℕ, ◌+◌, ◌-◌, String, ◌++ₛ◌, Bool, true, false, not, List, [], ◌∷◌, ◌++◌, Option, none, some,
  length, get_elem?, ltb, ◌==◌, string_key, if◌then◌else◌,
}
use agent_arena.Prelude.Dict.{Dict, get}
use agent_arena.Prelude.Floats.{Floats}
use agent_arena.Prelude.Int.{pos}
use agent_arena.Prelude.Json.{Fields, str, done, field}
use agent_arena.Prelude.Sort.{sort_by}
use agent_arena.Schemas.{Position, position_to_list}
use agent_arena.Schemas.Objective.{Objective, MetricDefinition}

pub record SubGoal (F : Type 0) : Type 0 where
  pub metric_name : String
  pub description : String
  pub priority : F
  pub target : F
  pub current : F

pub record ActionStep (F : Type 0) : Type 0 where
  pub tool : String
  pub params : Fields F
  pub description : String

pub record Planner (F : Type 0) : Type 0 where
  pub steps : List (ActionStep F)
  pub step_index : ℕ

module _ {F : Type 0} where
  -- `Planner()`
  unfoldable pub init : Planner F
  init = record { steps = []; step_index = 0 }

  unfoldable pub has_active_plan : Planner F → Bool
  has_active_plan p = ltb p.step_index (length p.steps)

  unfoldable pub current_step : Planner F → Option (ActionStep F)
  unfolding has_active_plan
  current_step p = if not (has_active_plan p) then none else get_elem? p.steps p.step_index

  unfoldable pub advance : Planner F → Planner F
  advance p = record p { step_index = p.step_index + 1 }

  unfoldable pub cancel : Planner F → Planner F
  cancel p = record { steps = []; step_index = 0 }

  unfoldable pub set_plan : List (ActionStep F) → Planner F → Planner F
  set_plan steps p = record { steps = steps; step_index = 0 }

  -- `max(0, len(self._steps) - self._step_index)`
  unfoldable pub remaining_steps : Planner F → ℕ
  remaining_steps p = length p.steps - p.step_index

  abbrev pub move_to : String → Position F → ActionStep F
  move_to name position = record {
    tool = "move_to";
    params = field "target_position" (position_to_list position) done;
    description = "Move to " ++ₛ name;
  }

  abbrev pub collect : String → ActionStep F
  collect name = record {
    tool = "collect";
    params = field "target_name" (str name) done;
    description = "Collect " ++ₛ name;
  }

  abbrev pub craft : String → ActionStep F
  craft recipe = record {
    tool = "craft_item";
    params = field "recipe" (str recipe) done;
    description = "Craft " ++ₛ recipe;
  }

  -- the loop over `missing_materials`
  abbrev pub gather_all : List (String × Position F) → List (ActionStep F)
  gather_all [] = []
  gather_all ((name, position) ∷ ms) = move_to name position ∷ collect name ∷ gather_all ms

  -- `missing_materials` may be `None`, which adds no step, as an empty list
  unfoldable pub plan_craft :
      String → String → Position F → Option (List (String × Position F)) → List (ActionStep F)
  plan_craft recipe station position none = move_to station position ∷ craft recipe ∷ []
  plan_craft recipe station position (some ms) =
      gather_all ms ++ move_to station position ∷ craft recipe ∷ []

  unfoldable pub plan_explore : Position F → String → List (ActionStep F)
  plan_explore position direction =
      (record {
        tool = "move_to";
        params = field "target_position" (position_to_list position) done;
        description = if direction == "" then "Explore new area" else "Explore " ++ₛ direction;
      })
      ∷ []

  -- `select_goal`
  unfoldable pub select_goal : List (SubGoal F) → Option (SubGoal F)
  select_goal [] = none
  select_goal (g ∷ gs) = some g

module _ {F : Type 0} ⦃fl : Floats F⦄ where
  -- the distance on the ground that `plan_collect` looks at
  abbrev pub ground_distance : Position F → Position F → F
  ground_distance p q =
      let dx = fl.sub p.0 q.0 in
      let dz = fl.sub p.2 q.2 in fl.sqrt (fl.add (fl.mul dx dx) (fl.mul dz dz))

  unfoldable pub plan_collect : String → Position F → Position F → F → List (ActionStep F)
  plan_collect name position agent_position collect_radius =
      if fl.lt collect_radius (ground_distance position agent_position)
      then move_to name position ∷ collect name ∷ []
      else collect name ∷ []

  -- `SubGoal.progress_percent`, where `min(a, b)` is `b` if it is less than `a`
  unfoldable pub progress_percent : SubGoal F → F
  progress_percent g =
      let percent = fl.mul (fl.div g.current g.target) (fl.of_int (pos 100)) in
      if fl.is_zero g.target
      then fl.of_int (pos 100)
      else if fl.lt percent (fl.of_int (pos 100))
      then percent
      else fl.of_int (pos 100)

  -- `SubGoal.is_complete`
  unfoldable pub is_complete : SubGoal F → Bool
  is_complete g = fl.le g.target g.current

  abbrev or_zero : Option F → F
  or_zero none = fl.of_int (pos 0)
  or_zero (some x) = x

  abbrev progress_ratio : F → F → F
  progress_ratio current target =
      if fl.lt (fl.of_int (pos 0)) target then fl.div current target else fl.of_int (pos 0)

  abbrev pub priority_of : F → MetricDefinition F → F
  priority_of current metric =
      let urgency = fl.sub (fl.of_int (pos 1)) (progress_ratio current metric.target) in
      let weighted = fl.mul metric.weight urgency in
      if metric.required then fl.mul weighted (fl.of_int (pos 2)) else weighted

  abbrev pub current_of : Dict String F → String → F
  current_of progress name = or_zero (get progress name)

  abbrev pub goal_of :
      (String → F → F → String) → Dict String F → String → MetricDefinition F → SubGoal F
  goal_of describe progress name metric = record {
    metric_name = name;
    description = describe name (current_of progress name) metric.target;
    priority = priority_of (current_of progress name) metric;
    target = metric.target;
    current = current_of progress name;
  }

  -- the body of the loop over the metrics, which passes over a complete one
  abbrev pub open_goal :
      (String → F → F → String) → Dict String F → String × MetricDefinition F → Option (SubGoal F)
  open_goal describe progress (name, metric) =
      if fl.le metric.target (current_of progress name)
      then none
      else some (goal_of describe progress name metric)

  -- `key=lambda g: g.priority, reverse=True`
  abbrev pub by_priority : SubGoal F → SubGoal F → Bool
  by_priority g h = fl.le h.priority g.priority

  unfoldable pub decompose :
      (String → F → F → String) → Option (Objective F) → Dict String F → List (SubGoal F)
  decompose describe none progress = []
  decompose describe (some objective) progress =
      sort_by by_priority (filter_map (open_goal describe progress) objective.success_metrics)
