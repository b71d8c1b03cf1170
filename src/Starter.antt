-- ===== src/Starter.antt =====
-- starters/intermediate/agent.py: the `Agent` of the intermediate starter, over its memory and its
-- planner. The formatting of numbers, `str.lower`, and the cosine and sine of the angle that `_explore`
-- turns to are arguments. An inventory counts in integers.
pub mod Collecting
pub mod Crafting
pub mod Exploring
pub mod Named
pub mod Deciding
pub mod Planned
pub mod Total
pub mod Turns
use agent_arena.Prelude.{
  ℕ, String, Bool, true, false, ◌||◌, List, [], ◌∷◌, ◌++◌, ◌++ₛ◌, Option, none, some, length,
  nat_beq, ltb, ◌==◌, string_key, if◌then◌else◌,
}
use agent_arena.Prelude.Floats.{Floats}
use agent_arena.Prelude.Int.{ℤ, pos}
use agent_arena.Prelude.Json.{
  Json, Fields, null, int, float, str, arr, obj, end, item, done, field, get_field,
}
use agent_arena.Prelude.Result.{Result, ok, raise, Exn, ◌>>=◌}
use agent_arena.Prelude.Text.{codes}
use agent_arena.Episodes.Texts.{Format}
use agent_arena.Planner as Planner
use agent_arena.Planner.{
  Planner, ActionStep, SubGoal, has_active_plan, current_step, advance, cancel, set_plan,
}
use agent_arena.Schemas.{Position, position_to_list}
use agent_arena.Schemas.Decision.{Decision}
use agent_arena.Schemas.Observation.{Observation}
use agent_arena.Schemas.Percepts.{ToolResult, HazardInfo}
use agent_arena.Sightings as Sightings
use agent_arena.Sightings.{Memory, mark_collected, find_hazard_zones}
use agent_arena.Sightings.Productive.{distance}

pub record Starter (F : Type 0) : Type 0 where
  pub memory : Memory F
  pub planner : Planner F
  pub visited_positions : List (Position F)

-- What the agent uses besides its state: `heading n` is the cosine and the sine of the angle
-- `(n * 1.2) % (2 * math.pi)`, and `describe` the planner's description of a sub-goal.
pub record Toolkit (F : Type 0) : Type 0 where
  pub format : Format F
  pub lower : String → String
  pub heading : ℕ → F × F
  pub describe : String → F → F → String

-- `part in text`
unfoldable pub starts_with : List ℕ → List ℕ → Bool
starts_with [] ys = true
starts_with (x ∷ xs) [] = false
starts_with (x ∷ xs) (y ∷ ys) = let rest = starts_with xs ys in if nat_beq x y then rest else false

unfoldable pub occurs : List ℕ → List ℕ → Bool
unfolding starts_with
occurs xs [] = starts_with xs []
occurs xs (y ∷ ys) = starts_with xs (y ∷ ys) || occurs xs ys

abbrev pub is_in : String → String → Bool
unfolding occurs
is_in part text = occurs (codes part) (codes text)

module _ {F : Type 0} where
  -- `Agent()`
  unfoldable pub init : Result (Starter F)
  unfolding Sightings.init Planner.init
  init = Sightings.init 50 >>= λ m.
      ok (record { memory = m; planner = Planner.init; visited_positions = [] })

  -- `set.add` hashes what it adds, which a list and a dictionary do not allow, and an empty one is
  -- not added. A number or `True` is added in the source and left out here, where names are texts.
  abbrev pub marked : Option (Json F) → Memory F → Result (Memory F)
  marked (some (str name)) m = ok (if name == "" then m else mark_collected name m)
  marked (some (arr (item _ _))) m = raise (Exn.other_error "unhashable type: 'list'")
  marked (some (obj (field _ _ _))) m = raise (Exn.other_error "unhashable type: 'dict'")
  marked _ m = ok m

  -- the plan and the memory after a success
  abbrev pub succeeded : ToolResult F → Starter F → Result (Starter F)
  succeeded r a = do
    memory ←
        if r.tool == "collect"
        then marked (get_field r.result "target_name") a.memory
        else ok a.memory
    ok (record a {
      memory = memory;
      planner = if has_active_plan a.planner then advance a.planner else a.planner;
    })

  abbrev pub handle_result : Option (ToolResult F) → Starter F → Result (Starter F)
  handle_result none a = ok a
  handle_result (some r) a =
      if r.success then succeeded r a else ok (record a { planner = cancel a.planner })

  unfoldable pub handle_tool_result : Observation F → Starter F → Result (Starter F)
  handle_tool_result o a = handle_result o.last_tool_result a

  -- a decision that carries out a step; `None` has no `tool`
  abbrev pub step_decision : String → Option (ActionStep F) → Result (Decision F)
  step_decision reasoning none = raise (Exn.other_error "'NoneType' object has no attribute 'tool'")
  step_decision reasoning (some s) =
      ok (record { tool = s.tool; params = s.params; reasoning = some reasoning })

  -- `set_plan`, and the decision for the current step
  unfoldable pub begin_plan :
      List (ActionStep F) → String → Starter F → Result (Option (Decision F) × Starter F)
  unfolding set_plan current_step
  begin_plan steps reasoning a =
      let p = set_plan steps a.planner in
      step_decision reasoning (current_step p) >>= λ d. ok (some d, record a { planner = p })

  abbrev pub go_to : Position F → String → Decision F
  go_to p reasoning = record {
    tool = "move_to";
    params = field "target_position" (position_to_list p) done;
    reasoning = some reasoning;
  }

module _ {F : Type 0} ⦃fl : Floats F⦄ where
  -- `_escape_position`
  unfoldable pub escape_position : Position F → Position F → F → Position F
  escape_position agent danger away =
      let dx = fl.sub agent.0 danger.0 in
      let dz = fl.sub agent.2 danger.2 in
      let far = fl.sqrt (fl.add (fl.mul dx dx) (fl.mul dz dz)) in
      if fl.lt (fl.of_int (pos 0)) far
      then (
        fl.add danger.0 (fl.mul (fl.div dx far) away),
        agent.1,
        fl.add danger.2 (fl.mul (fl.div dz far) away),
      )
      else (fl.add danger.0 away, agent.1, fl.add danger.2 (fl.of_int (pos 0)))

  abbrev pub danger_radius : F
  danger_radius = fl.of_int (pos 3)

  abbrev pub avoid_radius : F
  avoid_radius = fl.of_int (pos 4)

module _ {F : Type 0} (k : Toolkit F) ⦃fl : Floats F⦄ where
  -- the loop over the visible hazards
  unfoldable pub escape_visible : Position F → List (HazardInfo F) → Option (Decision F)
  unfolding escape_position
  escape_visible at [] = none
  escape_visible at (h ∷ hs) =
      let rest = escape_visible at hs in
      if fl.lt h.distance danger_radius
      then some (
          go_to (escape_position at h.position (fl.of_int (pos 6)))
            ("Escaping " ++ₛ h.kind ++ₛ " at distance " ++ₛ k.format.fixed 1 h.distance))
      else rest

  -- the loop over the remembered ones
  unfoldable pub avoid_remembered : Position F → List (String × Position F) → Option (Decision F)
  unfolding escape_position distance
  avoid_remembered at [] = none
  avoid_remembered at ((name, p) ∷ zs) =
      let rest = avoid_remembered at zs in
      if fl.lt (distance at p) avoid_radius
      then some (
          go_to (escape_position at p (fl.of_int (pos 6))) (
            "Avoiding remembered hazard "
            ++ₛ name
            ++ₛ " at distance "
            ++ₛ k.format.fixed 1 (distance at p)))
      else rest

  abbrev pub or_else : Option (Decision F) → Option (Decision F) → Option (Decision F)
  or_else none d = d
  or_else (some d) d' = some d

  -- `_check_danger`
  unfoldable pub check_danger : Observation F → Starter F → Option (Decision F)
  unfolding escape_visible avoid_remembered find_hazard_zones
  check_danger o a =
      or_else (escape_visible o.position o.nearby_hazards)
        (avoid_remembered o.position (find_hazard_zones a.memory o.tick (pos 20)))
