-- ===== src/Starter/Planned.antt =====
-- A plan that is carried out.
use agent_arena.Prelude.{
  ℕ, zero, suc, ◌+◌, ◌≡◌, ◌<◌, refl, sym, ap, ◌∙◌, String, true, List, [], ◌∷◌, map, none, some,
  length, get_elem?, take, drop, arith,
}
use agent_arena.Prelude.Floats.{Floats}
use agent_arena.Prelude.Json.{Fields}
use agent_arena.Prelude.Result.{Result, ok, ◌>>=◌}
use agent_arena.Planner.{ActionStep, advance, current_step, has_active_plan}
use agent_arena.Schemas.Decision.{Decision}
use agent_arena.Schemas.Observation.{Observation}
use agent_arena.Schemas.Percepts.{ToolResult}
use agent_arena.Starter.{Starter, Toolkit, check_danger}
use agent_arena.Starter.Deciding.{continue_plan, decide, notice}
use agent_arena.Starter.Named.{IsNamed, notice-named}
use agent_arena.Starter.Total.{get_elem?_below}

module _ {F : Type 0} where
  -- the last tool succeeded
  abbrev pub Succeeded : Observation F → Type 0
  Succeeded o = (r : ToolResult F) × (o.last_tool_result ≡ some r) × (r.success ≡ true)

  -- what a decision, and a step, have the game do
  abbrev pub order_of : Decision F → String × Fields F
  order_of d = (d.tool, d.params)

  abbrev pub order_in : ActionStep F → String × Fields F
  order_in s = (s.tool, s.params)

  -- the plan after a success
  notice-planner :
      (o : Observation F) (a : Starter F)
      → Succeeded o
      → IsNamed o
      → has_active_plan a.planner ≡ true
      → (b : Starter F) × (notice o a ≡ ok b) × (b.planner ≡ advance a.planner)
  notice-planner o a (r, p, s) named h =
      let (b, q, e) = notice-named o a named in (b, q, e ∙ rw (p, s, h) refl)

module _ {F : Type 0} (k : Toolkit F) ⦃fl : Floats F⦄ where
  -- the decisions on a run of observations
  unfoldable pub decide_all :
      List (Observation F) → Starter F → Result (List (Decision F) × Starter F)
  decide_all [] a = ok ([], a)
  decide_all (o ∷ os) a = do r ← decide k o a; rest ← decide_all os r.1; ok (r.0 ∷ rest.0, rest.1)

  -- Every tool succeeds, one that collects tells its target by a name, and no hazard is near.
  abbrev pub Undisturbed : List (Observation F) → Starter F → Type 0
  Undisturbed [] a = Unit
  Undisturbed (o ∷ os) a =
      Succeeded o
      × IsNamed o
      × ((b : Starter F) → notice o a ≡ ok b → (check_danger k o b ≡ none) × Undisturbed os b)

  decide-step :
      (o : Observation F) (a b : Starter F) (s : ActionStep F)
      → notice o a ≡ ok b
      → check_danger k o b ≡ none
      → has_active_plan b.planner ≡ true
      → get_elem? b.planner.steps b.planner.step_index ≡ some s
      → (d : Decision F) × (decide k o a ≡ ok (d, b)) × (order_of d ≡ order_in s)
  unfolding decide continue_plan current_step
  decide-step o a b s noted safe active at = rw (noted, safe, active, at) (_, refl, refl)

  -- The plan is at its step `i`.
  abbrev At : List (ActionStep F) → ℕ → Starter F → Type 0
  At steps i a = (a.planner.steps ≡ steps) × (a.planner.step_index ≡ i)

  At-active :
      (steps : List (ActionStep F)) (i : ℕ) (a : Starter F)
      → At steps i a
      → i < length steps
      → has_active_plan a.planner ≡ true
  unfolding has_active_plan
  At-active steps i a (s, j) h = rw (s, j) (ground arith)

  next-At :
      (steps : List (ActionStep F)) (i : ℕ) (o : Observation F) (a : Starter F)
      → Succeeded o
      → IsNamed o
      → At steps i a
      → i < length steps
      → (b : Starter F) × (notice o a ≡ ok b) × At steps (suc i) b
  unfolding advance
  next-At steps i o a ok_tool named (s, j) h =
      let (b, p, e) = notice-planner o a ok_tool named (At-active steps i a (s, j) h) in
      (b, p, rw e (s, ap (λ (n : ℕ). n + 1) j ∙ omega arith))

  take-drop :
      {A : Type 0} (xs : List A) (i n : ℕ) (x : A)
      → get_elem? xs i ≡ some x
      → take (suc n) (drop i xs) ≡ x ∷ take n (drop (suc i) xs)
  take-drop [] i n x h = absurd (cc h)
  take-drop (y ∷ xs) zero n x h = cc h
  take-drop (y ∷ xs) (suc i) n x h = take-drop xs i n x h

  -- While every tool succeeds, the "target_name" that a "collect" tells, if any, is a text or null,
  -- and no hazard is near, a plan that is at one of its steps is carried out: `decide` raises
  -- nothing, on each observation it decides on the next step's tool and parameters, in the order of
  -- the plan, and the plan is then as many steps further. This holds for as many observations as
  -- there are steps left.
  pub decide_all-steps :
      (os : List (Observation F)) (a : Starter F)
      → a.planner.step_index + length os < length a.planner.steps
      → Undisturbed os a
      → (r : List (Decision F) × Starter F) × (decide_all os a ≡ ok r)
        × (map order_of r.0
            ≡ map order_in (take (length os) (drop (suc a.planner.step_index) a.planner.steps)))
        × (r.1.planner.steps ≡ a.planner.steps)
        × (r.1.planner.step_index ≡ a.planner.step_index + length os)
  unfolding decide_all
  decide_all-steps [] a h u = (([], a), refl, refl, refl, omega arith)
  decide_all-steps (o ∷ os) a h u =
      let steps = a.planner.steps in
      let i = a.planner.step_index in
      let (s, at) = get_elem?_below steps (suc i) (omega arith) in
      let (b, noted, at_next) = next-At steps i o a u.0 u.1 (refl, refl) (omega arith) in
      let (same, next) = at_next in
      let (safe, later) = u.2 b noted in
      let active = At-active steps (suc i) b (same, next) (omega arith) in
      let (d, p, e) = decide-step o a b s noted safe active (rw (same, next) at) in
      let (r, q, w, x, y) = decide_all-steps os b (rw (same, next) (omega arith)) later in
      (
        (d ∷ r.0, r.1),
        rw (p, q) refl,
        rw e (
            ap (◌∷◌ (order_in s)) (w ∙ rw (same, next) refl)
            ∙ ap (map order_in) (sym (take-drop steps (suc i) (length os) s at))),
        x ∙ same,
        y ∙ rw next (omega arith),
      )
