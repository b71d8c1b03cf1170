-- ===== src/Planner/Steps.antt =====
-- A plan is run step by step, and the plans that are made do what they say.
use agent_arena.Prelude.{
  ℕ, zero, suc, ◌+◌, ◌-◌, not, ◌≡◌, refl, ◌∙◌, List, [], ◌∷◌, none, length, get_elem?, ltb,
  string_key, if◌then◌else◌, arith,
}
use agent_arena.Planner.{
  Planner, ActionStep, has_active_plan, current_step, advance, set_plan, remaining_steps,
}

module _ {F : Type 0} where
  -- `advance` called a number of times
  unfoldable pub advances : ℕ → Planner F → Planner F
  unfolding advance
  advances zero p = p
  advances (suc n) p = advance (advances n p)

  advances-parts :
      (n : ℕ) (p : Planner F)
      → ((advances n p).steps ≡ p.steps) × ((advances n p).step_index ≡ p.step_index + n)
  unfolding advances
  advances-parts zero p = (refl, omega arith)
  advances-parts (suc n) p = let (a, b) = advances-parts n p in (a, omega (arith, b))

  guarded_get :
      (steps : List (ActionStep F)) (n : ℕ)
      → (if not (ltb n (length steps)) then none else get_elem? steps n) ≡ get_elem? steps n
  guarded_get [] n = ground arith
  guarded_get (s ∷ steps) zero = ground arith
  guarded_get (s ∷ steps) (suc n) = ground (arith, guarded_get steps n)

  -- After a plan is set and `advance` is called n times, the current step is the plan's n-th, counted from
  -- zero, or none past its end; the plan is active exactly before its end, and the steps that remain are
  -- the rest.
  pub run_plan :
      (steps : List (ActionStep F)) (n : ℕ) (p : Planner F)
      → (current_step (advances n (set_plan steps p)) ≡ get_elem? steps n)
        × (has_active_plan (advances n (set_plan steps p)) ≡ ltb n (length steps))
        × (remaining_steps (advances n (set_plan steps p)) ≡ length steps - n)
  unfolding current_step has_active_plan remaining_steps set_plan
  run_plan steps n p =
      let (a, b) = advances-parts n (set_plan steps p) in
      let at_n : (advances n (set_plan steps p)).step_index ≡ n = b ∙ omega arith in
      rw (a, at_n) (guarded_get steps n, refl, refl)
