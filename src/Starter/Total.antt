-- ===== src/Starter/Total.antt =====
-- Whether the parts of `decide` return a value or raise.
use agent_arena.Prelude.{
  ℕ, zero, suc, ◌<◌, ◌≡◌, refl, String, Bool, true, false, ◌||◌, List, [], ◌∷◌, Option, none, some,
  inl, inr, Bool-cases, Option-cases, length, arith, get_elem?, if◌then◌else◌,
}
use agent_arena.Prelude.Dict.{Dict}
use agent_arena.Prelude.Floats.{Floats}
use agent_arena.Prelude.Int.{ℤ, pos}
use agent_arena.Prelude.Result.{Result, ok, ◌>>=◌}
use agent_arena.Planner.{
  ActionStep, Planner, SubGoal, ground_distance, plan_collect, plan_craft, set_plan, current_step,
  has_active_plan, select_goal, decompose,
}
use agent_arena.Schemas.{Position}
use agent_arena.Schemas.Decision.{Decision}
use agent_arena.Schemas.Observation.{Observation}
use agent_arena.Schemas.Percepts.{ResourceInfo}
use agent_arena.Sightings.{Sighting}
use agent_arena.Starter.{Starter, Toolkit, begin_plan, is_in}
use agent_arena.Starter.Collecting.{
  collect_from, collect_remembered, collect_steps, plan_resource_collection,
}
use agent_arena.Starter.Crafting.{
  Recipe, recipes, craft_with, craft_first, plan_crafting, get_inventory_counts,
  try_opportunistic_craft, find_station, locate, missing,
}
use agent_arena.Starter.Exploring.{explore, seek_safety}
use agent_arena.Starter.Deciding.{
  continue_plan, craft_or_explore, otherwise, decide_anew, decide_safely, execute_sub_goal,
  pursue_objective,
}

-- The result is a value.
abbrev pub Returns {ℓ} : {A : Type ℓ} → Result A → Type ℓ
Returns {A = A} r = (a : A) × (r ≡ ok a)

pub get_elem?_below {ℓ} :
    {A : Type ℓ} (xs : List A) (i : ℕ) → i < length xs → (x : A) × (get_elem? xs i ≡ some x)
get_elem?_below [] i h = absurd (omega arith)
get_elem?_below (x ∷ xs) zero h = (x, refl)
get_elem?_below (x ∷ xs) (suc i) h = get_elem?_below xs i (omega arith)

if-Returns {ℓ} :
    {A : Type ℓ} (b : Bool) (r s : Result A) → Returns r → Returns s → Returns (if b then r else s)
if-Returns true r s h k = h
if-Returns false r s h k = k

module _ {F : Type 0} where
  otherwise-Returns :
      (next : Starter F → Result (Decision F × Starter F))
      (r : Result (Option (Decision F) × Starter F))
      → Returns r
      → ((a : Starter F) → Returns (next a))
      → Returns (r >>= otherwise next)
  otherwise-Returns next r ((none, a), p) h = rw p (h a)
  otherwise-Returns next r ((some d, a), p) h = rw p (_, refl)

  first_step :
      (s : ActionStep F) (ss : List (ActionStep F)) (p : Planner F)
      → current_step (set_plan (s ∷ ss) p) ≡ some s
  unfolding set_plan current_step has_active_plan
  first_step s ss p = ground arith

  begin_plan-Returns :
      (s : ActionStep F) (ss : List (ActionStep F)) (reasoning : String) (a : Starter F)
      → Returns (begin_plan (s ∷ ss) reasoning a)
  unfolding begin_plan
  begin_plan-Returns s ss reasoning a = rw (first_step s ss a.planner) (_, refl)

  plan_craft-Returns :
      (recipe station : String) (p : Position F) (ms : Option (List (String × Position F)))
      (reasoning : String) (a : Starter F)
      → Returns (begin_plan (plan_craft recipe station p ms) reasoning a)
  unfolding plan_craft
  plan_craft-Returns recipe station p none reasoning a = begin_plan-Returns _ _ reasoning a
  plan_craft-Returns recipe station p (some []) reasoning a = begin_plan-Returns _ _ reasoning a
  plan_craft-Returns recipe station p (some ((name, q) ∷ ms)) reasoning a =
      begin_plan-Returns _ _ reasoning a

module _ {F : Type 0} ⦃fl : Floats F⦄ where
  plan_collect-Returns :
      (name : String) (p at : Position F) (reasoning : String) (a : Starter F)
      → Returns (begin_plan (collect_steps name p at) reasoning a)
  unfolding plan_collect
  plan_collect-Returns name p at reasoning a =
      elim (Bool-cases (fl.lt (fl.of_int (pos 2)) (ground_distance p at))) [
        | inl q ↦ rw q (begin_plan-Returns _ _ reasoning a)
        | inr q ↦ rw q (begin_plan-Returns _ _ reasoning a)
      ]

module _ {F : Type 0} (k : Toolkit F) ⦃fl : Floats F⦄ where
  collect_remembered-Returns :
      (o : Observation F) (ss : List (Sighting F)) (a : Starter F)
      → Returns (collect_remembered k o ss a)
  collect_remembered-Returns o [] a = (_, refl)
  collect_remembered-Returns o (s ∷ ss) a = plan_collect-Returns s.name s.position o.position _ a

  collect_from-Returns :
      (o : Observation F) (rs : List (ResourceInfo F)) (a : Starter F)
      → Returns (collect_from k o rs a)
  collect_from-Returns o [] a = collect_remembered-Returns o _ a
  collect_from-Returns o (r ∷ rs) a = plan_collect-Returns _ _ o.position _ a

  plan_resource_collection-Returns :
      (o : Observation F) (a : Starter F) → Returns (plan_resource_collection k o a)
  unfolding plan_resource_collection
  plan_resource_collection-Returns o a = collect_from-Returns o o.nearby_resources a

  craft_with-Returns :
      (r : Recipe) (station : Option (String × Position F)) (names : List String)
      (located : Option (List (String × Position F))) (a : Starter F)
      (rest : Result (Option (Decision F) × Starter F))
      → Returns rest
      → Returns (craft_with k r station names located a rest)
  craft_with-Returns r none names located a rest h = h
  craft_with-Returns r (some s) names none a rest h = h
  craft_with-Returns r (some (s, p)) [] (some l) a rest h = plan_craft-Returns r.name s p none _ a
  craft_with-Returns r (some (s, p)) (m ∷ ms) (some l) a rest h =
      plan_craft-Returns r.name s p (some l) _ a

  craft_first-Returns :
      (o : Observation F) (counts : Dict String ℤ) (a : Starter F) (rs : List Recipe)
      → Returns (craft_first k o counts a rs)
  unfolding craft_first
  craft_first-Returns o counts a [] = (_, refl)
  craft_first-Returns o counts a (r ∷ rs) =
      craft_with-Returns r (find_station o r.station a) (missing counts r.materials)
        (locate o a (missing counts r.materials)) a _ (craft_first-Returns o counts a rs)

  module _ (o : Observation F) (counted : Returns (get_inventory_counts o)) where
    plan_crafting-Returns : (a : Starter F) → Returns (plan_crafting k o a)
    unfolding plan_crafting
    plan_crafting-Returns a = rw counted.1 (craft_first-Returns o counted.0 a recipes)

    execute-Returns : (g : SubGoal F) (a : Starter F) → Returns (execute_sub_goal k g o a)
    unfolding execute_sub_goal
    execute-Returns g a =
        let collects = plan_resource_collection-Returns o a in
        let m = k.lower g.metric_name in
        if-Returns (is_in "resources" m || is_in "collected" m) _ _ collects (
          if-Returns (is_in "health" m) _ _
            (if-Returns (fl.lt o.health g.target) (ok (some (seek_safety k o a), a)) (ok (none, a))
              (_, refl) (_, refl))
            (if-Returns (is_in "craft" m || is_in "items" m) _ _ (plan_crafting-Returns a) (
              if-Returns (is_in "time" m) _ _ collects (
                if-Returns (is_in "exploration" m || is_in "explore" m)
                  (ok (some (explore k o a).0, (explore k o a).1)) _ (_, refl) collects))))

    pursue-Returns : (a : Starter F) → Returns (pursue_objective k o a)
    unfolding pursue_objective
    pursue-Returns a =
        elim (Option-cases (select_goal (decompose k.describe o.objective o.current_progress))) [
          | inl p ↦ rw p (_, refl)
          | inr (g, p) ↦ rw p (execute-Returns g a)
        ]

    craft-Returns : (a : Starter F) → Returns (try_opportunistic_craft o)
    unfolding try_opportunistic_craft
    craft-Returns a = rw counted.1 (_, refl)

    anew-Returns : (a : Starter F) → Returns (decide_anew k o a)
    unfolding decide_anew
    anew-Returns a = otherwise-Returns _ (pursue_objective k o a) (pursue-Returns a) (λ b.
        otherwise-Returns _ (plan_resource_collection k o b) (plan_resource_collection-Returns o b)
          (λ c. crafted c))
      where
        crafted : (c : Starter F) → Returns (try_opportunistic_craft o >>= craft_or_explore k o c)
        crafted c =
            let (d, p) = craft-Returns c in
            rw p (elim (Option-cases d) [ inl q ↦ rw q (_, refl) | inr (x, q) ↦ rw q (_, refl) ])

    active-Returns :
        (a : Starter F) → has_active_plan a.planner ≡ true → Returns (continue_plan k a)
    unfolding continue_plan current_step has_active_plan
    active-Returns a p =
        let (s, q) = get_elem?_below a.planner.steps a.planner.step_index (ground arith) in
        rw (p, q) (_, refl)

    pub safely-Returns : (a : Starter F) (d : Option (Decision F)) → Returns (decide_safely k o a d)
    safely-Returns a (some d) = (_, refl)
    safely-Returns a none = elim (Bool-cases (has_active_plan a.planner)) [
      | inl p ↦ rw p (active-Returns a p)
      | inr p ↦ rw p (anew-Returns a)
    ]
