-- ===== src/Planner/Goals.antt =====
-- `decompose` and `select_goal`.
use mathlib.Core.List.{Memᴰ}
use mathlib.Core.Option.{some-injective}
use mathlib.Core.Path.{subst}
use agent_arena.Prelude.{
  String, Bool, true, false, ◌≡◌, ◌↔◌, sym, ap, ◌∙◌, List, [], ◌∷◌, none, some, string_key, inl,
  inr, Bool-cases, if◌then◌else◌,
}
use agent_arena.Prelude.Dict.{Dict, get, IsDict, get_of_mem, mem_of_get}
use agent_arena.Prelude.Floats.{Floats, IsFloats}
use agent_arena.Prelude.Maps.{mem_of_mem-filter_map, mem-filter_map_of}
use agent_arena.Prelude.Sort.{mem-sort_by, sort_by-IsSorted, IsSorted, IsOrder, All_at}
use agent_arena.Schemas.Objective.{Objective, MetricDefinition}
use agent_arena.Planner.{
  SubGoal, current_of, goal_of, open_goal, by_priority, decompose, select_goal, is_complete,
}

module _ {F : Type 0} ⦃fl : Floats F⦄ where
  by_priority-IsOrder : IsFloats fl → IsOrder (by_priority {F = F})
  by_priority-IsOrder h = record {
    total = λ g k. h.le_order.total k.priority g.priority;
    trans = λ a b c p q. h.le_order.trans c.priority b.priority a.priority q p;
  }

  reflexive : IsFloats fl → (x : F) → fl.le x x ≡ true
  reflexive h x = elim (h.le_order.total x x) [ inl p ↦ p | inr p ↦ p ]

  mem_of_select_goal :
      (goals : List (SubGoal F)) (g : SubGoal F) → select_goal goals ≡ none → Memᴰ g goals → ⊥
  unfolding select_goal
  mem_of_select_goal [] g h m = elim m [ ]
  mem_of_select_goal (k ∷ goals) g h m = absurd (cc h)

  select_goal-greatest :
      IsFloats fl
      → (goals : List (SubGoal F)) (best g : SubGoal F) → IsSorted by_priority goals
      → select_goal goals ≡ some best
      → Memᴰ g goals
      → fl.le g.priority best.priority ≡ true
  unfolding select_goal
  select_goal-greatest h [] best g sorted chosen m = elim m [ ]
  select_goal-greatest h (k ∷ goals) best g sorted chosen m =
      let e : k ≡ best = some-injective _ _ chosen in
      subst (λ (b : SubGoal F). fl.le g.priority b.priority ≡ true) e
        (elim m [
          | Memᴰ.head p ↦
              subst (λ (x : SubGoal F). fl.le x.priority k.priority ≡ true) (sym p)
                (reflexive h k.priority)
          | Memᴰ.tail n ↦ All_at (λ (x : SubGoal F). by_priority k x ≡ true) goals g sorted.0 n
        ])

  module _ (describe : String → F → F → String) (progress : Dict String F) where
    -- The sub-goal of a metric of the objective that has not reached its target.
    abbrev pub IsOpen : Objective F → SubGoal F → Type 0
    IsOpen objective g =
        (metric : MetricDefinition F) × (get objective.success_metrics g.metric_name ≡ some metric)
        × (is_complete g ≡ false)
        × (g ≡ goal_of describe progress g.metric_name metric)

    open_parts :
        (name : String) (metric : MetricDefinition F) (g : SubGoal F)
        → open_goal describe progress (name, metric) ≡ some g
        → (is_complete g ≡ false) × (g ≡ goal_of describe progress name metric)
    unfolding is_complete
    open_parts name metric g h =
        elim (Bool-cases (fl.le metric.target (current_of progress name))) [
          | inl reached ↦ absurd (cc (rw reached at h))
          | inr missed ↦
              let e : goal_of describe progress name metric ≡ g =
                some-injective _ _ (rw missed at h) in
              (subst (λ (k : SubGoal F). fl.le k.target k.current ≡ false) e missed, sym e)
        ]

    missing_goal :
        (g : SubGoal F) (metric : MetricDefinition F)
        → is_complete g ≡ false
        → g ≡ goal_of describe progress g.metric_name metric
        → open_goal describe progress (g.metric_name, metric) ≡ some g
    unfolding is_complete
    missing_goal g metric missed e =
        let short : fl.le metric.target (current_of progress g.metric_name) ≡ false =
          subst (λ (k : SubGoal F). fl.le k.target k.current ≡ false) e missed in
        ap (λ (b : Bool). if b then none else some (goal_of describe progress g.metric_name metric))
          short
        ∙ ap some (sym e)

    members :
        (objective : Objective F)
        → IsDict objective.success_metrics
        → (g : SubGoal F)
        → Memᴰ g (decompose describe (some objective) progress) ↔ IsOpen objective g
    unfolding decompose is_complete
    members objective d g = (
      λ m.
          let ((name, metric), there, h) =
            mem_of_mem-filter_map (open_goal describe progress) objective.success_metrics g
              ((mem-sort_by by_priority g _).0 m) in
          let (missed, e) = open_parts name metric g h in
          let named : g.metric_name ≡ name = ap (λ (k : SubGoal F). k.metric_name) e in
          let found = get_of_mem objective.success_metrics name metric d there in
          (
            metric,
            ap (get objective.success_metrics) named ∙ found,
            missed,
            e ∙ ap (λ (n : String). goal_of describe progress n metric) (sym named),
          ),
      λ (metric, found, missed, e). (mem-sort_by by_priority g _).1 (
          mem-filter_map_of (open_goal describe progress) objective.success_metrics g
            (g.metric_name, metric)
            (mem_of_get objective.success_metrics g.metric_name metric found)
            (missing_goal g metric missed e)),
    )

    -- For floats that are not NaN and an objective whose metrics have distinct names, `decompose`
    -- returns exactly the sub-goals of the metrics that have not reached their targets, by
    -- descending priority; and `select_goal` returns one of the greatest priority among them, or
    -- none if there is none.
    pub decompose_exact :
        IsFloats fl
        → (objective : Objective F) → IsDict objective.success_metrics
        → IsSorted by_priority (decompose describe (some objective) progress)
          × ((g : SubGoal F)
              → Memᴰ g (decompose describe (some objective) progress) ↔ IsOpen objective g)
          × ((g best : SubGoal F)
              → IsOpen objective g
              → (select_goal (decompose describe (some objective) progress) ≡ some best)
              → fl.le g.priority best.priority ≡ true)
          × ((select_goal (decompose describe (some objective) progress) ≡ none)
              → (g : SubGoal F) → IsOpen objective g
              → ⊥)
    unfolding decompose
    decompose_exact h objective d =
        let goals = decompose describe (some objective) progress in
        let sorted = sort_by-IsSorted by_priority (by_priority-IsOrder h) _ in
        (
          sorted,
          members objective d,
          λ g best o chosen.
              select_goal-greatest h goals best g sorted chosen ((members objective d g).1 o),
          λ nothing g o. mem_of_select_goal goals g nothing ((members objective d g).1 o),
        )
