-- ===== src/Tests/StarterRuns.antt =====
-- The starter's planner and memory, with integers for floats.
use mathlib.Core.List.{foldl, Memᴰ}
use agent_arena.Prelude.{
  ◌-◌, String, true, not, ◌≡◌, ◌↔◌, refl, List, [], ◌∷◌, map, none, some, length, get_elem?, ltb,
  string_key,
}
use agent_arena.Prelude.Dict.{get, put}
use agent_arena.Prelude.DictKeys.{contains, add_key}
use agent_arena.Prelude.Int.{ℤ, pos, ◌-ℤ◌}
use agent_arena.Prelude.Sort.{IsSorted, descending, sort_by, insert_sorted}
use agent_arena.Planner.{
  SubGoal, ActionStep, init, has_active_plan, current_step, set_plan, remaining_steps, plan_craft,
  by_priority, decompose, select_goal,
}
use agent_arena.Planner.Goals.{IsOpen, decompose_exact}
use agent_arena.Planner.Steps.{advances, run_plan}
use agent_arena.Sightings.{
  Memory, Sighting, is_recent, mark_collected, find_uncollected_resources, seen_in, note_all,
}
use agent_arena.Sightings.Uncollected.{IsLast, find_uncollected_resources_exact}
use agent_arena.Tests.Ints.{int_floats, int_floats-IsFloats}
use agent_arena.Tests.SchemaRuns.{seeing, collect_berries}

abbrev torch : List (ActionStep ℤ)
torch =
    plan_craft "torch" "workbench" (pos 5, pos 0, pos 5)
      (some (("wood", (pos 1, pos 0, pos 1)) ∷ []))

run_plan_example :
    (current_step (advances 3 (set_plan torch init)) ≡ get_elem? torch 3)
    × (has_active_plan (advances 3 (set_plan torch init)) ≡ ltb 3 (length torch))
    × (remaining_steps (advances 3 (set_plan torch init)) ≡ length torch - 3)
run_plan_example = run_plan torch 3 init

abbrev said : String → ℤ → ℤ → String
said name current target = name

decompose_exact_example :
    IsSorted by_priority (decompose said (some collect_berries) (("berries", pos 3) ∷ []))
    × ((g : SubGoal ℤ)
        → Memᴰ g (decompose said (some collect_berries) (("berries", pos 3) ∷ []))
          ↔ IsOpen said (("berries", pos 3) ∷ []) collect_berries g)
    × ((g best : SubGoal ℤ)
        → IsOpen said (("berries", pos 3) ∷ []) collect_berries g
        → (select_goal (decompose said (some collect_berries) (("berries", pos 3) ∷ []))
            ≡ some best)
        → int_floats.le g.priority best.priority ≡ true)
    × ((select_goal (decompose said (some collect_berries) (("berries", pos 3) ∷ [])) ≡ none)
        → (g : SubGoal ℤ) → IsOpen said (("berries", pos 3) ∷ []) collect_berries g
        → ⊥)
unfolding get
decompose_exact_example =
    decompose_exact said (("berries", pos 3) ∷ []) int_floats-IsFloats collect_berries
      (refl, (refl, tt))

-- The required metric comes first.
goals_run :
    map (λ g. g.metric_name) (decompose said (some collect_berries) (("berries", pos 3) ∷ []))
    ≡ "berries" ∷ "time" ∷ []
unfolding decompose mathlib.Core.List.filter_map get sort_by insert_sorted ◌-ℤ◌
goals_run = refl

abbrev empty : Memory ℤ
empty = record { capacity = 2; observations = []; collected = [] }

abbrev remembering : Memory ℤ
remembering = record { capacity = 2; observations = seeing ∷ []; collected = "berry_9" ∷ [] }

find_uncollected_resources_exact_example :
    IsSorted (descending (λ s. s.tick)) (find_uncollected_resources remembering 20 (pos 40))
    × ((s : Sighting ℤ)
        → Memᴰ s (find_uncollected_resources remembering 20 (pos 40)) ↔ (
            IsLast remembering s
            × (not (contains remembering.collected s.name) ≡ true)
            × (is_recent 20 (pos 40) s ≡ true)))
find_uncollected_resources_exact_example = find_uncollected_resources_exact remembering 20 (pos 40)

-- A resource that was picked up is no longer listed.
picked_up :
    (map (λ s. s.name) (find_uncollected_resources remembering 20 (pos 40)) ≡ "berry_1" ∷ [])
    × (find_uncollected_resources (mark_collected "berry_1" remembering) 20 (pos 40) ≡ [])
unfolding find_uncollected_resources mark_collected add_key seen_in note_all put contains sort_by
    insert_sorted
picked_up = (refl, refl)
