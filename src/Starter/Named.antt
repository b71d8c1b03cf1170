-- ===== src/Starter/Named.antt =====
-- How the result of the last tool is taken in.
use agent_arena.Prelude.{
  ◌≡◌, refl, Bool, true, false, Option, none, some, ◌==◌, string_key, if◌then◌else◌, inl, inr,
  Bool-cases, Option-cases,
}
use agent_arena.Prelude.Json.{Json, null, int, float, str, arr, obj, get_field}
use agent_arena.Prelude.Result.{ok}
use agent_arena.Planner.{Planner, advance, cancel, has_active_plan}
use agent_arena.Schemas.Observation.{Observation}
use agent_arena.Schemas.Percepts.{ToolResult}
use agent_arena.Sightings.{Memory}
use agent_arena.Starter.{Starter, marked, succeeded, handle_tool_result}
use agent_arena.Starter.Deciding.{notice}

module _ {F : Type 0} where
  -- Is the target of the tool a text, `None`, or missing?
  abbrev pub is_named : Option (Json F) → Bool
  is_named (some (str name)) = true
  is_named (some null) = true
  is_named (some _) = false
  is_named none = true

  -- If the last tool is "collect" and tells a "target_name", that is a text or null.
  abbrev pub IsNamed : Observation F → Type 0
  IsNamed o =
      (r : ToolResult F)
      → o.last_tool_result ≡ some r
      → (r.tool == "collect") ≡ true
      → is_named (get_field r.result "target_name") ≡ true

  marked-named :
      (j : Option (Json F)) (m : Memory F)
      → is_named j ≡ true
      → (m' : Memory F) × (marked j m ≡ ok m')
  marked-named none m h = (m, refl)
  marked-named (some null) m h = (m, refl)
  marked-named (some (str name)) m h = (_, refl)
  marked-named (some (Json.bool b)) m h = absurd (cc h)
  marked-named (some (int n)) m h = absurd (cc h)
  marked-named (some (float x)) m h = absurd (cc h)
  marked-named (some (arr js)) m h = absurd (cc h)
  marked-named (some (obj d)) m h = absurd (cc h)

  -- The plan goes on after a success that names what it tells of.
  succeeded-named :
      (r : ToolResult F) (a : Starter F)
      → ((r.tool == "collect") ≡ true → is_named (get_field r.result "target_name") ≡ true)
      → (b : Starter F) × (succeeded r a ≡ ok b)
        × (b.planner ≡ (if has_active_plan a.planner then advance a.planner else a.planner))
  succeeded-named r a h = elim (Bool-cases (r.tool == "collect")) [
    | inl p ↦
        let (m, q) = marked-named (get_field r.result "target_name") a.memory (h p) in
        rw (p, q) (_, refl, refl)
    | inr p ↦ rw p (_, refl, refl)
  ]

  -- the plan after the result of a tool
  abbrev planner_after : Option (ToolResult F) → Planner F → Planner F
  planner_after none p = p
  planner_after (some r) p =
      if r.success then (if has_active_plan p then advance p else p) else cancel p

  -- An observation with a named target is taken in.
  pub notice-named :
      (o : Observation F) (a : Starter F)
      → IsNamed o
      → (b : Starter F) × (notice o a ≡ ok b)
        × (b.planner ≡ planner_after o.last_tool_result a.planner)
  unfolding notice handle_tool_result
  notice-named o a h = elim (Option-cases o.last_tool_result) [
    | inl p ↦ rw p (_, refl, refl)
    | inr (r, p) ↦ elim (Bool-cases r.success) [
      | inr q ↦ rw (p, q) (_, refl, refl)
      | inl q ↦ rw (p, q) (succeeded-named r _ (h r p))
    ]
  ]
