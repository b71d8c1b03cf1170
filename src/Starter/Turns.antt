-- ===== src/Starter/Turns.antt =====
-- One call of `decide`, with and without a hazard near.
use mathlib.Core.List.{Memᴰ}
use agent_arena.Prelude.{
  ◌≡◌, refl, String, true, List, [], ◌∷◌, none, some, inl, inr, Bool-cases, Option-cases,
}
use agent_arena.Prelude.Dict.{Dict}
use agent_arena.Prelude.Floats.{Floats}
use agent_arena.Prelude.Int.{ℤ}
use agent_arena.Prelude.Result.{ok}
use agent_arena.Planner.{cancel}
use agent_arena.Schemas.Decision.{Decision}
use agent_arena.Schemas.Observation.{Observation}
use agent_arena.Schemas.Percepts.{HazardInfo}
use agent_arena.Starter.{Starter, Toolkit, check_danger, danger_radius, escape_visible}
use agent_arena.Starter.Crafting.{get_inventory_counts}
use agent_arena.Starter.Deciding.{decide}
use agent_arena.Starter.Named.{IsNamed, notice-named}
use agent_arena.Starter.Total.{safely-Returns}

module _ {F : Type 0} (k : Toolkit F) ⦃fl : Floats F⦄ where
  escape_visible-near :
      (o : Observation F) (hs : List (HazardInfo F)) (h : HazardInfo F)
      → Memᴰ h hs
      → fl.lt h.distance danger_radius ≡ true
      → (d : Decision F) × (escape_visible k o.position hs ≡ some d) × (d.tool ≡ "move_to")
  unfolding escape_visible
  escape_visible-near o [] h m near = elim m [ ]
  escape_visible-near o (g ∷ hs) h m near = elim (Bool-cases (fl.lt g.distance danger_radius)) [
    | inl p ↦ rw p (_, refl, refl)
    | inr p ↦ rw p (elim m [
      | Memᴰ.head e ↦ absurd (cc (near, p, e))
      | Memᴰ.tail n ↦ escape_visible-near o hs h n near
    ])
  ]

  check_danger-near :
      (o : Observation F) (a : Starter F) (h : HazardInfo F)
      → Memᴰ h o.nearby_hazards
      → fl.lt h.distance danger_radius ≡ true
      → (d : Decision F) × (check_danger k o a ≡ some d) × (d.tool ≡ "move_to")
  unfolding check_danger
  check_danger-near o a h m near =
      let (d, p, t) = escape_visible-near o o.nearby_hazards h m near in (d, rw p refl, t)

  -- If the inventory of an observation can be counted, and the "target_name" that the result of a
  -- last tool "collect" tells, if any, is a text or null, then `decide` raises nothing, on floats
  -- whose squares do not overflow. If in addition a visible hazard is nearer than the danger radius,
  -- the decision is to move, and no plan is left.
  pub decide-ok :
      (o : Observation F) (a : Starter F) (counts : Dict String ℤ)
      → get_inventory_counts o ≡ ok counts
      → IsNamed o
      → (r : Decision F × Starter F) × (decide k o a ≡ ok r)
        × ((h : HazardInfo F)
            → Memᴰ h o.nearby_hazards
            → fl.lt h.distance danger_radius ≡ true
            → (r.0.tool ≡ "move_to") × (r.1.planner.steps ≡ []))
  unfolding decide cancel
  decide-ok o a counts c named =
      let (b, noted, _) = notice-named o a named in
      rw noted (elim (Option-cases (check_danger k o b)) [
        | inr (d, p) ↦ (
          (d, record b { planner = cancel b.planner }),
          rw p refl,
          λ h m near. let (d', q, t) = check_danger-near o b h m near in (cc (p, q, t), refl),
        )
        | inl p ↦
            let (r, q) = safely-Returns k o (counts, c) b none in
            (
              r,
              rw p q,
              λ h m near. let (d', q', t) = check_danger-near o b h m near in absurd (cc (p, q')),
            )
      ])
