-- ===== src/Beginner/Priorities.antt =====
-- What comes first for the beginner's agent.
use mathlib.Core.List.{Memᴰ}
use agent_arena.Prelude.{
  ◌≡◌, ◌⊎◌, refl, ◌∙◌, true, false, List, [], ◌∷◌, none, some, inl, inr, Bool-cases, arith,
  if◌then◌else◌,
}
use agent_arena.Prelude.Floats.{Floats, IsFloats}
use agent_arena.Prelude.Int.{pos}
use agent_arena.Prelude.Result.{ok}
use agent_arena.Prelude.Sort.{All}
use agent_arena.Episodes.Texts.{Format}
use agent_arena.Schemas.Decision.{Decision}
use agent_arena.Schemas.Observation.{Observation}
use agent_arena.Schemas.Percepts.{HazardInfo, ResourceInfo}
use agent_arena.Starter.Collecting.{closest_resource}
use agent_arena.Beginner.{check_danger, collect_resources, decide, escape_from, toward}

module _ {F : Type 0} ⦃fl : Floats F⦄ (law : IsFloats fl) where
  same_le : (x : F) → fl.le x x ≡ true
  same_le x = ground (arith, law.le_order.total x x)

  less_le : (x y : F) → fl.lt x y ≡ true → fl.le x y ≡ true
  less_le x y h = ground (arith, law.lt_le x y, law.le_order.total x y)

  not_less_le : (x y : F) → fl.lt x y ≡ false → fl.le y x ≡ true
  not_less_le x y h = ground (arith, law.lt_le x y)

  closer : ResourceInfo F → ResourceInfo F → ResourceInfo F
  closer r s = if fl.lt s.distance r.distance then s else r

  closer-le :
      (r s : ResourceInfo F)
      → (fl.le (closer r s).distance r.distance ≡ true)
        × (fl.le (closer r s).distance s.distance ≡ true)
        × ((closer r s ≡ r) ⊎ (closer r s ≡ s))
  unfolding closer
  closer-le r s = elim (Bool-cases (fl.lt s.distance r.distance)) [
    | inl p ↦ rw p (less_le s.distance r.distance p, same_le s.distance, inr refl)
    | inr p ↦ rw p (same_le r.distance, not_less_le s.distance r.distance p, inl refl)
  ]

  -- The closest resource is one of them, and none is closer.
  pub closest_resource-le :
      (r : ResourceInfo F) (ss : List (ResourceInfo F))
      → Memᴰ (closest_resource r ss) (r ∷ ss)
        × All (λ s. fl.le (closest_resource r ss).distance s.distance ≡ true) (r ∷ ss)
  unfolding closest_resource closer
  closest_resource-le r [] = (Memᴰ.head refl, (same_le r.distance, tt))
  closest_resource-le r (s ∷ ss) =
      let (m, (l, all)) = closest_resource-le (closer r s) ss in
      let (lr, ls, c) = closer-le r s in
      (
        elim m [
          | Memᴰ.head e ↦ elim c [
            | inl p ↦ Memᴰ.head (e ∙ p)
            | inr p ↦ Memᴰ.tail (Memᴰ.head (e ∙ p))
          ]
          | Memᴰ.tail n ↦ Memᴰ.tail (Memᴰ.tail n)
        ],
        (law.le_order.trans _ _ _ l lr, (law.le_order.trans _ _ _ l ls, all)),
      )

module _ {F : Type 0} (f : Format F) ⦃fl : Floats F⦄ where
  abbrev pub IsNear : HazardInfo F → Type 0
  IsNear h = fl.lt h.distance (fl.of_int (pos 3)) ≡ true

  escape-near :
      (o : Observation F) (hs : List (HazardInfo F)) (h : HazardInfo F)
      → Memᴰ h hs
      → IsNear h
      → (d : Decision F) × (escape_from f o.position hs ≡ some d) × (d.tool ≡ "move_to")
  unfolding escape_from
  escape-near o [] h m near = elim m [ ]
  escape-near o (g ∷ hs) h m near = elim (Bool-cases (fl.lt g.distance (fl.of_int (pos 3)))) [
    | inl p ↦ rw p (_, refl, refl)
    | inr p ↦ rw p (elim m [
      | Memᴰ.head e ↦ absurd (cc (near, p, e))
      | Memᴰ.tail n ↦ escape-near o hs h n near
    ])
  ]

  escape_none :
      (o : Observation F) (hs : List (HazardInfo F))
      → All (λ h. fl.lt h.distance (fl.of_int (pos 3)) ≡ false) hs
      → escape_from f o.position hs ≡ none
  unfolding escape_from
  escape_none o [] all = refl
  escape_none o (h ∷ hs) all = rw all.0 (escape_none o hs all.1)

  collect-closest :
      (o : Observation F) (rs : List (ResourceInfo F)) (r : ResourceInfo F)
      → IsFloats fl
      → o.nearby_resources ≡ rs
      → Memᴰ r rs
      → (c : ResourceInfo F) × Memᴰ c rs
        × All (λ s. fl.le c.distance s.distance ≡ true) rs
        × (collect_resources f o ≡ some (toward f c))
  unfolding collect_resources
  collect-closest o [] r law e m = elim m [ ]
  collect-closest o (s ∷ ss) r law e m =
      let (n, all) = closest_resource-le law s ss in (closest_resource s ss, n, all, rw e refl)

  -- On floats that are not NaN: with a hazard nearer than 3 units `decide` moves; with none, and a
  -- resource in sight, it moves toward a resource in sight to which no other one is closer.
  pub decide_priorities :
      (o : Observation F)
      → IsFloats fl
      → ((h : HazardInfo F)
          → Memᴰ h o.nearby_hazards
          → IsNear h
          → (d : Decision F) × (decide f o ≡ ok d) × (d.tool ≡ "move_to"))
        × (All (λ h. fl.lt h.distance (fl.of_int (pos 3)) ≡ false) o.nearby_hazards
            → (r : ResourceInfo F) → Memᴰ r o.nearby_resources
            → (c : ResourceInfo F) × Memᴰ c o.nearby_resources
              × All (λ s. fl.le c.distance s.distance ≡ true) o.nearby_resources
              × (decide f o ≡ ok (toward f c)))
  unfolding decide check_danger
  decide_priorities o law = (
    λ h m near. let (d, p, t) = escape-near o o.nearby_hazards h m near in (d, rw p refl, t),
    λ calm r m.
        let (c, n, all, p) = collect-closest o o.nearby_resources r law refl m in
        (c, n, all, rw (escape_none o o.nearby_hazards calm, p) refl),
  )
