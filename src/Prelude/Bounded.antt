-- ===== src/Prelude/Bounded.antt =====
-- The two ways in which the program bounds a list after an append: a slice, and `pop(0)`.
use mathlib.Core.List.{List, [], ◌∷◌, ◌++◌}
use mathlib.Core.Path.{◌≡◌, refl, sym, ◌∙◌, ap}
use Prim.Native.Nat.{ℕ, ◌≤◌, ◌<◌}
use native.Mathlib.Omega.{arith}
use agent_arena.Prelude.Lists.{
  length, drop, newest, newest_all, newest-append_newest, last_slice, last_slice-newest,
  length-append, pop_front,
}
use agent_arena.Prelude.Tests.{ltb, Bool-cases, if◌then◌else◌}
use mathlib.Core.Logic.{inl, inr}

module _ {ℓ} {A : Type ℓ} where
  -- `xs.append(x); if len(xs) > cap: xs = xs[-cap:]`
  abbrev pub append_slice : ℕ → List A → A → List A
  append_slice cap xs x =
      if ltb cap (length (xs ++ x ∷ [])) then last_slice cap (xs ++ x ∷ []) else xs ++ x ∷ []

  -- `xs.append(x); if len(xs) > cap: xs.pop(0)`
  abbrev pub append_pop : ℕ → List A → A → List A
  append_pop cap xs x =
      if ltb cap (length (xs ++ x ∷ [])) then pop_front (xs ++ x ∷ []) else xs ++ x ∷ []

  pub append_slice-newest :
      (cap : ℕ) (xs : List A) (x : A) → 0 < cap → append_slice cap xs x ≡ newest cap (xs ++ x ∷ [])
  append_slice-newest cap xs x h = elim (Bool-cases (ltb cap (length (xs ++ x ∷ [])))) [
    | inl over ↦ rw over (last_slice-newest cap (xs ++ x ∷ []) h)
    | inr fits ↦ rw fits (sym (newest_all cap (xs ++ x ∷ []) (ground arith)))
  ]

  drop_one : (xs : List A) → pop_front xs ≡ drop 1 xs
  drop_one [] = refl
  drop_one (x ∷ xs) = refl

  pub append_pop-newest :
      (cap : ℕ) (xs : List A) (x : A)
      → length xs ≤ cap
      → append_pop cap xs x ≡ newest cap (xs ++ x ∷ [])
  append_pop-newest cap xs x h = elim (Bool-cases (ltb cap (length (xs ++ x ∷ [])))) [
    | inl over ↦ rw over (
        drop_one (xs ++ x ∷ [])
        ∙ ap (λ (i : ℕ). drop i (xs ++ x ∷ [])) {x = 1} (ground (arith, length-append xs (x ∷ []))))
    | inr fits ↦ rw fits (sym (newest_all cap (xs ++ x ∷ []) (ground arith)))
  ]

  -- One more item pushed into the newest items of a history.
  pub newest-push :
      (n : ℕ) (history : List A) (x : A)
      → newest n (newest n history ++ x ∷ []) ≡ newest n (history ++ x ∷ [])
  newest-push n history x = newest-append_newest n history (x ∷ [])
