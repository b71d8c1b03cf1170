-- ===== src/Prelude/IntRange.antt =====
-- Tests on integers, integers as keys, and `range(lo, hi)`.
use Prim.Native.Nat.{ℕ, zero, suc, ◌+◌}
use mathlib.Core.Bool.{Bool, true}
use mathlib.Core.List.{List, [], ◌∷◌, Memᴰ}
use mathlib.Core.Logic.{◌↔◌, inl, inr}
use mathlib.Core.Path.{◌≡◌, subst}
use native.Mathlib.Omega.{arith}
use agent_arena.Prelude.Int.{
  ℤ, pos, pos_part, neg_part, ◌+ℤ◌, ◌-ℤ◌, ◌≤ℤ◌, +ℤ_parts, -ℤ_parts, eq_of_parts,
}
use agent_arena.Prelude.Keys.{Eq}
use agent_arena.Prelude.Tests.{leb, nat_beq, nat_beq_iff, Bool-cases}

abbrev pub int_beq : ℤ → ℤ → Bool
int_beq a b = nat_beq (pos_part a + neg_part b) (pos_part b + neg_part a)

pub int_beq_iff : (a b : ℤ) → (int_beq a b ≡ true) ↔ (a ≡ b)
int_beq_iff a b = (
  λ h. eq_of_parts a b ((nat_beq_iff _ _).0 h),
  λ e. subst (λ (c : ℤ). int_beq a c ≡ true) e ((nat_beq_iff _ _).1 (omega arith)),
)

instance abbrev pub int_key : Eq ℤ
int_key = record { beq = int_beq; beq_iff = int_beq_iff }

abbrev pub int_leb : ℤ → ℤ → Bool
int_leb a b = leb (pos_part a + neg_part b) (pos_part b + neg_part a)

-- x, x + 1, ..., n of them
abbrev pub count_up : ℕ → ℤ → List ℤ
count_up zero x = []
count_up (suc n) x = x ∷ count_up n (x +ℤ pos 1)

abbrev pub int_range : ℤ → ℤ → List ℤ
int_range lo hi = count_up (pos_part (hi -ℤ lo)) lo

pub mem-count_up : (n : ℕ) (x y : ℤ) → x ≤ℤ y → y +ℤ pos 1 ≤ℤ x +ℤ pos n → Memᴰ y (count_up n x)
mem-count_up zero x y h k = absurd (omega (arith, +ℤ_parts y (pos 1), +ℤ_parts x (pos 0)))
mem-count_up (suc n) x y h k = elim (Bool-cases (int_beq y x)) [
  | inl same ↦ Memᴰ.head ((int_beq_iff y x).0 same)
  | inr later ↦ Memᴰ.tail (
      mem-count_up n (x +ℤ pos 1) y (ground (arith, +ℤ_parts x (pos 1))) (
        ground (
          arith,
          +ℤ_parts y (pos 1),
          +ℤ_parts x (pos 1),
          +ℤ_parts (x +ℤ pos 1) (pos n),
          +ℤ_parts x (pos (suc n)),
        )))
]

pub mem-int_range : (lo hi y : ℤ) → lo ≤ℤ y → y +ℤ pos 1 ≤ℤ hi → Memᴰ y (int_range lo hi)
mem-int_range lo hi y h k =
    mem-count_up _ lo y h
      (ground (arith, -ℤ_parts hi lo, +ℤ_parts y (pos 1), +ℤ_parts lo (pos (pos_part (hi -ℤ lo)))))
