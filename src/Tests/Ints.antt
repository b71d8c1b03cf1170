-- ===== src/Tests/Ints.antt =====
-- Integers as floats: arithmetic without rounding, in which every assumption on floats holds. A
-- quotient is cut to an integer, and a root rounded up.
use mathlib.Core.Path.{subst}
use native.Mathlib.Nat.{mul-le-mul, mul-suc, suc-mul}
use agent_arena.Prelude.{
  ℕ, zero, suc, ◌+◌, ◌*◌, ◌/◌, ◌≤◌, true, false, not, ◌&&◌, ◌≡◌, refl, sym, ap, ◌∙◌, inl, inr, leb,
  ltb, if◌then◌else◌, Bool-cases, arith,
}
use agent_arena.Prelude.Floats.{Floats, IsFloats}
use agent_arena.Prelude.Int.{ℤ, pos, negsuc, abs, sub_ℕ, ◌+ℤ◌, ◌-ℤ◌, div_floor}
use agent_arena.Prelude.IntRange.{int_leb}
use agent_arena.Spatial.Near.Cover.{IsExact}

abbrev pub mul : ℤ → ℤ → ℤ
mul (pos a) (pos b) = pos (a * b)
mul (negsuc a) (negsuc b) = pos (suc a * suc b)
mul (pos a) (negsuc b) = sub_ℕ 0 (a * suc b)
mul (negsuc a) (pos b) = sub_ℕ 0 (suc a * b)

abbrev grow : ℕ → ℕ → ℕ
grow n r = if ltb (r * r) n then suc r else r

unfoldable pub root : ℕ → ℕ
root zero = 0
root (suc n) = grow (suc n) (root n)

abbrev pub sqrt : ℤ → ℤ
sqrt (pos n) = pos (root n)
sqrt (negsuc n) = pos 0

abbrev pub quotient : ℤ → ℤ → ℤ
quotient (pos a) (pos b) = pos (a / b)
quotient (negsuc a) (pos b) = sub_ℕ 0 (suc a / b)
quotient a (negsuc b) = pos 0

abbrev pub floor_quotient : ℤ → ℤ → ℤ
floor_quotient a (pos b) = div_floor a b
floor_quotient a (negsuc b) = pos 0

instance abbrev pub int_floats : Floats ℤ
int_floats = record {
  of_int = λ n. n;
  is_zero = λ n. int_leb n (pos 0) && int_leb (pos 0) n;
  le = int_leb;
  lt = λ a b. not (int_leb b a);
  add = λ a b. a +ℤ b;
  sub = λ a b. a -ℤ b;
  mul = mul;
  div = quotient;
  sqrt = sqrt;
  floor_div = floor_quotient;
  trunc = λ n. n;
}

pub int_floats-IsFloats : IsFloats int_floats
int_floats-IsFloats = record {
  le_order = record { total = λ a b. ground arith; trans = λ a b c h k. ground arith };
  lt_le = λ a b. refl;
}

square : (x : ℤ) → mul x x ≡ pos (abs x * abs x)
square (pos n) = ap pos (ground arith)
square (negsuc n) = ap pos (ground arith)

abs-sub : (x y : ℤ) → abs (x -ℤ y) ≡ abs (y -ℤ x)
unfolding ◌-ℤ◌
abs-sub x y = ground arith

root_step : (n : ℕ) → root n ≤ root (suc n)
unfolding root
root_step n = ground arith

nil : (n : ℕ) → n ≤ 0 → 0 ≡ n
nil n h = omega arith

last : (n m : ℕ) → n ≤ suc m → leb n m ≡ false → suc m ≡ n
last n m h gt = ground arith

square_suc : (r : ℕ) → suc r * suc r ≡ r * r + r + r + 1
square_suc r = omega (arith, mul-suc (suc r) r, suc-mul r r)

root_mono : (n m : ℕ) → n ≤ m → root n ≤ root m
root_mono n zero h = subst (λ (k : ℕ). root k ≤ root 0) (nil n h) (omega arith)
root_mono n (suc m) h = elim (Bool-cases (leb n m)) [
  | inl le ↦ omega (arith, root_mono n m (ground arith), root_step m)
  | inr gt ↦ subst (λ (k : ℕ). root k ≤ root (suc m)) (last n m h gt) (omega arith)
]

square-root : (n : ℕ) → n ≤ root n * root n
unfolding root
square-root zero = omega arith
square-root (suc n) = ground (arith, square-root n, square_suc (root n))

above : (a b : ℕ) → leb a b ≡ false → suc b ≤ a
above a b h = ground arith

le_of_squares : (a b : ℕ) → a * a ≤ b * b → a ≤ b
le_of_squares a b h = elim (Bool-cases (leb a b)) [
  | inl le ↦ ground arith
  | inr gt ↦ absurd (omega (arith, mul-le-mul (above a b gt) (above a b gt), square_suc b))
]

sqrt_mono : (x y : ℤ) → int_leb x y ≡ true → int_leb (sqrt x) (sqrt y) ≡ true
sqrt_mono (pos n) (pos m) h = ground (arith, root_mono n m (ground arith))
sqrt_mono (pos n) (negsuc m) h = absurd (ground arith)
sqrt_mono (negsuc n) (pos m) h = ground arith
sqrt_mono (negsuc n) (negsuc m) h = ground arith

le_sqrt_square : (x : ℤ) → int_leb x (sqrt (mul x x)) ≡ true
le_sqrt_square (pos n) = ground (arith, le_of_squares n (root (n * n)) (square-root (n * n)))
le_sqrt_square (negsuc n) = ground arith

pub int_floats-IsExact : IsExact int_floats
unfolding ◌+ℤ◌ ◌-ℤ◌ div_floor
int_floats-IsExact = record {
  floats = int_floats-IsFloats;
  square_nonneg = λ x. rw (square x) (ground arith);
  add_nonneg = λ x y h k. ground arith;
  le_add_right = λ x y h. ground arith;
  le_add_left = λ x y h. ground arith;
  sqrt_mono = sqrt_mono;
  le_sqrt_square = le_sqrt_square;
  square_sub = λ x y. square (x -ℤ y) ∙ rw (abs-sub x y) (sym (square (y -ℤ x)));
  le_add_of_sub = λ x y r h. ground arith;
  cell_mono = λ x y h. ground arith;
  cell_add = λ x r. ground arith;
}
