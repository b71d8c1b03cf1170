-- ===== src/Prelude/Floats.antt =====
-- Python's floats: a type with the operations that the program uses, and what is relied on of them.
-- A development over floats takes both as parameters. `x ** 2` is `mul x x`, which raises nothing: a
-- float beyond about 1e154, for which Python raises an OverflowError there, is left out.
use mathlib.Core.Bool.{Bool, not}
use mathlib.Core.Path.{◌≡◌}
use agent_arena.Prelude.Int.{ℤ}
use agent_arena.Prelude.Sort.{IsOrder}

pub record Floats (F : Type 0) : Type 0 where
  -- the value of an integer literal or an integer operand
  pub of_int : ℤ → F
  -- `x == 0`
  pub is_zero : F → Bool
  -- `x <= y` and `x < y`
  pub le : F → F → Bool
  pub lt : F → F → Bool
  pub add : F → F → F
  pub sub : F → F → F
  pub mul : F → F → F
  pub div : F → F → F
  pub sqrt : F → F
  -- `x // y`, and `int(x)`
  pub floor_div : F → F → F
  pub trunc : F → ℤ

-- On floats that are not NaN, `<=` is a total order and `<` is its strict part.
pub record IsFloats {F : Type 0} (fl : Floats F) : Type 0 where
  pub le_order : IsOrder fl.le
  pub lt_le : (x y : F) → fl.lt x y ≡ not (fl.le y x)
