-- ===== src/Prelude/Text.antt =====
-- Python's order of texts: by code points, from the left.
use Prim.Native.Nat.{ℕ}
use Prim.Native.Char.{code}
use Prim.Native.String.{String, ◌++◌ as ◌++ₛ◌}
use mathlib.Core.Bool.{Bool, true, false}
use mathlib.Core.List.{List, [], ◌∷◌}
use mathlib.Core.Logic.{◌⊎◌}
use mathlib.Core.Path.{◌≡◌, refl}
use native.Mathlib.Omega.{arith}
use agent_arena.Prelude.Tests.{ltb, nat_beq, if◌then◌else◌}

abbrev pub codes : String → List ℕ
codes String.[] = []
codes (String.◌∷◌ c s) = code c ∷ codes s

unfoldable pub lex_leb : List ℕ → List ℕ → Bool
lex_leb [] ys = true
lex_leb (x ∷ xs) [] = false
lex_leb (x ∷ xs) (y ∷ ys) =
    let rest = lex_leb xs ys in if ltb x y then true else if nat_beq x y then rest else false

lex_leb_total : (xs ys : List ℕ) → (lex_leb xs ys ≡ true) ⊎ (lex_leb ys xs ≡ true)
unfolding lex_leb
lex_leb_total [] ys = ground arith
lex_leb_total (x ∷ xs) [] = ground arith
lex_leb_total (x ∷ xs) (y ∷ ys) = ground (arith, lex_leb_total xs ys)

lex_leb_trans :
    (xs ys zs : List ℕ) → lex_leb xs ys ≡ true → lex_leb ys zs ≡ true → lex_leb xs zs ≡ true
unfolding lex_leb
lex_leb_trans [] ys zs h k = refl
lex_leb_trans (x ∷ xs) [] zs h k = absurd (cc)
lex_leb_trans (x ∷ xs) (y ∷ ys) [] h k = absurd (cc)
lex_leb_trans (x ∷ xs) (y ∷ ys) (z ∷ zs) h k = ground (arith, lex_leb_trans xs ys zs)

abbrev pub str_leb : String → String → Bool
str_leb a b = lex_leb (codes a) (codes b)

pub str_leb_total : (a b : String) → (str_leb a b ≡ true) ⊎ (str_leb b a ≡ true)
str_leb_total a b = lex_leb_total (codes a) (codes b)

pub str_leb_trans : (a b c : String) → str_leb a b ≡ true → str_leb b c ≡ true → str_leb a c ≡ true
str_leb_trans a b c = lex_leb_trans (codes a) (codes b) (codes c)

order_samples : (str_leb "agent_1" "agent_2" ≡ true) × (str_leb "b" "agent" ≡ false)
unfolding lex_leb
order_samples = (refl, refl)

-- `sep.join(parts)`
unfoldable pub join : String → List String → String
join sep [] = ""
join sep (x ∷ []) = x
join sep (x ∷ y ∷ ys) = x ++ₛ sep ++ₛ join sep (y ∷ ys)
