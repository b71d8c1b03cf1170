-- ===== src/Behavior/Response/Embedded.antt =====
-- An object in the midst of an answer is found.
use Prim.Native.Char.{Char}
use agent_arena.Prelude.{ℕ, suc, ◌≡◌, true, false, [], ◌∷◌, some}
use agent_arena.Prelude.Floats.{Floats}
use agent_arena.Prelude.Int.{pos}
use agent_arena.Prelude.Json.{Json}
use agent_arena.Behavior.Response.{Text, Patterns, Scan, is_open, is_close}

-- With `n + 1` braces open, the text closes all of them, the last one by its last character.
pub data Closes : ℕ → Text → Type 0 where
  closes_all :
      {n : ℕ} {c : Char} {s : Text}
      → n ≡ 0
      → is_open c ≡ false
      → is_close c ≡ true
      → s ≡ []
      → Closes n (c ∷ s)
  closes_one :
      {n : ℕ} {c : Char} {s : Text}
      → is_open c ≡ false
      → is_close c ≡ true
      → Closes n s
      → Closes (suc n) (c ∷ s)
  opens : {n : ℕ} {c : Char} {s : Text} → is_open c ≡ true → Closes (suc n) s → Closes n (c ∷ s)
  passes :
      {n : ℕ} {c : Char} {s : Text}
      → is_open c ≡ false
      → is_close c ≡ false
      → Closes n s
      → Closes n (c ∷ s)

module _ {F : Type 0} (p : Patterns F) where
  abbrev within : ℕ → Text → Scan
  within n t = record { depth = pos (suc n); taken = some t }
