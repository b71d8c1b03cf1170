-- ===== src/LongTerm/Found.antt =====
-- `query_memory`.
use agent_arena.Prelude.{
  ℕ, zero, String, Bool, false, List, [], ◌∷◌, Option, none, some, min, nat_beq, length,
  if◌then◌else◌,
}
use agent_arena.Prelude.Floats.{Floats}
use agent_arena.Prelude.Int.{ℤ, pos, negsuc}
use agent_arena.Prelude.Result.{Result, ok, ◌>>=◌}
use agent_arena.LongTerm.{
  IndexType, Faiss, Memory, Hit, LongTermMemory, is_flat_ip, embed, recalled, memory_at,
}

abbrev pub prepend {ℓ} : {A : Type ℓ} → Option A → List A → List A
prepend none xs = xs
prepend (some x) xs = x ∷ xs

module _ {F : Type 0} ⦃fl : Floats F⦄ where
  unfoldable pub score_of : IndexType → F → F
  score_of t dist =
      if is_flat_ip t then dist else fl.div (fl.of_int (pos 1)) (fl.add (fl.of_int (pos 1)) dist)

  -- `threshold is not None and score < threshold`
  abbrev pub below : F → Option F → Bool
  below score none = false
  below score (some threshold) = fl.lt score threshold

module _ {V F : Type 0} ⦃fl : Floats F⦄ where
  abbrev pub hit_if : Option F → F → F → Memory V F → Option (Hit F)
  hit_if threshold dist score x =
      if below score threshold
      then none
      else some (record { memory = recalled x; score = score; distance = dist })

module _ {I V F : Type 0} ⦃fl : Floats F⦄ where
  -- one round of the loop over the distances and positions; FAISS gives -1 for "not found"
  unfoldable pub hit_at : LongTermMemory I V F → Option F → F → ℤ → Result (Option (Hit F))
  unfolding score_of
  hit_at m threshold dist (negsuc zero) = ok none
  hit_at m threshold dist idx =
      memory_at m idx >>= λ x. ok (hit_if threshold dist (score_of m.index_type dist) x)

  unfoldable pub hits : LongTermMemory I V F → Option F → List (F × ℤ) → Result (List (Hit F))
  unfolding hit_at
  hits m threshold [] = ok []
  hits m threshold ((dist, idx) ∷ rest) =
      hit_at m threshold dist idx >>= λ h. hits m threshold rest >>= λ hs. ok (prepend h hs)

module _ {I V F : Type 0} (faiss : Faiss I V F) ⦃fl : Floats F⦄ where
  unfoldable pub query_memory : LongTermMemory I V F → String → ℕ → Option F → Result (List (Hit F))
  unfolding hits embed
  query_memory m query k threshold =
      if nat_beq (length m.memories) 0
      then ok []
      else faiss.search m.index (embed faiss m.index_type query) (min k (length m.memories))
        >>= hits m threshold
