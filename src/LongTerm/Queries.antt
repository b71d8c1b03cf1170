-- ===== src/LongTerm/Queries.antt =====
-- What `query_memory` finds.
use mathlib.Core.List.{Memᴰ}
use agent_arena.Prelude.{
  ℕ, zero, suc, ◌≡◌, ◌≤◌, ◌<◌, refl, String, true, false, List, [], ◌∷◌, Option, length, nat_beq,
  min, inl, inr, Bool-cases, arith, string_key,
}
use agent_arena.Prelude.Dict.{values}
use agent_arena.Prelude.DictKeys.{value_at}
use agent_arena.Prelude.Floats.{Floats}
use agent_arena.Prelude.Int.{ℤ, pos, negsuc}
use agent_arena.Prelude.Maps.{mem-map}
use agent_arena.Prelude.Result.{ok}
use agent_arena.Prelude.Sort.{All}
use agent_arena.LongTerm.{
  Faiss, LongTermMemory, Memory, Hit, get_all_memories, memory_at, recalled, embed,
}
use agent_arena.LongTerm.Found.{below, hit_at, hits, query_memory, score_of}
use agent_arena.LongTerm.Stored.{IsFaiss, IsParallel, IsPosition}

module _ {I V F : Type 0} ⦃fl : Floats F⦄ where
  -- a stored memory, with a score that is not below the threshold
  abbrev pub IsHit : LongTermMemory I V F → Option F → Hit F → Type 0
  IsHit m threshold h = Memᴰ h.memory (get_all_memories m) × (below h.score threshold ≡ false)

at_position : {n : ℕ} (i : ℕ) → IsPosition n (pos i) → i < n
at_position i (IsPosition.present j h) = h

no-IsPosition : {n : ℕ} (i : ℕ) → ¬ IsPosition n (negsuc (suc i))
no-IsPosition i p = elim p [ ]

module _ {I V F : Type 0} (faiss : Faiss I V F) ⦃fl : Floats F⦄ where
  position-memory :
      (m : LongTermMemory I V F) (i : ℕ)
      → IsParallel faiss m
      → i < length m.memories
      → (x : Memory V F) × (memory_at m (pos i) ≡ ok x) × Memᴰ x (values m.memories)
  position-memory m i h l =
      let (k, x, p, q, mem) = value_at m.memories i h.distinct l in (x, rw (h.ids, p, q) refl, mem)

  hits-ok :
      (m : LongTermMemory I V F) (threshold : Option F) (n : ℕ) (found : List (F × ℤ))
      → IsParallel faiss m
      → n ≡ length m.memories
      → All (λ p. IsPosition n p.1) found
      → (hs : List (Hit F)) × (hits m threshold found ≡ ok hs)
        × (length hs ≤ length found)
        × All (IsHit m threshold) hs
  unfolding hits hit_at get_all_memories
  hits-ok m threshold n [] h e all = ([], refl, omega arith, tt)
  hits-ok m threshold n ((dist, negsuc zero) ∷ rest) h e all =
      let (hs, p, l, a) = hits-ok m threshold n rest h e all.1 in (hs, rw p refl, omega arith, a)
  hits-ok m threshold n ((dist, pos i) ∷ rest) h e all =
      let (hs, p, l, a) = hits-ok m threshold n rest h e all.1 in
      let (x, q, mem) = position-memory m i h (rw (← e) (at_position i all.0)) in
      elim (Bool-cases (below (score_of m.index_type dist) threshold)) [
        | inl low ↦ (hs, rw (q, low, p) refl, omega arith, a)
        | inr fine ↦ (
          record { memory = recalled x; score = score_of m.index_type dist; distance = dist } ∷ hs,
          rw (q, fine, p) refl,
          omega arith,
          ((mem-map recalled (values m.memories) x mem, fine), a),
        )
      ]
  hits-ok m threshold n ((dist, negsuc (suc i)) ∷ rest) h e all = absurd (no-IsPosition i all.0)

  -- With an index in step and trained, as one of type "Flat" or "FlatIP" always is, a query for a
  -- positive number `k` of memories never fails: it returns at most `k` hits, each a stored memory
  -- whose score is not below the threshold.
  pub query_memory-ok :
      (m : LongTermMemory I V F) (query : String) (k : ℕ) (threshold : Option F)
      → IsFaiss faiss
      → IsParallel faiss m
      → faiss.is_trained m.index ≡ true
      → 0 < k
      → (hs : List (Hit F)) × (query_memory faiss m query k threshold ≡ ok hs)
        × (length hs ≤ k)
        × All (IsHit m threshold) hs
  unfolding query_memory
  query_memory-ok m query k threshold law h t some_k =
      elim (Bool-cases (nat_beq (length m.memories) 0)) [
        | inl p ↦ ([], rw p refl, omega arith, tt)
        | inr p ↦
            let v = embed faiss m.index_type query in
            let positive : 0 < min k (length m.memories) = ground (arith, some_k, p) in
            let (found, q, l, all) =
              law.search-positions m.index v (min k (length m.memories)) positive t in
            let (hs, r, n, a) =
              hits-ok m threshold (faiss.ntotal m.index) found h (ground (arith, h.size)) all in
            (hs, rw (p, q, r) refl, omega arith, a)
      ]
