-- ===== src/LongTerm/Stored.antt =====
-- What FAISS documents of an index, and the memories in step with it.
use agent_arena.Prelude.{ℕ, zero, suc, true, false, ◌≡◌, ◌≤◌, ◌<◌, ◌⊎◌, List, length, string_key}
use agent_arena.Prelude.Dict.{keys, IsDict}
use agent_arena.Prelude.Sort.{All}
use agent_arena.Prelude.Int.{ℤ, pos, negsuc}
use agent_arena.Prelude.Result.{ok}
use agent_arena.LongTerm.{IndexType, Faiss, LongTermMemory, is_ivf}

-- A position that `search` may give: -1, or that of a vector of the index.
pub data IsPosition (n : ℕ) : ℤ → Type 0 where
  missing : IsPosition n (negsuc zero)
  present : (i : ℕ) → i < n → IsPosition n (pos i)

-- A new index is empty, and only one of type "IVF" has to be trained; training keeps the number of
-- vectors and `add` adds one; `search` of a trained index, for a positive `k` as FAISS requires it,
-- gives at most `k` positions.
pub record IsFaiss {I V F : Type 0} (faiss : Faiss I V F) : Type 0 where
  pub ntotal-new : (t : IndexType) (dim : ℕ) → faiss.ntotal (faiss.new_index t dim) ≡ 0
  pub trained-new :
      (t : IndexType) (dim : ℕ) → is_ivf t ≡ false → faiss.is_trained (faiss.new_index t dim) ≡ true
  pub ntotal-train : (vs : List V) (i : I) → faiss.ntotal (faiss.train vs i) ≡ faiss.ntotal i
  pub trained-train : (vs : List V) (i : I) → faiss.is_trained (faiss.train vs i) ≡ true
  pub ntotal-add : (v : V) (i : I) → faiss.ntotal (faiss.add v i) ≡ suc (faiss.ntotal i)
  pub trained-add : (v : V) (i : I) → faiss.is_trained (faiss.add v i) ≡ faiss.is_trained i
  pub search-positions :
      (i : I) (v : V) (k : ℕ)
      → 0 < k
      → faiss.is_trained i ≡ true
      → (found : List (F × ℤ)) × (faiss.search i v k ≡ ok found)
        × (length found ≤ k)
        × All (λ p. IsPosition (faiss.ntotal i) p.1) found

-- The identifiers are the keys of the memories, in their order. A trained index has one vector for
-- each, one that is not trained, of type "IVF" only, has none.
pub record IsParallel {I V F : Type 0} (faiss : Faiss I V F) (m : LongTermMemory I V F)
    : Type 0 where
  pub ids : m.memory_ids ≡ keys m.memories
  pub distinct : IsDict m.memories
  pub size :
      ((faiss.is_trained m.index ≡ true) × (faiss.ntotal m.index ≡ length m.memories))
      ⊎ ((faiss.is_trained m.index ≡ false)
          × (faiss.ntotal m.index ≡ 0)
          × (is_ivf m.index_type ≡ true))
