-- ===== src/LongTerm/Valid.antt =====
-- The operations of the long-term memory and its identifiers, memories and index.
use mathlib.Core.Path.{subst}
use agent_arena.Prelude.{
  leb, ℕ, ◌+◌, ◌≡◌, ◌⊎◌, refl, sym, ap, ◌∙◌, String, true, false, List, [], ◌∷◌, ◌++◌, Option, none,
  length, string_key, inl, inr, Bool-cases, arith,
}
use agent_arena.Prelude.Dict.{get, keys, values, put-IsDict, length-put}
use agent_arena.Prelude.DictKeys.{keys-put_fresh}
use agent_arena.Prelude.Json.{Fields}
use agent_arena.Prelude.Maps.{length-map}
use agent_arena.Prelude.Result.{ok, Result-cases}
use agent_arena.LongTerm.{
  IndexType, Faiss, Memory, LongTermMemory, init_index, init, nlist_of, embed, embeddings, add_all,
  added, train_if_needed, store_memory, clear_memories, is_ivf,
}
use agent_arena.LongTerm.Stored.{IsFaiss, IsParallel}

module _ {I V F : Type 0} (faiss : Faiss I V F) (law : IsFaiss faiss) where
  add_all-ntotal :
      (vs : List V) (i : I)
      → (faiss.ntotal (add_all faiss vs i) ≡ faiss.ntotal i + length vs)
        × (faiss.is_trained (add_all faiss vs i) ≡ faiss.is_trained i)
  add_all-ntotal [] i = (omega arith, refl)
  add_all-ntotal (v ∷ vs) i =
      let r = add_all-ntotal vs (faiss.add v i) in
      let n = law.ntotal-add v i in (omega arith, r.1 ∙ law.trained-add v i)

  new-IsParallel :
      (t : IndexType) (dim : ℕ) (m : LongTermMemory I V F)
      → m.index ≡ faiss.new_index t dim
      → m.index_type ≡ t
      → m.memories ≡ []
      → m.memory_ids ≡ []
      → IsParallel faiss m
  new-IsParallel t dim m i e d l = record {
    ids = l ∙ ap keys (sym d);
    distinct = rw d tt;
    size =
        rw (i, e, d)
          (elim (Bool-cases (faiss.is_trained (faiss.new_index t dim))) [
            | inl p ↦ inl (p, law.ntotal-new t dim)
            | inr p ↦ inr (p, law.ntotal-new t dim, ground (arith, law.trained-new t dim))
          ]);
  }

  init_index-new :
      (t : IndexType) (dim : ℕ) (i : I) → init_index faiss t dim ≡ ok i → i ≡ faiss.new_index t dim
  unfolding init_index
  init_index-new IndexType.flat dim i h = cc h
  init_index-new IndexType.flat_ip dim i h = cc h
  init_index-new (IndexType.ivf n) dim i h = cc h
  init_index-new (IndexType.ivf_malformed s) dim i h = absurd (cc h)
  init_index-new (IndexType.unsupported s) dim i h = absurd (cc h)

  -- A new memory is in step.
  pub init-IsParallel :
      (model : String) (dim : ℕ) (t : IndexType) (path : Option String) (m : LongTermMemory I V F)
      → init faiss model dim t path ≡ ok m
      → IsParallel faiss m
  unfolding init
  init-IsParallel model dim t path m h = elim (Result-cases (init_index faiss t dim)) [
    | inr (e, p) ↦ absurd (cc (rw p at h))
    | inl (i, p) ↦ subst (IsParallel faiss) (cc (rw p at h)) (
        new-IsParallel t dim
          (record {
            embedding_model_name = model;
            embedding_dim = dim;
            index_type = t;
            persist_path = path;
            index = i;
            memories = [];
            memory_ids = [];
          })
          (init_index-new t dim i p) refl refl refl)
  ]

  -- The index after a memory is stored.
  stored-size :
      (v : V) (m : LongTermMemory I V F)
      → IsParallel faiss m
      → ((faiss.is_trained (added faiss m.index_type v (train_if_needed faiss v m)) ≡ true)
          × (faiss.ntotal (added faiss m.index_type v (train_if_needed faiss v m))
              ≡ length m.memories + 1))
        ⊎ ((faiss.is_trained (added faiss m.index_type v (train_if_needed faiss v m)) ≡ false)
            × (faiss.ntotal (added faiss m.index_type v (train_if_needed faiss v m)) ≡ 0)
            × (is_ivf m.index_type ≡ true))
  unfolding train_if_needed
  stored-size v m h =
      let vs = embeddings faiss m in
      let i = faiss.train (vs ++ v ∷ []) m.index in
      let r = add_all-ntotal vs i in
      let l : length vs ≡ length m.memories =
        length-map (λ x. x.embedding) (values m.memories) ∙ length-map (λ e. e.1) m.memories in
      let trained : faiss.is_trained (add_all faiss vs i) ≡ true = r.1 ∙ law.trained-train _ _ in
      let trained_add : faiss.is_trained (faiss.add v (add_all faiss vs i)) ≡ true =
        law.trained-add v _ ∙ trained in
      let a = law.ntotal-add v (add_all faiss vs i) in
      let n0 = law.ntotal-train (vs ++ v ∷ []) m.index in
      let grows : (faiss.is_trained m.index ≡ true) × (faiss.ntotal m.index ≡ length m.memories)
          → (faiss.is_trained (faiss.add v m.index) ≡ true)
            × (faiss.ntotal (faiss.add v m.index) ≡ length m.memories + 1) =
        λ (t, n). (law.trained-add v m.index ∙ t, law.ntotal-add v m.index ∙ omega arith) in
      elim h.size [
        | inl (t, n) ↦ elim (Bool-cases (is_ivf m.index_type)) [
          | inl e ↦ inl (rw (e, t, t) (grows (t, n)))
          | inr e ↦ inl (rw e (grows (t, n)))
        ]
        | inr (t, n, e) ↦ elim (Bool-cases (leb (nlist_of m.index_type) (length m.memories + 1))) [
          | inl p ↦ inl (rw (e, t, p, trained) (trained_add, omega arith))
          | inr p ↦ inr (rw (e, t, p, t) (t, n, refl))
        ]
      ]

  -- Storing a memory under a new identifier keeps a long-term memory in step, whether or not its
  -- index is trained, or is trained then.
  pub store_memory-IsParallel :
      (memory_id text : String) (metadata : Fields F) (m : LongTermMemory I V F)
      → IsParallel faiss m
      → get m.memories memory_id ≡ none
      → IsParallel faiss (store_memory faiss memory_id text metadata m).1
  unfolding store_memory
  store_memory-IsParallel memory_id text metadata m h new =
      let v = embed faiss m.index_type text in
      let x : Memory V F = record {
        id = memory_id;
        text = text;
        embedding = v;
        metadata = metadata;
      } in
      let s = stored-size v m h in
      record {
        ids =
            ap (λ (ks : List String). ks ++ memory_id ∷ []) h.ids
            ∙ sym (keys-put_fresh m.memories memory_id x new);
        distinct = put-IsDict m.memories memory_id x h.distinct;
        size = rw (length-put m.memories memory_id x, new) s;
      }

  pub clear_memories-IsParallel :
      (m n : LongTermMemory I V F) → clear_memories faiss m ≡ ok n → IsParallel faiss n
  unfolding clear_memories
  clear_memories-IsParallel m n h =
      elim (Result-cases (init_index faiss m.index_type m.embedding_dim)) [
        | inr (e, p) ↦ absurd (cc (rw p at h))
        | inl (i, p) ↦ subst (IsParallel faiss) (cc (rw p at h)) (
            new-IsParallel m.index_type m.embedding_dim
              (record m { index = i; memories = []; memory_ids = [] })
              (init_index-new m.index_type m.embedding_dim i p) refl refl refl)
      ]
