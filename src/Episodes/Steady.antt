-- ===== src/Episodes/Steady.antt =====
-- The manager's invariant, which storing a memory keeps.
use agent_arena.Prelude.{
  ℕ, ◌+◌, ◌≡◌, ◌≢◌, ◌≤◌, ◌⊎◌, refl, sym, ap, ◌∙◌, String, true, List, [], ◌∷◌, none, some, inl, inr,
  Bool-cases, string_key, arith, ltb, beq_ne,
}
use agent_arena.Prelude.Dict.{get, get-put}
use agent_arena.Prelude.DictKeys.{All-put}
use agent_arena.Prelude.Floats.{Floats}
use agent_arena.Prelude.Int.{ℤ}
use agent_arena.Prelude.Json.{Fields}
use agent_arena.Prelude.Result.{ok}
use agent_arena.Prelude.Sort.{All}
use agent_arena.LongTerm.{IndexType, Memory, Hit, recalled, store_memory, count, is_ivf}
use agent_arena.LongTerm.Queries.{query_memory-ok}
use agent_arena.LongTerm.Stored.{IsFaiss, IsParallel}
use agent_arena.LongTerm.Valid.{store_memory-IsParallel}
use agent_arena.Episodes.{
  EpisodeManager, Surroundings, remember, store_if_novel, unless_similar, episode_of,
}

-- FAISS does as it documents, and no identifier is drawn twice.
pub record IsSound {I V F : Type 0} (e : Surroundings I V F) : Type 0 where
  pub law : IsFaiss e.faiss
  pub distinct : (i j : ℕ) → e.uuid i ≡ e.uuid j → i ≡ j

module _ {V F : Type 0} where
  -- the memory has its episode
  abbrev pub IsDated : String × Memory V F → Type 0
  IsDated x = (n : ℤ) × (episode_of (recalled x.1) ≡ ok n)

-- The long-term memory is in step, of type "FlatIP", and every memory has its episode; no
-- identifier still to be drawn is in use.
pub record IsSteady {I V F : Type 0} (e : Surroundings I V F) (m : EpisodeManager I V F)
    : Type 0 where
  pub parallel : IsParallel e.faiss m.ltm
  pub cosine : m.ltm.index_type ≡ IndexType.flat_ip
  pub fresh : (i : ℕ) → m.drawn ≤ i → get m.ltm.memories (e.uuid i) ≡ none
  pub dated : All IsDated m.ltm.memories

module _ {I V F : Type 0} (e : Surroundings I V F) (sound : IsSound e) where
  -- the manager's state with another long-term memory and count of identifiers
  pub remember-IsSteady :
      (text : String) (metadata : Fields F) (m : EpisodeManager I V F)
      → ((id : String)
          → (n : ℤ) × (episode_of (record { id = id; text = text; metadata = metadata }) ≡ ok n))
      → IsSteady e m
      → IsSteady e (remember e text metadata m)
  unfolding remember store_memory
  remember-IsSteady text metadata m d h = record {
    parallel =
        store_memory-IsParallel e.faiss sound.law (e.uuid m.drawn) text metadata m.ltm h.parallel
          (h.fresh m.drawn (omega arith));
    cosine = h.cosine;
    fresh = λ i l.
        get-put m.ltm.memories (e.uuid m.drawn) (e.uuid i) _
        ∙ rw (beq_ne (other i l)) (h.fresh i (omega arith));
    dated = All-put IsDated m.ltm.memories (e.uuid m.drawn) _ (d (e.uuid m.drawn)) h.dated;
  }
    where
      other : (i : ℕ) → m.drawn + 1 ≤ i → e.uuid m.drawn ≢ e.uuid i
      other i l q = let p = sound.distinct m.drawn i q in omega arith

  pub IsSteady-trained :
      (m : EpisodeManager I V F) → IsSteady e m → e.faiss.is_trained m.ltm.index ≡ true
  IsSteady-trained m h = elim h.parallel.size [
    | inl (t, n) ↦ t
    | inr (t, n, ivf) ↦ absurd (cc (sym ivf ∙ ap is_ivf h.cosine))
  ]

module _ {I V F : Type 0} (e : Surroundings I V F) (sound : IsSound e) ⦃fl : Floats F⦄ where
  -- Storing a text if it is novel never raises, and either changes nothing or stores it.
  pub store_if_novel-cases :
      (text : String) (metadata : Fields F) (m : EpisodeManager I V F)
      → IsSteady e m
      → (store_if_novel e text metadata m ≡ ok m)
        ⊎ (store_if_novel e text metadata m ≡ ok (remember e text metadata m))
  unfolding store_if_novel
  store_if_novel-cases text metadata m h = elim (Bool-cases (ltb 0 (count m.ltm))) [
    | inr p ↦ inr (rw p refl)
    | inl p ↦
        let (hs, q, l, all) =
          query_memory-ok e.faiss m.ltm text 1 (some e.dedup_threshold) sound.law h.parallel
            (IsSteady-trained e sound m h) (omega arith) in
        decide hs (rw (p, q) refl)
  ]
    where
      decide :
          (hs : List (Hit F))
          → store_if_novel e text metadata m ≡ ok (unless_similar e text metadata m hs)
          → (store_if_novel e text metadata m ≡ ok m)
            ⊎ (store_if_novel e text metadata m ≡ ok (remember e text metadata m))
      decide [] q = inr q
      decide (x ∷ hs) q = inl q
