-- ===== src/Episodes/Ready.antt =====
-- The manager's invariant with the cached memories, through the events of a tick.
use mathlib.Core.List.{Memᴰ, map-append}
use mathlib.Core.Path.{subst}
use agent_arena.Prelude.{
  ℕ, ◌≡◌, ◌≤◌, refl, sym, ap, ◌∙◌, String, List, [], map, Option, some, length, inl, inr,
  string_key, arith,
}
use agent_arena.Prelude.Dict.{get, values}
use agent_arena.Prelude.DictKeys.{values-put_fresh}
use agent_arena.Prelude.Floats.{Floats}
use agent_arena.Prelude.Int.{ℤ}
use agent_arena.Prelude.Json.{Fields, get_field, int}
use agent_arena.Prelude.Maps.{mem_left}
use agent_arena.Prelude.Result.{Result, ok}
use agent_arena.Prelude.Sort.{All, All-imp}
use agent_arena.LongTerm as LongTerm
use agent_arena.LongTerm.Valid.{init-IsParallel}
use agent_arena.LongTerm.{
  IndexType, init_index, LongTermMemory, Memory, Hit, Recalled, recalled, get_all_memories,
  store_memory, count,
}
use agent_arena.LongTerm.Queries.{IsHit}
use agent_arena.Episodes.{
  EpisodeManager, Surroundings, init, remember, store_if_novel, episode_of, query_results_k,
}
use agent_arena.Episodes.Steady.{IsSound, IsSteady, remember-IsSteady, store_if_novel-cases}

module _ {I V F : Type 0} (e : Surroundings I V F) ⦃fl : Floats F⦄ where
  -- what may be returned for a query
  abbrev pub Answers : EpisodeManager I V F → List (Hit F) → Type 0
  Answers m hs =
      (length hs ≤ query_results_k) × All (IsHit m.ltm (some e.query_similarity_threshold)) hs

  -- steady, with a cache that may be returned
  abbrev pub IsReady : EpisodeManager I V F → Type 0
  IsReady m = IsSteady e m × Answers m m.cached_memories

  -- The outcome is not an exception, and its manager is ready.
  abbrev pub GoesWell {ℓ} : {A : Type ℓ} → Result (A × EpisodeManager I V F) → Type ℓ
  GoesWell {A = A} r = (s : A × EpisodeManager I V F) × (r ≡ ok s) × IsReady s.1

  pub same-IsReady :
      (m n : EpisodeManager I V F)
      → n.ltm ≡ m.ltm
      → n.drawn ≡ m.drawn
      → n.cached_memories ≡ m.cached_memories
      → IsReady m
      → IsReady n
  same-IsReady m n l d c (s, a) = (
    record {
      parallel = rw l s.parallel;
      cosine = rw l s.cosine;
      fresh = rw (l, d) s.fresh;
      dated = rw l s.dated;
    },
    rw (l, c) a,
  )

module _ {I V F : Type 0} (e : Surroundings I V F) ⦃fl : Floats F⦄ (sound : IsSound e) where
  remember-mem :
      (text : String) (metadata : Fields F) (m : EpisodeManager I V F) (x : Recalled F)
      → IsSteady e m
      → Memᴰ x (get_all_memories m.ltm)
      → Memᴰ x (get_all_memories (remember e text metadata m).ltm)
  unfolding remember store_memory get_all_memories
  remember-mem text metadata m x h mem =
      subst (Memᴰ x)
        (sym (
          ap (map recalled)
            (values-put_fresh m.ltm.memories (e.uuid m.drawn) _ (h.fresh m.drawn (omega arith)))
          ∙ map-append recalled (values m.ltm.memories) _))
        (mem_left (map recalled (values m.ltm.memories)) _ mem)

  remember-IsReady :
      (text : String) (metadata : Fields F) (m : EpisodeManager I V F)
      → ((id : String)
          → (n : ℤ) × (episode_of (record { id = id; text = text; metadata = metadata }) ≡ ok n))
      → IsReady e m
      → IsReady e (remember e text metadata m)
  unfolding remember
  remember-IsReady text metadata m d (s, (l, a)) = (
    remember-IsSteady e sound text metadata m d s,
    (l, All-imp m.cached_memories (λ h p. (remember-mem text metadata m h.memory s p.0, p.1)) a),
  )

  -- storing a text with an episode in its metadata, if it is novel
  pub store_if_novel-IsReady :
      (text : String) (metadata : Fields F) (n : ℤ) (m : EpisodeManager I V F)
      → get_field metadata "episode" ≡ some (int n)
      → IsReady e m
      → (m' : EpisodeManager I V F) × (store_if_novel e text metadata m ≡ ok m') × IsReady e m'
  store_if_novel-IsReady text metadata n m d h =
      elim (store_if_novel-cases e sound text metadata m h.0) [
        | inl p ↦ (m, p, h)
        | inr p ↦ (
          remember e text metadata m,
          p,
          remember-IsReady text metadata m (λ id. (n, rw d refl)) h,
        )
      ]

  -- A manager over a new long-term memory of type "FlatIP" is ready.
  pub init-IsReady :
      (model : String) (dim : ℕ) (path : Option String) (l : LongTermMemory I V F)
      → LongTerm.init e.faiss model dim IndexType.flat_ip path ≡ ok l
      → IsReady e (init l)
  unfolding init LongTerm.init init_index get
  init-IsReady model dim path l h =
      let p : new_memory ≡ l = cc h in
      (
        subst (λ (z : LongTermMemory I V F). IsSteady e (init z)) p
            (record {
              parallel =
                  init-IsParallel e.faiss sound.law model dim IndexType.flat_ip path new_memory
                    refl;
              cosine = refl;
              fresh = λ i _. refl;
              dated = tt;
            }),
        (omega arith, tt),
      )
    where
      new_memory : LongTermMemory I V F
      new_memory = record {
        embedding_model_name = model;
        embedding_dim = dim;
        index_type = IndexType.flat_ip;
        persist_path = path;
        index = e.faiss.new_index IndexType.flat_ip dim;
        memories = [];
        memory_ids = [];
      }
