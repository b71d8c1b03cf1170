-- ===== src/Episodes/Capped.antt =====
-- `_enforce_memory_cap`.
use mathlib.Core.List.{append_assoc, append-nil, map-append}
use agent_arena.Prelude.{
  ℕ, ◌-◌, ◌≡◌, ◌≤◌, ◌<◌, refl, sym, ap, ◌∙◌, String, List, [], ◌∷◌, ◌++◌, map, length, leb, drop,
  length-drop, min, inl, inr, Bool-cases, string_key, arith,
}
use agent_arena.Prelude.Dict.{Dict, get, values}
use agent_arena.Prelude.DictKeys.{values-put_fresh}
use agent_arena.Prelude.Int.{ℤ}
use agent_arena.Prelude.Json.{Fields}
use agent_arena.Prelude.Maps.{length-map, length-sort_by, All-sort_by, All-drop}
use agent_arena.Prelude.Result.{ok}
use agent_arena.Prelude.Sort.{All, sort_by}
use agent_arena.LongTerm.{
  LongTermMemory, Memory, Recalled, recalled, get_all_memories, count, clear_memories, init_index,
  store_memory,
}
use agent_arena.LongTerm.Valid.{clear_memories-IsParallel}
use agent_arena.Episodes.{
  EpisodeManager, Surroundings, remember, remember_all, enforce_memory_cap, episode_of,
  with_episodes, by_episode,
}
use agent_arena.Episodes.Steady.{IsSound, IsSteady, IsDated, remember-IsSteady}

module _ {F : Type 0} where
  -- what a memory tells, without its identifier
  abbrev pub content : Recalled F → String × Fields F
  content x = (x.text, x.metadata)

  abbrev HasEpisode : ℤ × Recalled F → Type 0
  HasEpisode x = episode_of x.1 ≡ ok x.0

module _ {I V F : Type 0} where
  -- what the memories tell, the oldest first
  abbrev pub contents : EpisodeManager I V F → List (String × Fields F)
  contents m = map content (get_all_memories m.ltm)

module _ {V F : Type 0} where
  episodes-ok :
      (d : Dict String (Memory V F))
      → All IsDated d
      → (all : List (ℤ × Recalled F)) × (with_episodes (map recalled (values d)) ≡ ok all)
        × (length all ≡ length d)
        × All HasEpisode all
  unfolding with_episodes
  episodes-ok [] h = ([], refl, refl, tt)
  episodes-ok ((k, x) ∷ d) h =
      let (n, p) = h.0 in
      let (all, q, l, a) = episodes-ok d h.1 in
      ((n, recalled x) ∷ all, rw (p, q) refl, omega arith, (p, a))

module _ {I V F : Type 0} (e : Surroundings I V F) (sound : IsSound e) where
  remember-contents :
      (text : String) (metadata : Fields F) (m : EpisodeManager I V F)
      → IsSteady e m
      → contents (remember e text metadata m) ≡ contents m ++ (text, metadata) ∷ []
  unfolding remember store_memory get_all_memories
  remember-contents text metadata m h =
      ap (λ (xs : List (Memory V F)). map content (map recalled xs))
        (values-put_fresh m.ltm.memories (e.uuid m.drawn) _ (h.fresh m.drawn (omega arith)))
      ∙ ap (map content) (map-append recalled (values m.ltm.memories) _)
      ∙ map-append content (map recalled (values m.ltm.memories)) _

  remember_all-ok :
      (xs : List (ℤ × Recalled F)) (m : EpisodeManager I V F)
      → All HasEpisode xs
      → IsSteady e m
      → IsSteady e (remember_all e xs m)
        × (contents (remember_all e xs m) ≡ contents m ++ map (λ x. content x.1) xs)
  unfolding remember_all
  remember_all-ok [] m a h = (h, sym (append-nil _))
  remember_all-ok ((n, x) ∷ xs) m a h =
      let r = remember e x.text x.metadata m in
      let s = remember-IsSteady e sound x.text x.metadata m (λ id. (n, a.0)) h in
      let (t, c) = remember_all-ok xs r a.1 s in
      (t, c ∙ rw (remember-contents x.text x.metadata m h) (append_assoc (contents m) _ _))

  count-contents : (m : EpisodeManager I V F) → length (contents m) ≡ count m.ltm
  unfolding count get_all_memories
  count-contents m =
      length-map content (map recalled (values m.ltm.memories))
      ∙ length-map recalled (values m.ltm.memories)
      ∙ length-map (λ x. x.1) m.ltm.memories

  cleared-ok :
      (m : EpisodeManager I V F)
      → IsSteady e m
      → (l : LongTermMemory I V F) × (clear_memories e.faiss m.ltm ≡ ok l)
        × IsSteady e (record m { ltm = l })
        × (contents (record m { ltm = l }) ≡ [])
  unfolding clear_memories init_index get_all_memories get
  cleared-ok m h =
      let l : LongTermMemory I V F = record m.ltm {
        index = e.faiss.new_index m.ltm.index_type m.ltm.embedding_dim;
        memories = [];
        memory_ids = [];
      } in
      let p : clear_memories e.faiss m.ltm ≡ ok l = rw h.cosine refl in
      (
        l,
        p,
        record {
          parallel = clear_memories-IsParallel e.faiss sound.law m.ltm l p;
          cosine = h.cosine;
          fresh = λ i _. refl;
          dated = tt;
        },
        refl,
      )

  episodes :
      (n : EpisodeManager I V F)
      → IsSteady e n
      → (all : List (ℤ × Recalled F)) × (with_episodes (get_all_memories n.ltm) ≡ ok all)
        × (length all ≡ count n.ltm)
        × All HasEpisode all
  unfolding get_all_memories count
  episodes n g = episodes-ok n.ltm.memories g.dated

  -- With a steady manager, enforcing the cap never raises and leaves a steady one, with as many
  -- memories as before, or as many as the cap if that is less. Below the cap nothing changes; above
  -- it, the memories left are those with the highest episode numbers, in the order of these, in
  -- which memories of one episode keep theirs.
  pub enforce_memory_cap-ok :
      (m : EpisodeManager I V F)
      → IsSteady e m
      → (m' : EpisodeManager I V F) × (enforce_memory_cap e m ≡ ok m')
        × IsSteady e m'
        × (count m'.ltm ≡ min (count m.ltm) e.max_memories)
        × (count m.ltm ≤ e.max_memories → m' ≡ m)
        × (e.max_memories < count m.ltm
            → (all : List (ℤ × Recalled F)) × (with_episodes (get_all_memories m.ltm) ≡ ok all)
              × (contents m'
                  ≡ map
                      (λ x. content x.1)
                      (drop (count m.ltm - e.max_memories) (sort_by by_episode all))))
  unfolding enforce_memory_cap
  enforce_memory_cap-ok m h = elim (Bool-cases (leb (count m.ltm) e.max_memories)) [
    | inl p ↦ (m, rw p refl, h, ground arith, λ _. refl, λ q. absurd (ground arith))
    | inr p ↦
        let (all, q, l, a) = episodes m h in
        let (c, r, s, n) = cleared-ok m h in
        let left = drop (count m.ltm - e.max_memories) (sort_by by_episode all) in
        let (t, k) =
          remember_all-ok left (record m { ltm = c })
            (All-drop HasEpisode (count m.ltm - e.max_memories) (sort_by by_episode all)
              (All-sort_by by_episode HasEpisode all a))
            s in
        let k' : contents (remember_all e left (record m { ltm = c }))
            ≡ map (λ x. content x.1) left =
          k ∙ ap (λ (ys : List (String × Fields F)). ys ++ map (λ x. content x.1) left) n in
        let size : length left ≡ count m.ltm - (count m.ltm - e.max_memories) =
          length-drop (count m.ltm - e.max_memories) (sort_by by_episode all)
          ∙ ap (λ (i : ℕ). i - (count m.ltm - e.max_memories))
              (length-sort_by by_episode all ∙ l) in
        (
          remember_all e left (record m { ltm = c }),
          rw (p, q, r) refl,
          t,
          sym (count-contents (remember_all e left (record m { ltm = c })))
              ∙ ap length k'
              ∙ length-map (λ x. content x.1) left
              ∙ size
              ∙ ground arith,
          λ fits. absurd (ground arith),
          λ _. (all, q, k'),
        )
  ]
