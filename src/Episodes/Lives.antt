-- ===== src/Episodes/Lives.antt =====
-- The manager over the ticks of many episodes, as the example of its class calls it.
use agent_arena.Prelude.{
  ◌≡◌, ◌≤◌, refl, false, List, [], ◌∷◌, length, inl, inr, Bool-cases, string_key, arith,
  if◌then◌else◌,
}
use agent_arena.Prelude.Floats.{Floats}
use agent_arena.Prelude.Int.{pos}
use agent_arena.Prelude.Json.{get_field}
use agent_arena.Prelude.Result.{Result, ok, ◌>>=◌}
use agent_arena.Prelude.Sort.{All, All-imp}
use agent_arena.LongTerm.{Hit, count}
use agent_arena.Schemas.Observation.{Observation}
use agent_arena.Episodes.{EpisodeManager, Surroundings, check_episode_boundary, on_episode_start}
use agent_arena.Episodes.Capped.{enforce_memory_cap-ok}
use agent_arena.Episodes.Endings.{
  Learning, conclude, store_learnings, build_episode_summary, summary_metadata, extract_learnings,
  learning_metadata,
}
use agent_arena.Episodes.Events.{Thresholds, check_key_events, query_relevant_memories}
use agent_arena.Episodes.Ready.{Answers, IsReady, same-IsReady, store_if_novel-IsReady}
use agent_arena.Episodes.Run.{events-well, query-well}
use agent_arena.Episodes.Steady.{IsSound, IsSteady}
use agent_arena.Episodes.Texts.{Format}

module _ {I V F : Type 0} (e : Surroundings I V F) (f : Format F) ⦃fl : Floats F⦄ where
  -- `if manager.check_episode_boundary(obs): on_episode_end(last_obs); on_episode_start(obs)`
  unfoldable pub enter :
      Observation F → Observation F → EpisodeManager I V F → Result (EpisodeManager I V F)
  unfolding check_episode_boundary conclude on_episode_start
  enter last_obs o m =
      let (ended, m1) = check_episode_boundary o m in
      if ended then (conclude e f last_obs m1 >>= λ m2. ok (on_episode_start o m2)) else ok m1

  -- one tick: the boundary, the key events, the query
  unfoldable pub live :
      Thresholds F
      → Observation F
      → Observation F
      → EpisodeManager I V F
      → Result (List (Hit F) × EpisodeManager I V F)
  unfolding enter check_key_events query_relevant_memories
  live t last_obs o m = do
    m1 ← enter last_obs o m
    s ← check_key_events e f t o m1
    query_relevant_memories e f o s.1

  -- The ticks of a life, with the memories that each query returns.
  unfoldable pub live_all :
      Thresholds F
      → Observation F
      → List (Observation F)
      → EpisodeManager I V F
      → Result (List (List (Hit F)) × EpisodeManager I V F)
  unfolding live
  live_all t last_obs [] m = ok ([], m)
  live_all t last_obs (o ∷ os) m = do
    s ← live t last_obs o m
    rest ← live_all t o os s.1
    ok (s.0 ∷ rest.0, rest.1)

module _ {I V F : Type 0} (e : Surroundings I V F) (f : Format F) ⦃fl : Floats F⦄
    (sound : IsSound e) where
  learnings-well :
      (ls : List Learning) (m : EpisodeManager I V F)
      → IsReady e m
      → (m' : EpisodeManager I V F) × (store_learnings e ls m ≡ ok m') × IsReady e m'
  unfolding store_learnings get_field
  learnings-well [] m r = (m, refl, r)
  learnings-well (l ∷ ls) m r =
      let (m1, p, r1) =
        store_if_novel-IsReady e sound l.text (learning_metadata e l.category m)
          (pos m.episode_number) m refl r in
      rw p (learnings-well ls m1 r1)

  -- With a ready manager, ending an episode never raises; it leaves a steady manager with no more
  -- memories than the cap.
  pub conclude-ok :
      (o : Observation F) (m : EpisodeManager I V F)
      → IsReady e m
      → (m' : EpisodeManager I V F) × (conclude e f o m ≡ ok m')
        × IsSteady e m'
        × (count m'.ltm ≤ e.max_memories)
  unfolding conclude get_field
  conclude-ok o m r =
      let (m1, p1, r1) =
        store_if_novel-IsReady e sound (build_episode_summary f o m) (summary_metadata o m)
          (pos m.episode_number) m refl r in
      let (m2, p2, r2) = learnings-well (extract_learnings f o m1) m1 r1 in
      let c = enforce_memory_cap-ok e sound m2 r2.0 in
      (c.0, rw (p1, p2) c.1, c.2, ground (arith, c.3))

  moved :
      (o : Observation F) (m : EpisodeManager I V F)
      → IsReady e m
      → IsReady e (check_episode_boundary o m).1
  unfolding check_episode_boundary
  moved o m r = same-IsReady e m (record m { prev_tick = pos o.tick }) refl refl refl r

  enter-ok :
      (last_obs o : Observation F) (m : EpisodeManager I V F)
      → IsReady e m
      → (m' : EpisodeManager I V F) × (enter e f last_obs o m ≡ ok m') × IsReady e m'
  unfolding enter on_episode_start
  enter-ok last_obs o m r =
      let b = check_episode_boundary o m in
      let r1 : IsReady e b.1 = moved o m r in
      elim (Bool-cases b.0) [
        | inr p ↦ (b.1, rw p refl, r1)
        | inl p ↦
            let (m2, q, s, n) = conclude-ok last_obs b.1 r1 in
            (
              on_episode_start o m2,
              rw (p, q) refl,
              (
                record {
                  parallel = s.parallel;
                  cosine = s.cosine;
                  fresh = s.fresh;
                  dated = s.dated;
                },
                (omega arith, tt),
              ),
            )
      ]

  live-ok :
      (t : Thresholds F) (last_obs o : Observation F) (m : EpisodeManager I V F)
      → IsReady e m
      → (s : List (Hit F) × EpisodeManager I V F) × (live e f t last_obs o m ≡ ok s)
        × IsReady e s.1
        × Answers e s.1 s.0
  unfolding live
  live-ok t last_obs o m r =
      let (m1, p1, r1) = enter-ok last_obs o m r in
      let (s2, p2, r2) = events-well e f sound t o m1 r1 in
      let (s3, p3, r3, a) = query-well e f sound o s2.1 r2 in (s3, rw (p1, p2) p3, r3, a)

  -- From a ready manager, whatever is observed at the ticks of however many episodes, no tick
  -- raises, on floats whose squares do not overflow, and the manager stays ready. Every query
  -- returns at most QUERY_RESULTS_K memories, each scored no lower than the threshold.
  pub live_all-ok :
      (t : Thresholds F) (os : List (Observation F)) (last_obs : Observation F)
      (m : EpisodeManager I V F)
      → IsReady e m
      → (s : List (List (Hit F)) × EpisodeManager I V F) × (live_all e f t last_obs os m ≡ ok s)
        × IsReady e s.1
        × All
            (λ hs.
              (length hs ≤ 3) × All (λ h. fl.lt h.score e.query_similarity_threshold ≡ false) hs)
            s.0
  unfolding live_all
  live_all-ok t [] last_obs m r = (([], m), refl, r, tt)
  live_all-ok t (o ∷ os) last_obs m r =
      let (s, p, r1, a) = live-ok t last_obs o m r in
      let (rest, q, r2, b) = live_all-ok t os o s.1 r1 in
      ((s.0 ∷ rest.0, rest.1), rw (p, q) refl, r2, ((a.0, All-imp s.0 (λ h x. x.1) a.1), b))
