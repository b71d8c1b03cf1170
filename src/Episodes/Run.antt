-- ===== src/Episodes/Run.antt =====
-- The manager through the ticks of its life, as the example of its class calls it.
use agent_arena.Prelude.{
  ◌≡◌, refl, String, List, [], ◌∷◌, ◌++◌, some, length, leb, nat_beq, inl, inr, Bool-cases,
  Option-cases, string_key, arith,
}
use agent_arena.Prelude.DictKeys.{contains}
use agent_arena.Prelude.Floats.{Floats}
use agent_arena.Prelude.Int.{ℤ, pos}
use agent_arena.Prelude.Json.{Fields, get_field, int}
use agent_arena.Prelude.Result.{ok}
use agent_arena.LongTerm.{Hit, count}
use agent_arena.LongTerm.Queries.{query_memory-ok}
use agent_arena.Schemas.Observation.{Observation}
use agent_arena.Schemas.Percepts.{HazardInfo}
use agent_arena.Episodes.{EpisodeManager, Surroundings, query_results_k, resource_cluster_min}
use agent_arena.Episodes.Events.{
  Thresholds, tell, check_hazard, check_hazards, check_cluster, check_damage, check_key_events,
  is_fresh, query_relevant_memories, note_tick, track_inventory, damage_text, discovered, hurt,
}
use agent_arena.Episodes.Ready.{Answers, IsReady, GoesWell, same-IsReady, store_if_novel-IsReady}
use agent_arena.Episodes.Steady.{IsSound, IsSteady-trained}
use agent_arena.Episodes.Texts.{Format, build_situation_query, detect_resource_cluster}

module _ {I V F : Type 0} (e : Surroundings I V F) (f : Format F) ⦃fl : Floats F⦄
    (sound : IsSound e) where
  tell-well :
      (text : String) (metadata : Fields F) (n : ℤ) (events : List String)
      (m : EpisodeManager I V F)
      → get_field metadata "episode" ≡ some (int n)
      → IsReady e m
      → GoesWell e (tell e f text metadata (events, m))
  unfolding tell
  tell-well text metadata n events m d h =
      let (m', p, r) = store_if_novel-IsReady e sound text metadata n m d h in
      ((events ++ text ∷ [], m'), rw p refl, r)

  hazard-well :
      (h : HazardInfo F) (s : List String × EpisodeManager I V F)
      → IsReady e s.1
      → GoesWell e (check_hazard e f h s)
  unfolding check_hazard get_field
  hazard-well h (events, m) r = elim (Bool-cases (contains m.known_hazard_types h.kind)) [
    | inl p ↦ ((events, m), rw p refl, r)
    | inr p ↦ rw p (
        tell-well _ _ (pos m.episode_number) events _ refl
          (same-IsReady e m (discovered e f h m) refl refl refl r))
  ]

  hazards-well :
      (hs : List (HazardInfo F)) (s : List String × EpisodeManager I V F)
      → IsReady e s.1
      → GoesWell e (check_hazards e f hs s)
  unfolding check_hazards
  hazards-well [] s r = (s, refl, r)
  hazards-well (h ∷ hs) s r = let (s', p, r') = hazard-well h s r in rw p (hazards-well hs s' r')

  cluster-well :
      (t : Thresholds F) (o : Observation F) (s : List String × EpisodeManager I V F)
      → IsReady e s.1
      → GoesWell e (check_cluster e f t o s)
  unfolding check_cluster get_field
  cluster-well t o (events, m) r =
      elim (Bool-cases (leb resource_cluster_min (length o.nearby_resources))) [
        | inr p ↦ ((events, m), rw p refl, r)
        | inl p ↦ rw p (elim (Option-cases (detect_resource_cluster f t.cluster_radius o)) [
          | inl q ↦ rw q ((events, m), refl, r)
          | inr (text, q) ↦ rw q (tell-well text _ (pos m.episode_number) events m refl r)
        ])
      ]

  damage-well :
      (t : Thresholds F) (o : Observation F) (s : List String × EpisodeManager I V F)
      → IsReady e s.1
      → GoesWell e (check_damage e f t o s)
  unfolding check_damage get_field
  damage-well t o (events, m) r =
      let damage = fl.sub m.prev_health o.health in
      let r' = same-IsReady e m (hurt e f damage m) refl refl refl r in
      elim (Bool-cases (fl.lt t.significant_damage damage)) [
        | inl p ↦ rw p (
            tell-well (damage_text e f damage o m) _ (pos m.episode_number) events
              (hurt e f damage m) refl r')
        | inr p ↦ rw p (elim (Bool-cases (fl.lt (fl.of_int (pos 0)) damage)) [
          | inl q ↦ ((events, hurt e f damage m), rw q refl, r')
          | inr q ↦ ((events, m), rw q refl, r)
        ])
      ]

  pub events-well :
      (t : Thresholds F) (o : Observation F) (m : EpisodeManager I V F)
      → IsReady e m
      → GoesWell e (check_key_events e f t o m)
  unfolding check_key_events note_tick track_inventory
  events-well t o m r =
      let (s1, p1, r1) =
        hazards-well o.nearby_hazards ([], note_tick o m)
          (same-IsReady e m (note_tick o m) refl refl refl r) in
      let (s2, p2, r2) = cluster-well t o s1 r1 in
      let (s3, p3, r3) = damage-well t o s2 r2 in
      (
        (s3.0, track_inventory o s3.1),
        rw (p1, p2, p3) refl,
        same-IsReady e s3.1 (track_inventory o s3.1) refl refl refl r3,
      )

  pub query-well :
      (o : Observation F) (m : EpisodeManager I V F)
      → IsReady e m
      → (s : List (Hit F) × EpisodeManager I V F) × (query_relevant_memories e f o m ≡ ok s)
        × IsReady e s.1
        × Answers e s.1 s.0
  unfolding query_relevant_memories
  query-well o m (s, a) = elim (Bool-cases (is_fresh e f o m)) [
    | inl p ↦ ((m.cached_memories, m), rw p refl, (s, a), a)
    | inr p ↦ rw p (elim (Bool-cases (nat_beq (count m.ltm) 0)) [
      | inl q ↦ (([], m), rw q refl, (s, a), (omega arith, tt))
      | inr q ↦
          let (hs, w, l, all) =
            query_memory-ok e.faiss m.ltm (build_situation_query f o) query_results_k
              (some e.query_similarity_threshold) sound.law s.parallel
              (IsSteady-trained e sound m s) (omega arith) in
          let m' : EpisodeManager I V F = record m {
            cached_memories = hs;
            cache_tick = pos o.tick;
          } in
          (
            (hs, m'),
            rw (q, w) refl,
            (
              record { parallel = s.parallel; cosine = s.cosine; fresh = s.fresh; dated = s.dated },
              (l, all),
            ),
            (l, all),
          )
    ])
  ]
