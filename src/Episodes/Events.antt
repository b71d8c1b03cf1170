-- ===== src/Episodes/Events.antt =====
-- `check_key_events` and `query_relevant_memories`.
use agent_arena.Prelude.{
  ℕ, String, Bool, true, false, not, ◌&&◌, List, [], ◌∷◌, ◌++◌, ◌++ₛ◌, Option, none, some, length,
  leb, nat_beq, if◌then◌else◌, string_key,
}
use agent_arena.Prelude.DictKeys.{contains, add_key}
use agent_arena.Prelude.Floats.{Floats}
use agent_arena.Prelude.Int.{pos, ◌+ℤ◌, ◌-ℤ◌}
use agent_arena.Prelude.IntRange.{int_leb}
use agent_arena.Prelude.Json.{Fields, str, int, float, done, field}
use agent_arena.Prelude.Result.{Result, ok, ◌>>=◌}
use agent_arena.LongTerm.{Hit, count}
use agent_arena.LongTerm.Found.{query_memory}
use agent_arena.Schemas.{position_to_list}
use agent_arena.Schemas.Percepts.{HazardInfo}
use agent_arena.Schemas.Observation.{Observation}
use agent_arena.Episodes.{
  EpisodeManager, Surroundings, store_if_novel, total_quantity, resource_cluster_min,
  query_results_k, query_every_n_ticks,
}
use agent_arena.Episodes.Texts.{
  Format, at_position, hazard_text, build_situation_query, detect_resource_cluster,
}

-- The thresholds of the events: RESOURCE_CLUSTER_RADIUS and SIGNIFICANT_DAMAGE_THRESHOLD.
pub record Thresholds (F : Type 0) : Type 0 where
  pub cluster_radius : F
  pub significant_damage : F

module _ {F : Type 0} where
  -- `{"type": kind, "episode": n, ...}`
  abbrev pub event_metadata : String → ℕ → Fields F → Fields F
  event_metadata kind episode rest =
      field "type" (str kind) (field "episode" (int (pos episode)) rest)

module _ {I V F : Type 0} (e : Surroundings I V F) (f : Format F) ⦃fl : Floats F⦄ where
  -- a text stored, if it is novel, and told
  unfoldable pub tell :
      String
      → Fields F
      → List String × EpisodeManager I V F
      → Result (List String × EpisodeManager I V F)
  unfolding store_if_novel
  tell text metadata (events, m) =
      store_if_novel e text metadata m >>= λ m'. ok (events ++ text ∷ [], m')

  abbrev pub discovered : HazardInfo F → EpisodeManager I V F → EpisodeManager I V F
  discovered h m = record m {
    known_hazard_types = add_key m.known_hazard_types h.kind;
    episode_hazard_types_seen = add_key m.episode_hazard_types_seen h.kind;
  }

  -- 1. new hazard types
  unfoldable pub check_hazard :
      HazardInfo F
      → List String × EpisodeManager I V F
      → Result (List String × EpisodeManager I V F)
  unfolding tell hazard_text contains add_key
  check_hazard h (events, m) =
      if contains m.known_hazard_types h.kind
      then ok (events, m)
      else tell (hazard_text f h)
          (event_metadata "hazard_discovery" m.episode_number (
            field "hazard_type" (str h.kind) (field "position" (position_to_list h.position) done)))
          (events, discovered h m)

  unfoldable pub check_hazards :
      List (HazardInfo F)
      → List String × EpisodeManager I V F
      → Result (List String × EpisodeManager I V F)
  unfolding check_hazard
  check_hazards [] s = ok s
  check_hazards (h ∷ hs) s = check_hazard h s >>= check_hazards hs

  abbrev pub tell_cluster :
      Observation F
      → Option String
      → List String × EpisodeManager I V F
      → Result (List String × EpisodeManager I V F)
  tell_cluster o none s = ok s
  tell_cluster o (some text) (events, m) =
      tell text
        (event_metadata "resource_cluster" m.episode_number
          (field "position" (position_to_list o.position) done))
        (events, m)

  -- 2. a cluster of resources
  unfoldable pub check_cluster :
      Thresholds F
      → Observation F
      → List String × EpisodeManager I V F
      → Result (List String × EpisodeManager I V F)
  unfolding tell detect_resource_cluster
  check_cluster t o s =
      if leb resource_cluster_min (length o.nearby_resources)
      then tell_cluster o (detect_resource_cluster f t.cluster_radius o) s
      else ok s

  -- `min(hazards, key=lambda h: h.distance)`: the first of the closest
  abbrev pub closest_hazard : HazardInfo F → List (HazardInfo F) → HazardInfo F
  closest_hazard h [] = h
  closest_hazard h (k ∷ ks) = closest_hazard (if fl.lt k.distance h.distance then k else h) ks

  abbrev nearest_text : List (HazardInfo F) → String
  nearest_text [] = ""
  nearest_text (h ∷ hs) =
      let closest = closest_hazard h hs in
      " Nearest hazard: "
      ++ₛ closest.name
      ++ₛ " ("
      ++ₛ closest.kind
      ++ₛ ") at dist "
      ++ₛ f.fixed 1 closest.distance
      ++ₛ "."

  unfoldable pub damage_text : F → Observation F → EpisodeManager I V F → String
  damage_text damage o m =
      "Took "
      ++ₛ f.fixed 0 damage
      ++ₛ " damage at position "
      ++ₛ at_position f o.position
      ++ₛ " (health dropped from "
      ++ₛ f.fixed 0 m.prev_health
      ++ₛ " to "
      ++ₛ f.fixed 0 o.health
      ++ₛ ")."
      ++ₛ nearest_text o.nearby_hazards

  abbrev pub hurt : F → EpisodeManager I V F → EpisodeManager I V F
  hurt damage m = record m { episode_total_damage = fl.add m.episode_total_damage damage }

  -- 3. damage
  unfoldable pub check_damage :
      Thresholds F
      → Observation F
      → List String × EpisodeManager I V F
      → Result (List String × EpisodeManager I V F)
  unfolding tell damage_text
  check_damage t o (events, m) =
      let damage = fl.sub m.prev_health o.health in
      if fl.lt t.significant_damage damage
      then tell (damage_text damage o m)
          (event_metadata "damage_event" m.episode_number
            (field "damage" (float damage) (field "position" (position_to_list o.position) done)))
          (events, hurt damage m)
      else if fl.lt (fl.of_int (pos 0)) damage
      then ok (events, hurt damage m)
      else ok (events, m)

-- `max(a, b)`
abbrev higher : ℕ → ℕ → ℕ
higher a b = if leb a b then b else a

module _ {I V F : Type 0} where
  unfoldable pub note_tick : Observation F → EpisodeManager I V F → EpisodeManager I V F
  note_tick o m = record m { episode_max_tick = higher m.episode_max_tick o.tick }

  -- the inventory and the health, at the end of the method
  unfoldable pub track_inventory : Observation F → EpisodeManager I V F → EpisodeManager I V F
  unfolding total_quantity
  track_inventory o m =
      let current = total_quantity o.inventory in
      record m {
        episode_resources_collected =
            if not (int_leb current m.last_inventory_count)
            then m.episode_resources_collected +ℤ (current -ℤ m.last_inventory_count)
            else m.episode_resources_collected;
        last_inventory_count = current;
        prev_health = o.health;
      }

module _ {I V F : Type 0} (e : Surroundings I V F) (f : Format F) ⦃fl : Floats F⦄ where
  unfoldable pub check_key_events :
      Thresholds F
      → Observation F
      → EpisodeManager I V F
      → Result (List String × EpisodeManager I V F)
  unfolding check_hazards check_cluster check_damage note_tick track_inventory
  check_key_events t o m = do
    s1 ← check_hazards e f o.nearby_hazards ([], note_tick o m)
    s2 ← check_cluster e f t o s1
    s3 ← check_damage e f t o s2
    ok (s3.0, track_inventory o s3.1)

  -- the cached memories are fresh, and there are any
  abbrev any_hit : List (Hit F) → Bool
  any_hit [] = false
  any_hit (h ∷ hs) = true

  abbrev pub is_fresh : Observation F → EpisodeManager I V F → Bool
  is_fresh o m =
      not (int_leb (pos query_every_n_ticks) (pos o.tick -ℤ m.cache_tick))
      && any_hit m.cached_memories

  unfoldable pub query_relevant_memories :
      Observation F → EpisodeManager I V F → Result (List (Hit F) × EpisodeManager I V F)
  unfolding build_situation_query count
  query_relevant_memories o m =
      if is_fresh o m
      then ok (m.cached_memories, m)
      else if nat_beq (count m.ltm) 0
      then ok ([], m)
      else query_memory e.faiss m.ltm (build_situation_query f o) query_results_k
          (some e.query_similarity_threshold)
        >>= λ results. ok (results, record m { cached_memories = results; cache_tick = pos o.tick })
