-- ===== src/Episodes.antt =====
-- starters/llm/episode_memory.py: the `EpisodeMemoryManager` over the long-term memory.
-- `uuid` gives the identifiers that `uuid4()` draws, one after the other, and `drawn` counts them.
-- The formatting of numbers, and the order in which a set is iterated, are those of `Format`. A
-- method that raises is a `raise`, whose state is not looked at.
pub mod Texts
pub mod Events
pub mod Endings
pub mod Steady
pub mod Capped
pub mod Ready
pub mod Run
pub mod Lives
use agent_arena.Prelude.{
  ℕ, ◌+◌, ◌-◌, String, Bool, true, false, not, ◌&&◌, List, [], ◌∷◌, Option, none, some, length, leb,
  ltb, drop, nat_beq, if◌then◌else◌,
}
use agent_arena.Prelude.Dict.{has}
use agent_arena.Prelude.Floats.{Floats}
use agent_arena.Prelude.Int.{ℤ, pos, negsuc, ◌+ℤ◌, ◌-ℤ◌}
use agent_arena.Prelude.IntRange.{int_leb}
use agent_arena.Prelude.Json.{Json, Fields, get_field, as_int}
use agent_arena.Prelude.Result.{Result, ok, raise, ◌>>=◌}
use agent_arena.Prelude.Sort.{sort_by}
use agent_arena.LongTerm.{
  Faiss, LongTermMemory, Recalled, Hit, store_memory, clear_memories, get_all_memories, count,
}
use agent_arena.LongTerm.Found.{query_memory}
use agent_arena.Schemas.Percepts.{ItemInfo}
use agent_arena.Schemas.Observation.{Observation}

pub record EpisodeManager (I V F : Type 0) : Type 0 where
  pub ltm : LongTermMemory I V F
  pub drawn : ℕ
  pub episode_number : ℕ
  pub prev_tick : ℤ
  pub episode_start_health : F
  pub episode_resources_collected : ℤ
  pub episode_hazard_types_seen : List String
  pub episode_total_damage : F
  pub episode_max_tick : ℕ
  pub prev_health : F
  pub last_inventory_count : ℤ
  pub known_hazard_types : List String
  pub cached_memories : List (Hit F)
  pub cache_tick : ℤ

-- What the methods use besides their state.
pub record Surroundings (I V F : Type 0) : Type 0 where
  pub faiss : Faiss I V F
  pub uuid : ℕ → String
  -- `max_memories` is MAX_MEMORIES, and the others are named likewise
  pub max_memories : ℕ
  pub dedup_threshold : F
  pub query_similarity_threshold : F

-- QUERY_RESULTS_K, QUERY_EVERY_N_TICKS and RESOURCE_CLUSTER_MIN
abbrev pub query_results_k : ℕ
query_results_k = 3

abbrev pub query_every_n_ticks : ℕ
query_every_n_ticks = 5

abbrev pub resource_cluster_min : ℕ
resource_cluster_min = 3

-- `sum(item.quantity for item in inventory)`
unfoldable pub total_quantity : List ItemInfo → ℤ
total_quantity [] = pos 0
total_quantity (i ∷ is) = i.quantity +ℤ total_quantity is

module _ {I V F : Type 0} ⦃fl : Floats F⦄ where
  -- `EpisodeMemoryManager(...)`, over the long-term memory that it made and loaded
  unfoldable pub init : LongTermMemory I V F → EpisodeManager I V F
  init ltm = record {
    ltm = ltm;
    drawn = 0;
    episode_number = 0;
    prev_tick = negsuc 0;
    episode_start_health = fl.of_int (pos 100);
    episode_resources_collected = pos 0;
    episode_hazard_types_seen = [];
    episode_total_damage = fl.of_int (pos 0);
    episode_max_tick = 0;
    prev_health = fl.of_int (pos 100);
    last_inventory_count = pos 0;
    known_hazard_types = [];
    cached_memories = [];
    cache_tick = negsuc 0;
  }

module _ {I V F : Type 0} where
  -- `check_episode_boundary`
  unfoldable pub check_episode_boundary :
      Observation F → EpisodeManager I V F → Bool × EpisodeManager I V F
  check_episode_boundary o m = (
    not (int_leb m.prev_tick (pos 0)) && not (int_leb m.prev_tick (pos o.tick)),
    record m { prev_tick = pos o.tick },
  )

module _ {I V F : Type 0} ⦃fl : Floats F⦄ where
  unfoldable pub on_episode_start : Observation F → EpisodeManager I V F → EpisodeManager I V F
  unfolding total_quantity
  on_episode_start o m = record m {
    episode_number = m.episode_number + 1;
    episode_start_health = o.health;
    episode_resources_collected = pos 0;
    episode_hazard_types_seen = [];
    episode_total_damage = fl.of_int (pos 0);
    episode_max_tick = o.tick;
    prev_health = o.health;
    last_inventory_count = total_quantity o.inventory;
    cached_memories = [];
    cache_tick = negsuc 0;
  }

module _ {I V F : Type 0} (e : Surroundings I V F) where
  -- `self.ltm.store_memory(text, metadata)`
  unfoldable pub remember : String → Fields F → EpisodeManager I V F → EpisodeManager I V F
  remember text metadata m = record m {
    ltm = (store_memory e.faiss (e.uuid m.drawn) text metadata m.ltm).1;
    drawn = m.drawn + 1;
  }

module _ {I V F : Type 0} (e : Surroundings I V F) ⦃fl : Floats F⦄ where
  abbrev pub unless_similar :
      String → Fields F → EpisodeManager I V F → List (Hit F) → EpisodeManager I V F
  unless_similar text metadata m [] = remember e text metadata m
  unless_similar text metadata m (h ∷ hs) = m

  -- `_store_if_novel`
  unfoldable pub store_if_novel :
      String → Fields F → EpisodeManager I V F → Result (EpisodeManager I V F)
  unfolding remember count
  store_if_novel text metadata m =
      if ltb 0 (count m.ltm)
      then (query_memory e.faiss m.ltm text 1 (some e.dedup_threshold) >>= λ similar.
          ok (unless_similar text metadata m similar))
      else ok (remember e text metadata m)

-- `m.get("metadata", {}).get("episode", 0)`, by which the memories are sorted: an integer, as the
-- manager writes it
module _ {F : Type 0} where
  abbrev episode_value : Option (Json F) → Result ℤ
  episode_value none = ok (pos 0)
  episode_value (some j) = as_int j

  abbrev pub episode_of : Recalled F → Result ℤ
  episode_of x = episode_value (get_field x.metadata "episode")

  unfoldable pub with_episodes : List (Recalled F) → Result (List (ℤ × Recalled F))
  with_episodes [] = ok []
  with_episodes (x ∷ xs) = do n ← episode_of x; rest ← with_episodes xs; ok ((n, x) ∷ rest)

  abbrev pub by_episode : ℤ × Recalled F → ℤ × Recalled F → Bool
  by_episode a b = int_leb a.0 b.0

module _ {I V F : Type 0} (e : Surroundings I V F) where
  unfoldable pub remember_all : List (ℤ × Recalled F) → EpisodeManager I V F → EpisodeManager I V F
  unfolding remember
  remember_all [] m = m
  remember_all ((n, x) ∷ xs) m = remember_all xs (remember e x.text x.metadata m)

  -- `_enforce_memory_cap`
  unfoldable pub enforce_memory_cap : EpisodeManager I V F → Result (EpisodeManager I V F)
  unfolding remember_all with_episodes count
  enforce_memory_cap m =
      if leb (count m.ltm) e.max_memories
      then ok m
      else with_episodes (get_all_memories m.ltm) >>= λ all.
          clear_memories e.faiss m.ltm >>= λ cleared. ok (
            remember_all (drop (count m.ltm - e.max_memories) (sort_by by_episode all))
              (record m { ltm = cleared }))
