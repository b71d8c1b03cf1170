-- ===== src/Tests/MemoryRuns.antt =====
-- The long-term memory and the episodes, over the small index.
use agent_arena.Prelude.{
  ℕ, String, true, false, ◌≡◌, ◌≤◌, ◌<◌, refl, List, [], ◌∷◌, ◌-◌, map, none, some, length, min,
  drop, string_key, ◌++ₛ◌, arith,
}
use agent_arena.Prelude.Dict.{get, put}
use agent_arena.Prelude.Int.{ℤ, pos}
use agent_arena.Prelude.Json.{Fields, int, done, field, get_field}
use agent_arena.Prelude.Result.{ok}
use agent_arena.Prelude.Sort.{All, sort_by}
use agent_arena.LongTerm as LongTerm
use agent_arena.LongTerm.{
  LongTermMemory, IndexType, Hit, Recalled, init_index, store_memory, get_all_memories, count,
  embed, train_if_needed,
}
use agent_arena.LongTerm.Files.{Shelf, save, load, save-load, saved_of}
use agent_arena.LongTerm.Found.{query_memory}
use agent_arena.LongTerm.Queries.{IsHit, query_memory-ok}
use agent_arena.LongTerm.Stored.{IsParallel}
use agent_arena.LongTerm.Valid.{init-IsParallel, store_memory-IsParallel}
use agent_arena.Episodes.{
  EpisodeManager, init, enforce_memory_cap, by_episode, with_episodes, remember,
}
use agent_arena.Episodes.Capped.{contents, content, enforce_memory_cap-ok}
use agent_arena.Episodes.Events.{Thresholds}
use agent_arena.Episodes.Lives.{live_all, live_all-ok}
use agent_arena.Episodes.Ready.{IsReady, init-IsReady}
use agent_arena.Episodes.Steady.{IsSteady, remember-IsSteady}
use agent_arena.Episodes.Texts.{Format}
use agent_arena.Tests.Ints.{int_floats}
use agent_arena.Tests.SchemaRuns.{seeing}
use agent_arena.Tests.Toys.{ToyIndex, toy_faiss, toy_faiss-IsFaiss, toys, toys-IsSound}

abbrev empty_memory : LongTermMemory ToyIndex ℕ ℤ
empty_memory = record {
  embedding_model_name = "toy";
  embedding_dim = 1;
  index_type = IndexType.flat_ip;
  persist_path = none;
  index = record { trained = true; vectors = [] };
  memories = [];
  memory_ids = [];
}

abbrev episode : ℤ → Fields ℤ
episode n = field "episode" (int n) done

empty_memory-IsParallel : IsParallel toy_faiss empty_memory
unfolding LongTerm.init init_index
empty_memory-IsParallel =
    init-IsParallel toy_faiss toy_faiss-IsFaiss "toy" 1 IndexType.flat_ip none empty_memory refl

store_memory-IsParallel_example :
    IsParallel toy_faiss (store_memory toy_faiss "x" "berries" (episode (pos 1)) empty_memory).1
unfolding get
store_memory-IsParallel_example =
    store_memory-IsParallel toy_faiss toy_faiss-IsFaiss "x" "berries" (episode (pos 1)) empty_memory
      empty_memory-IsParallel refl

abbrev one_memory : LongTermMemory ToyIndex ℕ ℤ
one_memory = (store_memory toy_faiss "x" "berries" (episode (pos 1)) empty_memory).1

query_memory-ok_example :
    (hs : List (Hit ℤ)) × (query_memory toy_faiss one_memory "berries" 3 (some (pos 1)) ≡ ok hs)
    × (length hs ≤ 3)
    × All (IsHit one_memory (some (pos 1))) hs
unfolding store_memory train_if_needed embed
query_memory-ok_example =
    query_memory-ok toy_faiss one_memory "berries" 3 (some (pos 1)) toy_faiss-IsFaiss
      store_memory-IsParallel_example refl (omega arith)

abbrev empty_shelf : Shelf ToyIndex ℤ
empty_shelf = record { index_files = []; metadata_files = [] }

abbrev suffixed : String → String → String
suffixed path suffix = path ++ₛ suffix

abbrev shelf : Shelf ToyIndex ℤ
shelf = record {
  index_files = ("m.index", one_memory.index) ∷ [];
  metadata_files = ("m.metadata", saved_of one_memory) ∷ [];
}

save-load_example :
    ((load toy_faiss suffixed (some "m") empty_memory shelf).0 ≡ none)
    × ((load toy_faiss suffixed (some "m") empty_memory shelf).1.index ≡ one_memory.index)
    × ((load toy_faiss suffixed (some "m") empty_memory shelf).1.memory_ids ≡ one_memory.memory_ids)
    × (get_all_memories (load toy_faiss suffixed (some "m") empty_memory shelf).1
        ≡ get_all_memories one_memory)
unfolding save put store_memory
save-load_example =
    save-load toy_faiss suffixed "m" one_memory empty_memory empty_shelf shelf refl refl refl

-- Three memories, one more than the cap of `toys`, of the episodes 2, 1 and 3.
abbrev first : EpisodeManager ToyIndex ℕ ℤ
first = remember toys "a" (episode (pos 2)) (init empty_memory)

abbrev second : EpisodeManager ToyIndex ℕ ℤ
second = remember toys "bb" (episode (pos 1)) first

abbrev third : EpisodeManager ToyIndex ℕ ℤ
third = remember toys "ccc" (episode (pos 3)) second

toys-IsReady : IsReady toys (init empty_memory)
unfolding LongTerm.init init_index
toys-IsReady = init-IsReady toys toys-IsSound "toy" 1 none empty_memory refl

third-IsSteady : IsSteady toys third
unfolding get_field
third-IsSteady =
    remember-IsSteady toys toys-IsSound "ccc" (episode (pos 3)) second (λ id. (pos 3, refl))
      (remember-IsSteady toys toys-IsSound "bb" (episode (pos 1)) first (λ id. (pos 1, refl))
        (remember-IsSteady toys toys-IsSound "a" (episode (pos 2)) (init empty_memory)
          (λ id. (pos 2, refl)) toys-IsReady.0))

enforce_memory_cap-ok_example :
    (m' : EpisodeManager ToyIndex ℕ ℤ) × (enforce_memory_cap toys third ≡ ok m')
    × IsSteady toys m'
    × (count m'.ltm ≡ min (count third.ltm) 2)
    × (count third.ltm ≤ 2 → m' ≡ third)
    × (2 < count third.ltm
        → (all : List (ℤ × Recalled ℤ)) × (with_episodes (get_all_memories third.ltm) ≡ ok all)
          × (contents m'
              ≡ map (λ x. content x.1) (drop (count third.ltm - 2) (sort_by by_episode all))))
enforce_memory_cap-ok_example = enforce_memory_cap-ok toys toys-IsSound third third-IsSteady

abbrev pub plain : Format ℤ
plain = record { fixed = λ n x. "0"; of_float = λ x. "0"; of_int = λ x. "0"; set_order = λ xs. xs }

abbrev thresholds : Thresholds ℤ
thresholds = record { cluster_radius = pos 5; significant_damage = pos 20 }

live_all-ok_example :
    (s : List (List (Hit ℤ)) × EpisodeManager ToyIndex ℕ ℤ) × (live_all toys plain thresholds seeing
        (seeing ∷ record seeing { tick = 2 } ∷ [])
        (init empty_memory)
      ≡ ok s)
    × IsReady toys s.1
    × All
        (λ hs.
          (length hs ≤ 3)
          × All (λ h. int_floats.lt h.score toys.query_similarity_threshold ≡ false) hs)
        s.0
live_all-ok_example =
    live_all-ok toys plain toys-IsSound thresholds (seeing ∷ record seeing { tick = 2 } ∷ []) seeing
      (init empty_memory) toys-IsReady
