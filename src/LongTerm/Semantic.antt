-- ===== src/LongTerm/Semantic.antt =====
-- python/long_term_memory_module/semantic_memory.py: `SemanticMemory`, which stores objects of a type
-- `T` through converters. `from_dict` may raise, which drops the memory that it was to rebuild.
use agent_arena.Prelude.{
  ℕ, ◌≡◌, ◌≤◌, ◌<◌, refl, String, true, List, [], ◌∷◌, Option, none, some, length, ◌==◌, string_key,
  if◌then◌else◌, arith,
}
use agent_arena.Prelude.Floats.{Floats}
use agent_arena.Prelude.Json.{Json, Fields, done, field}
use agent_arena.Prelude.Result.{Result, ok, raise, Exn, ◌>>=◌}
use agent_arena.LongTerm as LongTerm
use agent_arena.LongTerm.Files as Files
use agent_arena.LongTerm.Files.{Shelf}
use agent_arena.LongTerm.{Faiss, Hit, LongTermMemory, Recalled, store_memory, clear_memories}
use agent_arena.LongTerm.Found.{query_memory}
use agent_arena.LongTerm.Queries.{query_memory-ok}
use agent_arena.LongTerm.Stored.{IsFaiss, IsParallel}

pub record SemanticMemory (T I V F : Type 0) : Type 0 where
  pub to_text : T → String
  pub to_metadata : T → Fields F
  pub from_dict : Option (Hit F → Result T)
  pub long_term_memory : LongTermMemory I V F

module _ {F : Type 0} where
  abbrev set_field : Fields F → String → Json F → Fields F
  set_field done k v = field k v done
  set_field (field j w d) k v = if j == k then field j v d else field j w (set_field d k v)

  -- `metadata.update(additional_metadata)`
  unfoldable pub update : Fields F → Fields F → Fields F
  update d done = d
  update d (field k v e) = update (set_field d k v) e

  -- `if additional_metadata:`, which an empty one does not pass
  abbrev merged : Fields F → Option (Fields F) → Fields F
  merged d none = d
  merged d (some e) = update d e

module _ {T I V F : Type 0} (faiss : Faiss I V F) where
  -- `SemanticMemory.store`, with the identifier drawn
  unfoldable pub store_object :
      String → T → Option (Fields F) → SemanticMemory T I V F → String × SemanticMemory T I V F
  unfolding store_memory update
  store_object memory_id x additional m =
      let (id, l) =
        store_memory faiss memory_id (m.to_text x) (merged (m.to_metadata x) additional)
          m.long_term_memory in
      (id, record m { long_term_memory = l })

module _ {T : Type 0} where
  abbrev prepend_ok : Result T → List T → List T
  prepend_ok (ok x) xs = x ∷ xs
  prepend_ok (raise e) xs = xs

module _ {T F : Type 0} where
  -- the loop over the results, in which an exception is logged and swallowed
  unfoldable pub rebuild : (Hit F → Result T) → List (Hit F) → List T
  rebuild from_dict [] = []
  rebuild from_dict (h ∷ hs) = prepend_ok (from_dict h) (rebuild from_dict hs)

  length-rebuild :
      (from_dict : Hit F → Result T) (hs : List (Hit F)) → length (rebuild from_dict hs) ≤ length hs
  unfolding rebuild
  length-rebuild from_dict [] = omega arith
  length-rebuild from_dict (h ∷ hs) = ground (arith, length-rebuild from_dict hs)

module _ {T I V F : Type 0} (faiss : Faiss I V F) ⦃fl : Floats F⦄ where
  abbrev query_with : Option (Hit F → Result T) → Result (List (Hit F)) → Result (List T)
  query_with none hits = raise (Exn.value_error "query_objects() requires from_dict converter.")
  query_with (some from_dict) hits = hits >>= λ hs. ok (rebuild from_dict hs)

  -- `SemanticMemory.query_objects`
  unfoldable pub query_objects : SemanticMemory T I V F → String → ℕ → Option F → Result (List T)
  unfolding query_memory rebuild
  query_objects m query k threshold =
      query_with m.from_dict (query_memory faiss m.long_term_memory query k threshold)

  -- With a converter, and an index in step and trained, a query for a positive number `k` of objects
  -- raises nothing, whatever the converter raises, and gives at most `k` objects.
  pub query_objects-ok :
      (m : SemanticMemory T I V F) (from_dict : Hit F → Result T) (query : String) (k : ℕ)
      (threshold : Option F)
      → m.from_dict ≡ some from_dict
      → IsFaiss faiss
      → IsParallel faiss m.long_term_memory
      → faiss.is_trained m.long_term_memory.index ≡ true
      → 0 < k
      → (xs : List T) × (query_objects m query k threshold ≡ ok xs) × (length xs ≤ k)
  unfolding query_objects
  query_objects-ok m from_dict query k threshold f law h t some_k =
      let (hs, p, l, all) =
        query_memory-ok faiss m.long_term_memory query k threshold law h t some_k in
      (rebuild from_dict hs, rw (f, p) refl, omega (arith, length-rebuild from_dict hs))

-- The methods that pass a call on to the long-term memory.
module _ {T I V F : Type 0} (faiss : Faiss I V F) ⦃fl : Floats F⦄ where
  unfoldable pub query : SemanticMemory T I V F → String → ℕ → Option F → Result (List (Hit F))
  unfolding query_memory
  query m query_text k threshold = query_memory faiss m.long_term_memory query_text k threshold

module _ {T I V F : Type 0} where
  unfoldable pub recall_by_id : SemanticMemory T I V F → String → Option (Recalled F)
  unfolding LongTerm.recall_by_id
  recall_by_id m memory_id = LongTerm.recall_by_id m.long_term_memory memory_id

  unfoldable pub get_all_memories : SemanticMemory T I V F → List (Recalled F)
  unfolding LongTerm.get_all_memories
  get_all_memories m = LongTerm.get_all_memories m.long_term_memory

  abbrev with_memory : SemanticMemory T I V F → LongTermMemory I V F → SemanticMemory T I V F
  with_memory m l = record m { long_term_memory = l }

  -- `__len__`
  unfoldable pub count : SemanticMemory T I V F → ℕ
  unfolding LongTerm.count
  count m = LongTerm.count m.long_term_memory

module _ {T I V F : Type 0} (faiss : Faiss I V F) where
  unfoldable pub clear : SemanticMemory T I V F → Result (SemanticMemory T I V F)
  unfolding clear_memories
  clear m = clear_memories faiss m.long_term_memory >>= λ l. ok (with_memory m l)

module _ {T I V F : Type 0} (with_suffix : String → String → String) where
  unfoldable pub save : Option String → SemanticMemory T I V F → Shelf I F → Result (Shelf I F)
  unfolding Files.save
  save filepath m disk = Files.save with_suffix filepath m.long_term_memory disk

module _ {T I V F : Type 0} (faiss : Faiss I V F) (with_suffix : String → String → String) where
  unfoldable pub load :
      Option String → SemanticMemory T I V F → Shelf I F → Option Exn × SemanticMemory T I V F
  unfolding Files.load
  load filepath m disk =
      let (e, l) = Files.load faiss with_suffix filepath m.long_term_memory disk in
      (e, with_memory m l)
