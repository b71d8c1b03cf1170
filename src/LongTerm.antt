-- ===== src/LongTerm.antt =====
-- python/long_term_memory_module/long_term_memory.py: `LongTermMemory`. The FAISS index, of type
-- `I`, and the sentence encoder with its vectors, of type `V`, are not the repository's: they are
-- the operations of `Faiss`. A new identifier, `uuid4()`, is an argument.
pub mod Stored
pub mod Valid
pub mod Found
pub mod Queries
pub mod Files
pub mod Semantic
use agent_arena.Prelude.{
  ℕ, String, Bool, true, false, not, ◌&&◌, ◌+◌, ◌||◌, List, [], ◌∷◌, ◌++◌, ◌++ₛ◌, map, ◌-◌, Option,
  none, some, length, get_elem?, leb, min, ◌==◌, string_key, nat_beq, if◌then◌else◌,
}
use agent_arena.Prelude.Dict.{Dict, get, put, values}
use agent_arena.Prelude.Floats.{Floats}
use agent_arena.Prelude.Int.{ℤ, pos, negsuc}
use agent_arena.Prelude.Json.{Fields}
use agent_arena.Prelude.Result.{Result, ok, raise, Exn, ◌>>=◌}

-- An `index_type` as the text spells it: "Flat", "FlatIP", "IVF<nlist>", where "IVF" stands for
-- "IVF100", an "IVF..." whose rest is no number, and any other text.
pub data IndexType : Type 0 where
  flat flat_ip : IndexType
  ivf : ℕ → IndexType
  ivf_malformed unsupported : String → IndexType

-- `faiss` and the encoder. `search` gives distances with positions, and raises on an index that is
-- not trained.
pub record Faiss (I V F : Type 0) : Type 0 where
  pub new_index : IndexType → ℕ → I
  pub is_trained : I → Bool
  pub train : List V → I → I
  pub add : V → I → I
  pub ntotal : I → ℕ
  pub search : I → V → ℕ → Result (List (F × ℤ))
  pub normalize : V → V
  pub encode : String → V

pub record Memory (V F : Type 0) : Type 0 where
  pub id : String
  pub text : String
  pub embedding : V
  pub metadata : Fields F

-- What the queries return of a memory.
pub record Recalled (F : Type 0) : Type 0 where
  pub id : String
  pub text : String
  pub metadata : Fields F

pub record Hit (F : Type 0) : Type 0 where
  pub memory : Recalled F
  pub score : F
  pub distance : F

pub record LongTermMemory (I V F : Type 0) : Type 0 where
  pub embedding_model_name : String
  pub embedding_dim : ℕ
  pub index_type : IndexType
  pub persist_path : Option String
  pub index : I
  pub memories : Dict String (Memory V F)
  pub memory_ids : List String

-- `index_type == "FlatIP"`, `index_type.startswith("IVF")` and the number of clusters
abbrev pub is_flat_ip : IndexType → Bool
is_flat_ip IndexType.flat_ip = true
is_flat_ip _ = false

abbrev pub is_ivf : IndexType → Bool
is_ivf (IndexType.ivf nlist) = true
is_ivf (IndexType.ivf_malformed s) = true
is_ivf _ = false

abbrev pub nlist_of : IndexType → ℕ
nlist_of (IndexType.ivf nlist) = nlist
nlist_of _ = 100

module _ {I V F : Type 0} (faiss : Faiss I V F) where
  -- `_init_index`
  unfoldable pub init_index : IndexType → ℕ → Result I
  init_index (IndexType.ivf_malformed s) dim =
      raise (Exn.value_error ("Invalid IVF index format: " ++ₛ s))
  init_index (IndexType.unsupported s) dim =
      raise (Exn.value_error ("Unsupported index type: " ++ₛ s))
  init_index t dim = ok (faiss.new_index t dim)

  -- `LongTermMemory(...)`, the encoder having loaded
  unfoldable pub init : String → ℕ → IndexType → Option String → Result (LongTermMemory I V F)
  unfolding init_index
  init model dim t path = init_index t dim >>= λ i. ok (record {
    embedding_model_name = model;
    embedding_dim = dim;
    index_type = t;
    persist_path = path;
    index = i;
    memories = [];
    memory_ids = [];
  })

  -- the embedding of a text, `encode` and `normalize_L2`
  unfoldable pub embed : IndexType → String → V
  embed t text = if is_flat_ip t then faiss.normalize (faiss.encode text) else faiss.encode text

  abbrev pub add_all : List V → I → I
  add_all [] i = i
  add_all (v ∷ vs) i = add_all vs (faiss.add v i)

  abbrev pub embeddings : LongTermMemory I V F → List V
  embeddings m = map (λ x. x.embedding) (values m.memories)

  -- The index after its training, once there are enough vectors: the stored ones are added again.
  unfoldable pub train_if_needed : V → LongTermMemory I V F → I
  train_if_needed v m =
      if is_ivf m.index_type && not (faiss.is_trained m.index)
      then (if leb (nlist_of m.index_type) (length m.memories + 1)
          then add_all (embeddings m) (faiss.train (embeddings m ++ v ∷ []) m.index)
          else m.index)
      else m.index

  abbrev pub added : IndexType → V → I → I
  added t v i = if not (is_ivf t) || faiss.is_trained i then faiss.add v i else i

  unfoldable pub store_memory :
      String → String → Fields F → LongTermMemory I V F → String × LongTermMemory I V F
  unfolding embed train_if_needed
  store_memory memory_id text metadata m =
      let v = embed m.index_type text in
      (
        memory_id,
        record m {
          index = added m.index_type v (train_if_needed v m);
          memories =
              put m.memories memory_id
                (record { id = memory_id; text = text; embedding = v; metadata = metadata });
          memory_ids = m.memory_ids ++ memory_id ∷ [];
        },
      )

  -- `clear_memories`: an index type that `__init__` took is taken again
  unfoldable pub clear_memories : LongTermMemory I V F → Result (LongTermMemory I V F)
  unfolding init_index
  clear_memories m = init_index m.index_type m.embedding_dim >>= λ i.
      ok (record m { index = i; memories = []; memory_ids = [] })

-- `self.memory_ids[idx]`: a negative index counts from the end
abbrev at_index : Option String → Result String
at_index none = raise (Exn.other_error "list index out of range")
at_index (some memory_id) = ok memory_id

abbrev pub id_at : List String → ℤ → Result String
id_at ids (pos n) = at_index (get_elem? ids n)
id_at ids (negsuc n) =
    if leb (n + 1) (length ids)
    then at_index (get_elem? ids (length ids - (n + 1)))
    else raise (Exn.other_error "list index out of range")

module _ {V F : Type 0} where
  abbrev pub recalled : Memory V F → Recalled F
  recalled x = record { id = x.id; text = x.text; metadata = x.metadata }

  abbrev recalled? : Option (Memory V F) → Option (Recalled F)
  recalled? none = none
  recalled? (some x) = some (recalled x)

  abbrev at_id : String → Option (Memory V F) → Result (Memory V F)
  at_id memory_id none = raise (Exn.key_error memory_id)
  at_id memory_id (some x) = ok x

module _ {I V F : Type 0} where
  unfoldable pub recall_by_id : LongTermMemory I V F → String → Option (Recalled F)
  recall_by_id m memory_id = recalled? (get m.memories memory_id)

  unfoldable pub get_all_memories : LongTermMemory I V F → List (Recalled F)
  get_all_memories m = map recalled (values m.memories)

  -- `len(memory)`
  unfoldable pub count : LongTermMemory I V F → ℕ
  count m = length m.memories

  -- `self.memories[self.memory_ids[idx]]`
  abbrev pub memory_at : LongTermMemory I V F → ℤ → Result (Memory V F)
  memory_at m i = id_at m.memory_ids i >>= λ memory_id. at_id memory_id (get m.memories memory_id)
