-- ===== src/LongTerm/Files.antt =====
-- `save` and `load`. `with_suffix` is `Path.with_suffix`; a write to the disk is taken to succeed.
use agent_arena.Prelude.{
  ℕ, ◌≡◌, refl, sym, ap, ◌∙◌, String, true, false, List, [], ◌∷◌, ◌++ₛ◌, beq_self, map, Option,
  none, some, nat_beq, nat_beq_iff, ◌==◌, string_key, if◌then◌else◌,
}
use agent_arena.Prelude.Dict.{Dict, get, put, values, get-put}
use agent_arena.Prelude.Result.{Result, ok, raise, Exn}
use agent_arena.LongTerm.{
  IndexType, Faiss, LongTermMemory, Recalled, Memory, recalled, get_all_memories,
}

-- What the pickled file holds: the memories without their embeddings.
pub record SavedMemories (F : Type 0) : Type 0 where
  pub embedding_model : String
  pub embedding_dim : ℕ
  pub index_type : IndexType
  pub memory_ids : List String
  pub memories : Dict String (Recalled F)

-- The files, by path.
pub record Shelf (I F : Type 0) : Type 0 where
  pub index_files : Dict String I
  pub metadata_files : Dict String (SavedMemories F)

-- `filepath or self.persist_path`
abbrev pub chosen_path : Option String → Option String → Option String
chosen_path none persist_path = persist_path
chosen_path (some p) persist_path = if p == "" then persist_path else some p

module _ {V F : Type 0} where
  -- the memories without their embeddings
  abbrev pub stripped : Dict String (Memory V F) → Dict String (Recalled F)
  stripped [] = []
  stripped ((k, x) ∷ d) = (k, recalled x) ∷ stripped d

module _ {I V F : Type 0} where
  abbrev pub saved_of : LongTermMemory I V F → SavedMemories F
  saved_of m = record {
    embedding_model = m.embedding_model_name;
    embedding_dim = m.embedding_dim;
    index_type = m.index_type;
    memory_ids = m.memory_ids;
    memories = stripped m.memories;
  }

module _ {I V F : Type 0} (with_suffix : String → String → String) where
  abbrev save_at : LongTermMemory I V F → Shelf I F → Option String → Result (Shelf I F)
  save_at m disk none = raise (Exn.value_error "No filepath provided and persist_path not set")
  save_at m disk (some path) = ok (record {
    index_files = put disk.index_files (with_suffix path ".index") m.index;
    metadata_files = put disk.metadata_files (with_suffix path ".metadata") (saved_of m);
  })

  unfoldable pub save : Option String → LongTermMemory I V F → Shelf I F → Result (Shelf I F)
  save filepath m disk = save_at m disk (chosen_path filepath m.persist_path)

module _ {I V F : Type 0} (faiss : Faiss I V F) where
  abbrev pub restored : Recalled F → Memory V F
  restored x = record {
    id = x.id;
    text = x.text;
    embedding = faiss.encode x.text;
    metadata = x.metadata;
  }

  -- the loop over `metadata["memories"].items()`
  abbrev pub revived : Dict String (Recalled F) → Dict String (Memory V F)
  revived [] = []
  revived ((k, x) ∷ d) = (k, restored x) ∷ revived d

module _ {I V F : Type 0} (faiss : Faiss I V F) (with_suffix : String → String → String) where
  -- What `load` does: the exception that it raises, if any, and the memory as it leaves it: on a failure after the index is read, the
  -- index is the one that was read.
  abbrev load_metadata :
      LongTermMemory I V F → String → Option (SavedMemories F) → Option Exn × LongTermMemory I V F
  load_metadata m path none = (some (Exn.other_error ("Metadata file not found: " ++ₛ path)), m)
  load_metadata m path (some d) =
      if nat_beq d.embedding_dim m.embedding_dim
      then (none, record m { memory_ids = d.memory_ids; memories = revived faiss d.memories })
      else (some (Exn.value_error "Embedding dimension mismatch"), m)

  abbrev load_index :
      LongTermMemory I V F → Shelf I F → String → Option I → Option Exn × LongTermMemory I V F
  load_index m disk path none =
      (some (Exn.other_error ("Index file not found: " ++ₛ with_suffix path ".index")), m)
  load_index m disk path (some i) =
      load_metadata (record m { index = i }) (with_suffix path ".metadata")
        (get disk.metadata_files (with_suffix path ".metadata"))

  abbrev load_at :
      LongTermMemory I V F → Shelf I F → Option String → Option Exn × LongTermMemory I V F
  load_at m disk none = (some (Exn.value_error "No filepath provided and persist_path not set"), m)
  load_at m disk (some path) =
      load_index m disk path (get disk.index_files (with_suffix path ".index"))

  unfoldable pub load :
      Option String → LongTermMemory I V F → Shelf I F → Option Exn × LongTermMemory I V F
  load filepath m disk = load_at m disk (chosen_path filepath m.persist_path)

  revived-stripped :
      (d : Dict String (Memory V F))
      → map recalled (values (revived faiss (stripped d))) ≡ map recalled (values d)
  revived-stripped [] = refl
  revived-stripped ((k, x) ∷ d) = ap (◌∷◌ (recalled x)) (revived-stripped d)

  -- What one long-term memory saves under a path that is not empty, another of the same embedding
  -- dimension loads from it: `load` raises nothing, and leaves the index, the identifiers and the
  -- texts and metadata of the memories as they were saved.
  pub save-load :
      (path : String) (m n : LongTermMemory I V F) (disk disk' : Shelf I F)
      → (path == "") ≡ false
      → save with_suffix (some path) m disk ≡ ok disk'
      → n.embedding_dim ≡ m.embedding_dim
      → ((load (some path) n disk').0 ≡ none)
        × ((load (some path) n disk').1.index ≡ m.index)
        × ((load (some path) n disk').1.memory_ids ≡ m.memory_ids)
        × (get_all_memories (load (some path) n disk').1 ≡ get_all_memories m)
  unfolding save load get_all_memories
  save-load path m n disk disk' c h e =
      let same : nat_beq m.embedding_dim n.embedding_dim ≡ true =
        (nat_beq_iff m.embedding_dim n.embedding_dim).1 (sym e) in
      let written : record {
        index_files = put disk.index_files (with_suffix path ".index") m.index;
        metadata_files = put disk.metadata_files (with_suffix path ".metadata") (saved_of m);
      }
          ≡ disk' =
        cc (rw c at h) in
      let i : get disk'.index_files (with_suffix path ".index") ≡ some m.index =
        ap (λ (z : Shelf I F). get z.index_files (with_suffix path ".index")) (sym written)
        ∙ get-put disk.index_files (with_suffix path ".index") _ m.index
        ∙ rw (beq_self (with_suffix path ".index")) refl in
      let d : get disk'.metadata_files (with_suffix path ".metadata") ≡ some (saved_of m) =
        ap (λ (z : Shelf I F). get z.metadata_files (with_suffix path ".metadata")) (sym written)
        ∙ get-put disk.metadata_files (with_suffix path ".metadata") _ (saved_of m)
        ∙ rw (beq_self (with_suffix path ".metadata")) refl in
      rw (c, i, d, same) (refl, refl, refl, revived-stripped m.memories)
