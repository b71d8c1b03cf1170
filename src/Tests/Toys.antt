-- ===== src/Tests/Toys.antt =====
-- A small index in the place of FAISS: vectors are numbers, and a score is 1 for an equal vector.
use agent_arena.Prelude.{
  ℕ, zero, suc, ◌+◌, ◌≡◌, ◌≤◌, refl, sym, ap, ◌∙◌, String, Bool, true, false, not, List, [], ◌∷◌,
  length, take, nat_beq, if◌then◌else◌, arith,
}
use agent_arena.Prelude.Int.{ℤ, pos}
use agent_arena.Prelude.IntRange.{int_leb}
use agent_arena.Prelude.Maps.{All-sort_by}
use agent_arena.Prelude.Result.{ok, raise, Exn}
use agent_arena.Prelude.Sort.{All, sort_by}
use agent_arena.Prelude.Text.{codes}
use agent_arena.Episodes.{Surroundings}
use agent_arena.Episodes.Steady.{IsSound}
use agent_arena.LongTerm.{Faiss, is_ivf}
use agent_arena.LongTerm.Stored.{IsFaiss, IsPosition}

pub record ToyIndex : Type 0 where
  pub trained : Bool
  pub vectors : List ℕ

abbrev scored : ℕ → ℕ → List ℕ → List (ℤ × ℤ)
scored v n [] = []
scored v n (w ∷ ws) = (if nat_beq v w then pos 1 else pos 0, pos n) ∷ scored v (suc n) ws

abbrev by_score : ℤ × ℤ → ℤ × ℤ → Bool
by_score a b = int_leb b.0 a.0

abbrev pub toy_faiss : Faiss ToyIndex ℕ ℤ
toy_faiss = record {
  new_index = λ t dim. record { trained = not (is_ivf t); vectors = [] };
  is_trained = λ i. i.trained;
  train = λ vs i. record i { trained = true };
  add = λ v i. record i { vectors = v ∷ i.vectors };
  ntotal = λ i. length i.vectors;
  search = λ i v k.
      if nat_beq k 0
      then raise (Exn.other_error "k must be positive")
      else if i.trained
      then ok (take k (sort_by by_score (scored v 0 i.vectors)))
      else raise (Exn.other_error "not trained");
  normalize = λ v. v;
  encode = λ s. length (codes s);
}

scored-positions :
    (v n : ℕ) (ws : List ℕ) (t : ℕ)
    → n + length ws ≡ t
    → All (λ (p : ℤ × ℤ). IsPosition t p.1) (scored v n ws)
scored-positions v n [] t h = tt
scored-positions v n (w ∷ ws) t h =
    (IsPosition.present n (omega arith), scored-positions v (suc n) ws t (omega arith))

All-take :
    (P : ℤ × ℤ → Type 0) (k : ℕ) (xs : List (ℤ × ℤ))
    → All P xs
    → All P (take k xs) × (length (take k xs) ≤ k)
All-take P zero xs h = (tt, omega arith)
All-take P (suc k) [] h = (tt, omega arith)
All-take P (suc k) (x ∷ xs) h = let (a, l) = All-take P k xs h.1 in ((h.0, a), omega arith)

pub toy_faiss-IsFaiss : IsFaiss toy_faiss
toy_faiss-IsFaiss = record {
  ntotal-new = λ t dim. refl;
  trained-new = λ t dim h. rw h refl;
  ntotal-train = λ vs i. refl;
  trained-train = λ vs i. refl;
  ntotal-add = λ v i. refl;
  trained-add = λ v i. refl;
  search-positions = λ i v k positive h.
      let found = sort_by by_score (scored v 0 i.vectors) in
      let (a, l) =
        All-take (λ (p : ℤ × ℤ). IsPosition (length i.vectors) p.1) k found
          (All-sort_by by_score (λ (p : ℤ × ℤ). IsPosition (length i.vectors) p.1)
            (scored v 0 i.vectors)
            (scored-positions v 0 i.vectors (length i.vectors) (omega arith))) in
      let some_k : nat_beq k 0 ≡ false = ground (arith, positive) in
      (take k found, rw (some_k, h) refl, l, a);
}

-- identifiers that differ in their length
abbrev pub toy_uuid : ℕ → String
toy_uuid zero = ""
toy_uuid (suc n) = String.◌∷◌ "m" (toy_uuid n)

abbrev pub toys : Surroundings ToyIndex ℕ ℤ
toys = record {
  faiss = toy_faiss;
  uuid = toy_uuid;
  max_memories = 2;
  dedup_threshold = pos 1;
  query_similarity_threshold = pos 1;
}

length-toy_uuid : (n : ℕ) → length (codes (toy_uuid n)) ≡ n
length-toy_uuid zero = refl
length-toy_uuid (suc n) = ap suc (length-toy_uuid n)

pub toys-IsSound : IsSound toys
toys-IsSound = record {
  law = toy_faiss-IsFaiss;
  distinct = λ i j p. sym (length-toy_uuid i) ∙ ap (λ s. length (codes s)) p ∙ length-toy_uuid j;
}
