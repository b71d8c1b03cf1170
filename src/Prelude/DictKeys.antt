-- ===== src/Prelude/DictKeys.antt =====
-- The keys of a dictionary, in their order, hang on the keys alone.
use mathlib.Core.Bool.{Bool, true, false, not, ◌&&◌, ◌||◌}
use mathlib.Core.List.{List, [], ◌∷◌, ◌++◌, map, Memᴰ}
use mathlib.Core.Logic.{inl, inr}
use mathlib.Core.Option.{Option, none, some}
use mathlib.Core.Option.{some-injective}
use mathlib.Core.Path.{subst, subst₂, ◌≡◌, refl, sym, ap, ◌∙◌}
use native.Mathlib.Omega.{arith}
use agent_arena.Prelude.Dict.{Dict, get, put, del, has, keys, values, IsDict, is_some, get_of_mem}
use agent_arena.Prelude.Keys.{Eq, ◌==◌}
use agent_arena.Prelude.Maps.{map_option, mem-map}
use agent_arena.Prelude.Lists.{length, get_elem?}
use Prim.Native.Nat.{ℕ, zero, suc, ◌<◌}
use agent_arena.Prelude.Sort.{All}
use agent_arena.Prelude.Tests.{Bool-cases, if◌then◌else◌}

module _ {ℓ} {K : Type ℓ} ⦃e : Eq K⦄ where
  unfoldable pub contains : List K → K → Bool
  contains [] k = false
  contains (j ∷ js) k = if j == k then true else contains js k

  -- No key stands twice.
  abbrev pub IsDistinct : List K → Type 0
  IsDistinct [] = Unit
  IsDistinct (k ∷ ks) = (contains ks k ≡ false) × IsDistinct ks

  unfoldable pub add_key : List K → K → List K
  add_key [] k = k ∷ []
  add_key (j ∷ js) k = if j == k then j ∷ js else j ∷ add_key js k

  unfoldable pub drop_key : List K → K → List K
  drop_key [] k = []
  drop_key (j ∷ js) k = let rest = drop_key js k in if j == k then rest else j ∷ rest

  pub contains-add_key :
      (ks : List K) (k j : K) → contains (add_key ks k) j ≡ (k == j || contains ks j)
  unfolding contains add_key
  contains-add_key [] k j = ground arith
  contains-add_key (i ∷ ks) k j =
      ground (arith, e.beq_iff i k, e.beq_iff i j, e.beq_iff k j, contains-add_key ks k j)

  pub contains-drop_key :
      (ks : List K) (k j : K) → contains (drop_key ks k) j ≡ (not (k == j) && contains ks j)
  unfolding contains drop_key
  contains-drop_key [] k j = ground arith
  contains-drop_key (i ∷ ks) k j =
      ground (arith, e.beq_iff i k, e.beq_iff i j, e.beq_iff k j, contains-drop_key ks k j)

  pub mem_of_contains : (ks : List K) (k : K) → contains ks k ≡ true → Memᴰ k ks
  unfolding contains
  mem_of_contains [] k h = absurd (cc h)
  mem_of_contains (j ∷ ks) k h = elim (Bool-cases (j == k)) [
    | inl p ↦ Memᴰ.head (sym ((e.beq_iff j k).0 p))
    | inr p ↦ Memᴰ.tail (mem_of_contains ks k (rw p at h))
  ]

  pub contains_of_mem : (ks : List K) (k : K) → Memᴰ k ks → contains ks k ≡ true
  unfolding contains
  contains_of_mem [] k m = elim m [ ]
  contains_of_mem (j ∷ ks) k (Memᴰ.head p) = ground (arith, e.beq_iff j k, p)
  contains_of_mem (j ∷ ks) k (Memᴰ.tail m) = ground (arith, contains_of_mem ks k m)

  add_key_known : (ks : List K) (k : K) → contains ks k ≡ true → add_key ks k ≡ ks
  unfolding contains add_key
  add_key_known [] k h = absurd (cc h)
  add_key_known (j ∷ ks) k h = ground (arith, add_key_known ks k)

module _ {ℓ κ} {K : Type ℓ} {V : Type κ} ⦃e : Eq K⦄ where
  pub has-keys : (d : Dict K V) (k : K) → has d k ≡ contains (keys d) k
  unfolding get contains
  has-keys [] k = refl
  has-keys ((j, v) ∷ d) k = ground (arith, has-keys d k)

  pub keys-put : (d : Dict K V) (k : K) (v : V) → keys (put d k v) ≡ add_key (keys d) k
  unfolding put add_key
  keys-put [] k v = refl
  keys-put ((j, w) ∷ d) k v = ground (arith, keys-put d k v)

  pub keys-del : (d : Dict K V) (k : K) → keys (del d k) ≡ drop_key (keys d) k
  unfolding del drop_key
  keys-del [] k = refl
  keys-del ((j, w) ∷ d) k = ground (arith, keys-del d k)

  pub del-put : (d : Dict K V) (k : K) (v : V) → get d k ≡ none → del (put d k v) k ≡ d
  unfolding get put del
  del-put [] k v h = ground (arith, (e.beq_iff k k).1 refl)
  del-put ((j, w) ∷ d) k v h = ground (arith, del-put d k v)

  -- A property of entries that a new entry has, and the others had, holds after a write or a deletion.
  pub All-put {μ} :
      (P : K × V → Type μ) (d : Dict K V) (k : K) (v : V) → P (k, v) → All P d → All P (put d k v)
  unfolding put
  All-put P [] k v new old = (new, tt)
  All-put P ((j, w) ∷ d) k v new old = elim (Bool-cases (j == k)) [
    | inl p ↦ rw p (subst (λ (i : K). P (i, v)) (sym ((e.beq_iff j k).0 p)) new, old.1)
    | inr p ↦ rw p (old.0, All-put P d k v new old.1)
  ]

  pub All-del {μ} : (P : K × V → Type μ) (d : Dict K V) (k : K) → All P d → All P (del d k)
  unfolding del
  All-del P [] k old = tt
  All-del P ((j, w) ∷ d) k old = elim (Bool-cases (j == k)) [
    | inl p ↦ rw p (All-del P d k old.1)
    | inr p ↦ rw p (old.0, All-del P d k old.1)
  ]

  pub All-get {μ} :
      (P : K × V → Type μ) (d : Dict K V) (k : K) (v : V) → All P d → get d k ≡ some v → P (k, v)
  unfolding get
  All-get P [] k v old h = absurd (cc h)
  All-get P ((j, w) ∷ d) k v old h = elim (Bool-cases (j == k)) [
    | inl p ↦
        subst₂ (λ (i : K) (u : V). P (i, u)) ((e.beq_iff j k).0 p) (some-injective _ _ (rw p at h))
          old.0
    | inr p ↦ All-get P d k v old.1 (rw p at h)
  ]

  has-middle : (d e : Dict K V) (k : K) (v : V) → has (d ++ (k, v) ∷ e) k ≡ true
  unfolding get
  has-middle [] e' k v = ground (arith, (e.beq_iff k k).1 refl)
  has-middle ((j, w) ∷ d) e' k v = ground (arith, has-middle d e' k v)

  -- A write under a new key puts the entry at the end.
  pub put-append :
      (d e : Dict K V) (k : K) (v : V) → IsDict (d ++ (k, v) ∷ e) → put d k v ++ e ≡ d ++ (k, v) ∷ e
  unfolding put
  put-append [] e' k v h = refl
  put-append ((j, w) ∷ d) e' k v h = elim (Bool-cases (j == k)) [
    | inl p ↦ absurd (
        cc (
          has-middle d e' k v,
          ap (λ (o : Option V). is_some o)
              (subst (λ (i : K). get (d ++ (k, v) ∷ e') i ≡ none) ((e.beq_iff j k).0 p) h.0),
        ))
    | inr p ↦ rw p (ap (◌∷◌ (j, w)) (put-append d e' k v h.1))
  ]

  -- A write to a known key leaves the keys as they are.
  pub keys-put_known : (d : Dict K V) (k : K) (v : V) → has d k ≡ true → keys (put d k v) ≡ keys d
  keys-put_known d k v h = keys-put d k v ∙ add_key_known (keys d) k (sym (has-keys d k) ∙ h)

  -- A dictionary is its keys, in their order, and what they are looked up to.
  pub dict_ext :
      (d e : Dict K V)
      → IsDict d
      → IsDict e
      → keys d ≡ keys e
      → ((k : K) → get d k ≡ get e k)
      → d ≡ e
  unfolding get
  dict_ext [] [] h k p q = refl
  dict_ext [] (x ∷ e') h k p q = absurd (cc p)
  dict_ext (x ∷ d) [] h k p q = absurd (cc p)
  dict_ext ((i, v) ∷ d) ((j, w) ∷ e') h k p q = cc (dict_ext d e' h.1 k.1 rest tails, head, same)
    where
      same : i ≡ j
      same = cc p

      rest : keys d ≡ keys e'
      rest = cc p

      head : v ≡ w
      head = ground (arith, q i, e.beq_iff i i, e.beq_iff j i, same)

      tails : (l : K) → get d l ≡ get e' l
      tails l = ground (arith, q l, e.beq_iff i l, e.beq_iff j l, h.0, k.0, same)

  pub get-map_values {μ} :
      {W : Type μ} (f : V → W) (d : Dict K V) (k : K)
      → get (map (λ e. (e.0, f e.1)) d) k ≡ map_option f (get d k)
  unfolding get
  get-map_values f [] k = refl
  get-map_values f ((j, v) ∷ d) k = elim (Bool-cases (j == k)) [
    | inl p ↦ rw p refl
    | inr p ↦ rw p (get-map_values f d k)
  ]

  pub map_values-IsDict {μ} :
      {W : Type μ} (f : V → W) (d : Dict K V) → IsDict d → IsDict (map (λ e. (e.0, f e.1)) d)
  map_values-IsDict f [] h = tt
  map_values-IsDict f ((k, v) ∷ d) h =
      (get-map_values f d k ∙ ap (map_option f) h.0, map_values-IsDict f d h.1)

  pub keys-map_values {μ} :
      {W : Type μ} (f : V → W) (d : Dict K V) → keys (map (λ e. (e.0, f e.1)) d) ≡ keys d
  keys-map_values f [] = refl
  keys-map_values f ((k, v) ∷ d) = ap (◌∷◌ k) (keys-map_values f d)

  pub put_fresh : (d : Dict K V) (k : K) (v : V) → get d k ≡ none → put d k v ≡ d ++ (k, v) ∷ []
  unfolding get put
  put_fresh [] k v h = refl
  put_fresh ((j, w) ∷ d) k v h = ground (arith, put_fresh d k v)

  pub keys-put_fresh :
      (d : Dict K V) (k : K) (v : V) → get d k ≡ none → keys (put d k v) ≡ keys d ++ k ∷ []
  unfolding get put
  keys-put_fresh [] k v h = refl
  keys-put_fresh ((j, w) ∷ d) k v h = ground (arith, keys-put_fresh d k v)

  entry_at :
      (d : Dict K V) (i : ℕ)
      → i < length d
      → (e : K × V) × (get_elem? (keys d) i ≡ some e.0) × Memᴰ e d
  entry_at [] i h = absurd (omega arith)
  entry_at (e ∷ d) zero h = (e, refl, Memᴰ.head refl)
  entry_at (e ∷ d) (suc i) h = let (f, p, m) = entry_at d i (omega arith) in (f, p, Memᴰ.tail m)

  -- A position below the size is that of a key, which is looked up to a value.
  pub value_at :
      (d : Dict K V) (i : ℕ)
      → IsDict d
      → i < length d
      → (k : K) × (v : V) × (get_elem? (keys d) i ≡ some k) × (get d k ≡ some v) × Memᴰ v (values d)
  value_at d i h l =
      let (e, p, m) = entry_at d i l in
      (e.0, e.1, p, get_of_mem d e.0 e.1 h m, mem-map (λ f. f.1) d e m)

  pub values-put_fresh :
      (d : Dict K V) (k : K) (v : V) → get d k ≡ none → values (put d k v) ≡ values d ++ v ∷ []
  unfolding get put
  values-put_fresh [] k v h = refl
  values-put_fresh ((j, w) ∷ d) k v h = ground (arith, values-put_fresh d k v)
