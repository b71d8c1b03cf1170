-- ===== src/Prelude/Dict.antt =====
-- Python's `dict`: entries in insertion order, no key twice. A write to a known key keeps its place.
use Prim.Native.Nat.{◌+◌}
use mathlib.Core.Bool.{Bool, true, false, ◌||◌}
use mathlib.Core.List.{List, [], ◌∷◌, map, Memᴰ}
use mathlib.Core.Logic.{inl, inr}
use mathlib.Core.Option.{Option, none, some}
use mathlib.Core.Path.{◌≡◌, refl, sym}
use native.Mathlib.Omega.{arith}
use agent_arena.Prelude.Keys.{Eq, ◌==◌, beq_self}
use agent_arena.Prelude.Lists.{length}
use agent_arena.Prelude.Tests.{Bool-cases, if◌then◌else◌}

abbrev pub Dict {ℓ κ} : Type ℓ → Type κ → Type (ℓ ⊔ κ)
Dict K V = List (K × V)

module _ {ℓ κ} {K : Type ℓ} {V : Type κ} where
  abbrev pub keys : Dict K V → List K
  keys = map (λ e. e.0)

  abbrev pub values : Dict K V → List V
  values = map (λ e. e.1)

abbrev pub is_some {ℓ} : {A : Type ℓ} → Option A → Bool
is_some none = false
is_some (some a) = true

module _ {ℓ κ} {K : Type ℓ} {V : Type κ} ⦃e : Eq K⦄ where
  -- d.get(k)
  unfoldable pub get : Dict K V → K → Option V
  get [] k = none
  get ((j, v) ∷ d) k = if j == k then some v else get d k

  -- k in d
  abbrev pub has : Dict K V → K → Bool
  has d k = is_some (get d k)

  -- d[k] = v
  unfoldable pub put : Dict K V → K → V → Dict K V
  put [] k v = (k, v) ∷ []
  put ((j, w) ∷ d) k v = if j == k then (j, v) ∷ d else (j, w) ∷ put d k v

  -- del d[k], d.pop(k, None)
  unfoldable pub del : Dict K V → K → Dict K V
  del [] k = []
  del ((j, w) ∷ d) k = let rest = del d k in if j == k then rest else (j, w) ∷ rest

  -- No key stands twice.
  abbrev pub IsDict : Dict K V → Type κ
  IsDict [] = Unit
  IsDict ((k, v) ∷ d) = (get d k ≡ none) × IsDict d

  pub get-put :
      (d : Dict K V) (k j : K) (v : V) → get (put d k v) j ≡ (if k == j then some v else get d j)
  unfolding get put
  get-put [] k j v = refl
  get-put ((i, w) ∷ d) k j v =
      ground (arith, e.beq_iff k j, e.beq_iff i k, e.beq_iff i j, get-put d k j v)

  pub get-del : (d : Dict K V) (k j : K) → get (del d k) j ≡ (if k == j then none else get d j)
  unfolding get del
  get-del [] k j = ground arith
  get-del ((i, w) ∷ d) k j =
      ground (arith, e.beq_iff k j, e.beq_iff i k, e.beq_iff i j, get-del d k j)

  pub has-put : (d : Dict K V) (k j : K) (v : V) → has (put d k v) j ≡ (k == j || has d j)
  has-put d k j v = ground (arith, get-put d k j v)

  pub put-IsDict : (d : Dict K V) (k : K) (v : V) → IsDict d → IsDict (put d k v)
  unfolding get put
  put-IsDict [] k v h = (refl, tt)
  put-IsDict ((i, w) ∷ d) k v h = elim (Bool-cases (i == k)) [
    | inl p ↦ rw p h
    | inr p ↦
        rw p (ground (arith, get-put d k i v, e.beq_iff k i, e.beq_iff i k), put-IsDict d k v h.1)
  ]

  pub del-IsDict : (d : Dict K V) (k : K) → IsDict d → IsDict (del d k)
  unfolding get del
  del-IsDict [] k h = tt
  del-IsDict ((i, w) ∷ d) k h = elim (Bool-cases (i == k)) [
    | inl p ↦ rw p (del-IsDict d k h.1)
    | inr p ↦ rw p (ground (arith, get-del d k i, h.0), del-IsDict d k h.1)
  ]

  pub del_absent : (d : Dict K V) (k : K) → get d k ≡ none → del d k ≡ d
  unfolding get del
  del_absent [] k h = refl
  del_absent ((i, w) ∷ d) k h = ground (arith, del_absent d k)

  pub length-put :
      (d : Dict K V) (k : K) (v : V)
      → length (put d k v) ≡ (if has d k then length d else length d + 1)
  unfolding get put
  length-put [] k v = refl
  length-put ((i, w) ∷ d) k v = ground (arith, length-put d k v)

  pub length-del :
      (d : Dict K V) (k : K) → IsDict d → has d k ≡ true → length (del d k) + 1 ≡ length d
  unfolding get del
  length-del [] k h p = cc
  length-del ((i, w) ∷ d) k h p =
      ground (arith, length-del d k h.1, del_absent d k, e.beq_iff i k, h.0)

  -- An entry stands in the list exactly if its key is looked up to its value.
  pub mem_of_get : (d : Dict K V) (k : K) (v : V) → get d k ≡ some v → Memᴰ (k, v) d
  unfolding get
  mem_of_get [] k v h = absurd (cc)
  mem_of_get ((i, w) ∷ d) k v h = elim (Bool-cases (i == k)) [
    | inl p ↦ Memᴰ.head (ground (arith, e.beq_iff i k))
    | inr p ↦ Memᴰ.tail (mem_of_get d k v (ground arith))
  ]

  pub has_of_mem : (d : Dict K V) (k : K) (v : V) → Memᴰ (k, v) d → has d k ≡ true
  unfolding get
  has_of_mem [] k v m = elim m [ ]
  has_of_mem ((i, w) ∷ d) k v (Memᴰ.head p) = ground (arith, e.beq_iff i k, p)
  has_of_mem ((i, w) ∷ d) k v (Memᴰ.tail m) = ground (arith, has_of_mem d k v m)

  pub get_of_mem : (d : Dict K V) (k : K) (v : V) → IsDict d → Memᴰ (k, v) d → get d k ≡ some v
  unfolding get
  get_of_mem [] k v h m = elim m [ ]
  get_of_mem ((i, w) ∷ d) k v h (Memᴰ.head p) = ground (arith, e.beq_iff i k, p)
  get_of_mem ((i, w) ∷ d) k v h (Memᴰ.tail m) =
      ground (arith, e.beq_iff i k, has_of_mem d k v m, get_of_mem d k v h.1 m, h.0)

  pub has_of_mem-keys : (d : Dict K V) (k : K) → Memᴰ k (keys d) → has d k ≡ true
  unfolding get
  has_of_mem-keys [] k m = elim m [ ]
  has_of_mem-keys ((j, v) ∷ d) k (Memᴰ.head p) = rw (p, beq_self j)
  has_of_mem-keys ((j, v) ∷ d) k (Memᴰ.tail m) = ground (arith, has_of_mem-keys d k m)

  pub mem-keys_of_has : (d : Dict K V) (k : K) → has d k ≡ true → Memᴰ k (keys d)
  unfolding get
  mem-keys_of_has [] k h = absurd (cc)
  mem-keys_of_has ((j, v) ∷ d) k h = elim (Bool-cases (j == k)) [
    | inl p ↦ Memᴰ.head (sym ((e.beq_iff j k).0 p))
    | inr p ↦ Memᴰ.tail (mem-keys_of_has d k (rw p at h))
  ]
