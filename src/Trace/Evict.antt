-- ===== src/Trace/Evict.antt =====
-- The bounded dictionary of captures that `TraceStore.start_capture` and
-- `PromptInspector.start_capture` share, keyed by (agent_id, tick).
use agent_arena.Prelude.{
  ℕ, String, ◌+◌, ◌≡◌, ◌≤◌, ◌<◌, ◌⊎◌, true, [], ◌∷◌, Option, none, some, length, ltb, ◌==◌,
  if◌then◌else◌, arith, refl, sym, Bool-cases, inl, inr, string_key, nat_key, pair_key,
}
use agent_arena.Prelude.Dict.{
  Dict, get, del, has, keys, IsDict, get-del, del-IsDict, length-del, mem-keys_of_has,
  has_of_mem-keys,
}
use agent_arena.Prelude.Sort.{min_by, min_by-le, min_by-mem, All_at}
use mathlib.Core.Option.{some-injective}
use mathlib.Core.Path.{subst}

abbrev pub Key : Type 0
Key = String × ℕ

abbrev pub tick_of : Key → ℕ
tick_of k = k.1

module _ {ℓ} {V : Type ℓ} where
  -- `min(d.keys(), key=lambda k: k[1])`, on a dictionary with an entry
  unfoldable pub oldest_key : Dict Key V → Option Key
  oldest_key [] = none
  oldest_key ((k, v) ∷ d) = some (min_by tick_of k (keys d))

  abbrev drop_key : Dict Key V → Option Key → Dict Key V
  drop_key d none = d
  drop_key d (some k) = del d k

  -- `if len(d) > max_entries: del d[oldest_key]`
  unfoldable pub evict_oldest : ℕ → Dict Key V → Dict Key V
  unfolding oldest_key
  evict_oldest max_entries d = if ltb max_entries (length d) then drop_key d (oldest_key d) else d

  -- Every key has at least the tick of the oldest.
  pub oldest_key-le :
      (d : Dict Key V) (o k : Key) → oldest_key d ≡ some o → has d k ≡ true → o.1 ≤ k.1
  unfolding oldest_key
  oldest_key-le [] o k h m = absurd (cc)
  oldest_key-le ((j, v) ∷ d) o k h m =
      let least =
        All_at (λ (i : Key). (min_by tick_of j (keys d)).1 ≤ i.1) (keys ((j, v) ∷ d)) k
          (min_by-le tick_of j (keys d)) (mem-keys_of_has ((j, v) ∷ d) k m) in
      subst (λ (i : Key). i.1 ≤ k.1) (some-injective _ _ h) least

  pub oldest_key-has : (d : Dict Key V) (o : Key) → oldest_key d ≡ some o → has d o ≡ true
  unfolding oldest_key
  oldest_key-has [] o h = absurd (cc)
  oldest_key-has ((j, v) ∷ d) o h =
      subst (λ (i : Key). has ((j, v) ∷ d) i ≡ true) (some-injective _ _ h)
        (has_of_mem-keys ((j, v) ∷ d) (min_by tick_of j (keys d)) (min_by-mem tick_of j (keys d)))

  -- Within the bound nothing changes; past it the entry of the oldest key goes.
  pub evict_oldest-cases :
      (m : ℕ) (d : Dict Key V)
      → ((evict_oldest m d ≡ d) × (length d ≤ m))
        ⊎ ((o : Key) × (oldest_key d ≡ some o) × (evict_oldest m d ≡ del d o) × (m < length d))
  unfolding evict_oldest
  evict_oldest-cases m [] = inl (ground arith, omega arith)
  evict_oldest-cases m ((k, v) ∷ d) = elim (Bool-cases (ltb m (length ((k, v) ∷ d)))) [
    | inl over ↦ inr (min_by tick_of k (keys d), refl, rw over, ground arith)
    | inr fits ↦ inl (rw fits, ground arith)
  ]

  pub evict_oldest-IsDict : (m : ℕ) (d : Dict Key V) → IsDict d → IsDict (evict_oldest m d)
  evict_oldest-IsDict m d h = elim (evict_oldest-cases m d) [
    | inl (e, _) ↦ rw e h
    | inr (o, _, e, _) ↦ rw e (del-IsDict d o h)
  ]

  -- One entry too many is brought back to the bound.
  pub length-evict_oldest :
      (m : ℕ) (d : Dict Key V) → IsDict d → length d ≤ m + 1 → length (evict_oldest m d) ≤ m
  length-evict_oldest m d h fits = elim (evict_oldest-cases m d) [
    | inl (e, within) ↦ rw e within
    | inr (o, oldest, e, _) ↦ rw e (omega (arith, length-del d o h (oldest_key-has d o oldest)))
  ]

  -- Eviction either leaves a key alone, or removes it because the bound is passed and no other key
  -- has a smaller tick.
  pub get-evict_oldest :
      (m : ℕ) (d : Dict Key V) (k : Key)
      → (get (evict_oldest m d) k ≡ get d k)
        ⊎ ((m < length d)
            × (get (evict_oldest m d) k ≡ none)
            × ((j : Key) → has d j ≡ true → k.1 ≤ j.1))
  get-evict_oldest m d k = elim (evict_oldest-cases m d) [
    | inl (e, _) ↦ inl (rw e)
    | inr (o, oldest, e, over) ↦ elim (Bool-cases (o == k)) [
      | inl same ↦
          let o-eq-k = (pair_key.beq_iff o k).0 same in
          inr
            (over, rw (e, get-del d o k, same), λ j m. rw (← o-eq-k) (oldest_key-le d o j oldest m))
      | inr other ↦ inl (rw (e, get-del d o k, other))
    ]
  ]

  -- Past the bound, a key whose tick is below all the others' is the one removed.
  pub evict_oldest_least :
      (m : ℕ) (d : Dict Key V) (k : Key)
      → m < length d
      → has d k ≡ true
      → ((j : Key) → has d j ≡ true → (k ≡ j) ⊎ (k.1 < j.1))
      → get (evict_oldest m d) k ≡ none
  evict_oldest_least m d k over stored least = elim (evict_oldest-cases m d) [
    | inl (_, within) ↦ absurd (omega arith)
    | inr (o, oldest, e, _) ↦ elim (least o (oldest_key-has d o oldest)) [
      | inl same ↦ rw (e, get-del d o k, (pair_key.beq_iff o k).1 (sym same))
      | inr later ↦ absurd (omega (arith, oldest_key-le d o k oldest stored))
    ]
  ]
