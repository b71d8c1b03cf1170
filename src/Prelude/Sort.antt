-- ===== src/Prelude/Sort.antt =====
-- Python's stable `sorted`, and `min` with a key. `le a b` says that `a` may stand before `b`.
use Prim.Native.Nat.{ℕ, ◌≤◌}
use mathlib.Core.Bool.{Bool, true}
use mathlib.Core.List.{List, [], ◌∷◌, Memᴰ, Perm}
use mathlib.Core.List.Perm
use mathlib.Core.Logic.{◌↔◌, ◌⊎◌, inl, inr}
use mathlib.Core.Path.{◌≡◌, refl, sym, subst, ◌∙◌}
use native.Mathlib.Nat.{le_trans}
use native.Mathlib.Omega.{arith}
use agent_arena.Prelude.Tests.{leb, ltb, Bool-cases, if◌then◌else◌}

abbrev pub All {ℓ κ} : {A : Type ℓ} → (A → Type κ) → List A → Type κ
All P [] = Unit
All P (x ∷ xs) = P x × All P xs

pub All-imp {ℓ κ μ} :
    {A : Type ℓ} {P : A → Type κ} {Q : A → Type μ} (xs : List A)
    → ((a : A) → P a → Q a)
    → All P xs
    → All Q xs
All-imp [] f h = tt
All-imp (x ∷ xs) f h = (f x h.0, All-imp xs f h.1)

pub All-of_mem {ℓ κ} :
    {A : Type ℓ} {P : A → Type κ} (xs : List A) → ((a : A) → Memᴰ a xs → P a) → All P xs
All-of_mem [] f = tt
All-of_mem (x ∷ xs) f = (f x (Memᴰ.head refl), All-of_mem xs (λ a m. f a (Memᴰ.tail m)))

pub All_at {ℓ κ} : {A : Type ℓ} (P : A → Type κ) (xs : List A) (a : A) → All P xs → Memᴰ a xs → P a
All_at P [] a h m = elim m [ ]
All_at P (x ∷ xs) a h (Memᴰ.head e) = subst P (sym e) h.0
All_at P (x ∷ xs) a h (Memᴰ.tail m) = All_at P xs a h.1 m

-- A total preorder given by its test.
pub record IsOrder {ℓ} {A : Type ℓ} (le : A → A → Bool) : Type ℓ where
  pub total : (a b : A) → (le a b ≡ true) ⊎ (le b a ≡ true)
  pub trans : (a b c : A) → le a b ≡ true → le b c ≡ true → le a c ≡ true

module _ {ℓ} {A : Type ℓ} (le : A → A → Bool) where
  unfoldable pub insert_sorted : A → List A → List A
  insert_sorted x [] = x ∷ []
  insert_sorted x (y ∷ ys) = if le x y then x ∷ y ∷ ys else y ∷ insert_sorted x ys

  unfoldable pub sort_by : List A → List A
  unfolding insert_sorted
  sort_by [] = []
  sort_by (x ∷ xs) = insert_sorted x (sort_by xs)

  abbrev pub IsSorted : List A → Type ℓ
  IsSorted [] = Unit
  IsSorted (x ∷ xs) = All (λ y. le x y ≡ true) xs × IsSorted xs

  insert_sorted-perm : (x : A) (xs : List A) → Perm (insert_sorted x xs) (x ∷ xs)
  unfolding insert_sorted
  insert_sorted-perm x [] = Perm.refl _
  insert_sorted-perm x (y ∷ ys) = elim (Bool-cases (le x y)) [
    | inl p ↦ rw p (Perm.refl _)
    | inr p ↦ rw p (Perm.trans (Perm.cons y (insert_sorted-perm x ys)) (Perm.swap x y ys))
  ]

  pub sort_by-perm : (xs : List A) → Perm (sort_by xs) xs
  unfolding sort_by
  sort_by-perm [] = Perm.refl _
  sort_by-perm (x ∷ xs) =
      Perm.trans (insert_sorted-perm x (sort_by xs)) (Perm.cons x (sort_by-perm xs))

  insert_sorted-mem : (a x : A) (xs : List A) → Memᴰ a (insert_sorted x xs) ↔ Memᴰ a (x ∷ xs)
  unfolding insert_sorted
  insert_sorted-mem a x [] = (λ m. m, λ m. m)
  insert_sorted-mem a x (y ∷ ys) = elim (Bool-cases (le x y)) [
    | inl p ↦ rw p (λ m. m, λ m. m)
    | inr p ↦
        let (f, g) = insert_sorted-mem a x ys in
        rw p (
          λ m. elim m [
            | Memᴰ.head e ↦ Memᴰ.tail (Memᴰ.head e)
            | Memᴰ.tail t ↦ elim (f t) [
              | Memᴰ.head e ↦ Memᴰ.head e
              | Memᴰ.tail r ↦ Memᴰ.tail (Memᴰ.tail r)
            ]
          ],
          λ m. elim m [
            | Memᴰ.head e ↦ Memᴰ.tail (g (Memᴰ.head e))
            | Memᴰ.tail t ↦ elim t [
              | Memᴰ.head e ↦ Memᴰ.head e
              | Memᴰ.tail r ↦ Memᴰ.tail (g (Memᴰ.tail r))
            ]
          ],
        )
  ]

  -- Sorting loses and invents nothing.
  pub mem-sort_by : (a : A) (xs : List A) → Memᴰ a (sort_by xs) ↔ Memᴰ a xs
  unfolding sort_by
  mem-sort_by a [] = (λ m. m, λ m. m)
  mem-sort_by a (x ∷ xs) =
      let (f, g) = insert_sorted-mem a x (sort_by xs) in
      let (f', g') = mem-sort_by a xs in
      (
        λ m. elim (f m) [ Memᴰ.head e ↦ Memᴰ.head e | Memᴰ.tail t ↦ Memᴰ.tail (f' t) ],
        λ m. elim m [ Memᴰ.head e ↦ g (Memᴰ.head e) | Memᴰ.tail t ↦ g (Memᴰ.tail (g' t)) ],
      )

  insert_sorted-All {κ} :
      (P : A → Type κ) (x : A) (xs : List A) → P x → All P xs → All P (insert_sorted x xs)
  unfolding insert_sorted
  insert_sorted-All P x [] p h = (p, tt)
  insert_sorted-All P x (y ∷ ys) p h = elim (Bool-cases (le x y)) [
    | inl e ↦ rw e (p, h)
    | inr e ↦ rw e (h.0, insert_sorted-All P x ys p h.1)
  ]

  module _ (order : IsOrder le) where
    insert_sorted-IsSorted : (x : A) (xs : List A) → IsSorted xs → IsSorted (insert_sorted x xs)
    unfolding insert_sorted
    insert_sorted-IsSorted x [] h = (tt, tt)
    insert_sorted-IsSorted x (y ∷ ys) h = elim (Bool-cases (le x y)) [
      | inl e ↦ rw e ((e, All-imp ys (λ a q. order.trans x y a e q) h.0), h)
      | inr e ↦ rw e (
        insert_sorted-All _ x ys (elim (order.total x y) [ inl q ↦ absurd (cc) | inr q ↦ q ]) h.0,
        insert_sorted-IsSorted x ys h.1,
      )
    ]

    pub sort_by-IsSorted : (xs : List A) → IsSorted (sort_by xs)
    unfolding sort_by
    sort_by-IsSorted [] = tt
    sort_by-IsSorted (x ∷ xs) = insert_sorted-IsSorted x (sort_by xs) (sort_by-IsSorted xs)

module _ {ℓ} {A : Type ℓ} (key : A → ℕ) where
  -- `sort(key=...)`, and with `reverse=True`
  abbrev pub ascending : A → A → Bool
  ascending a b = leb (key a) (key b)

  abbrev pub descending : A → A → Bool
  descending a b = leb (key b) (key a)

  pub ascending-IsOrder : IsOrder ascending
  ascending-IsOrder = record { total = λ a b. ground arith; trans = λ a b c h k. ground arith }

  pub descending-IsOrder : IsOrder descending
  descending-IsOrder = record { total = λ a b. ground arith; trans = λ a b c h k. ground arith }

  earlier : A → A → A
  earlier x y = if ltb (key y) (key x) then y else x

  earlier-le : (x y : A) → (key (earlier x y) ≤ key x) × (key (earlier x y) ≤ key y)
  unfolding earlier
  earlier-le x y = ground arith

  earlier-cases : (x y : A) → (earlier x y ≡ x) ⊎ (earlier x y ≡ y)
  unfolding earlier
  earlier-cases x y = ground arith

  -- `min([x, *xs], key=...)`: the first item with the least key
  unfoldable pub min_by : A → List A → A
  unfolding earlier
  min_by x [] = x
  min_by x (y ∷ ys) = min_by (earlier x y) ys

  pub min_by-le : (x : A) (ys : List A) → All (λ y. key (min_by x ys) ≤ key y) (x ∷ ys)
  unfolding min_by
  min_by-le x [] = omega arith
  min_by-le x (y ∷ ys) =
      let r = min_by-le (earlier x y) ys in
      let e = earlier-le x y in (le_trans r.0 e.0, (le_trans r.0 e.1, r.1))

  pub min_by-mem : (x : A) (ys : List A) → Memᴰ (min_by x ys) (x ∷ ys)
  unfolding min_by
  min_by-mem x [] = Memᴰ.head refl
  min_by-mem x (y ∷ ys) = elim (min_by-mem (earlier x y) ys) [
    | Memᴰ.head e ↦ elim (earlier-cases x y) [
      | inl p ↦ Memᴰ.head (e ∙ p)
      | inr p ↦ Memᴰ.tail (Memᴰ.head (e ∙ p))
    ]
    | Memᴰ.tail m ↦ Memᴰ.tail (Memᴰ.tail m)
  ]
