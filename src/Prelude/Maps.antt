-- ===== src/Prelude/Maps.antt =====
-- The maps of lists and options commute with indexing, writing, filtering and sorting.
use mathlib.Core.Bool.{Bool}
use mathlib.Core.List.{
  List, [], ◌∷◌, ◌++◌, map, filter_map, filter_map-cons-none, filter_map-cons-some, Memᴰ,
}
use mathlib.Core.Option.{Option, none, some}
use mathlib.Core.Path.{◌≡◌, refl, sym, ap, ◌∙◌, subst}
use mathlib.Core.Logic.{inl, inr}
use Prim.Native.Nat.{ℕ, zero, suc, ◌≤◌}
use agent_arena.Prelude.Lists.{length, get_elem?, set, drop, keep}
use native.Mathlib.Omega.{arith}
use agent_arena.Prelude.Sort.{sort_by, insert_sorted, mem-sort_by, All, All_at, All-of_mem}
use agent_arena.Prelude.Tests.{Bool-cases, Option-cases}

module _ {ℓ} {A : Type ℓ} {x : A} where
  pub mem_left : (xs ys : List A) → Memᴰ x xs → Memᴰ x (xs ++ ys)
  mem_left [] ys m = elim m [ ]
  mem_left (z ∷ xs) ys (Memᴰ.head p) = Memᴰ.head p
  mem_left (z ∷ xs) ys (Memᴰ.tail m) = Memᴰ.tail (mem_left xs ys m)

  pub mem_right : (xs ys : List A) → Memᴰ x ys → Memᴰ x (xs ++ ys)
  mem_right [] ys m = m
  mem_right (z ∷ xs) ys m = Memᴰ.tail (mem_right xs ys m)

module _ {ℓ κ} {A : Type ℓ} {B : Type κ} where
  abbrev pub map_option : (A → B) → Option A → Option B
  map_option f none = none
  map_option f (some a) = some (f a)

module _ {ℓ κ} {A : Type ℓ} {B : Type κ} (f : A → B) where
  pub length-map : (xs : List A) → length (map f xs) ≡ length xs
  length-map [] = refl
  length-map (x ∷ xs) = ap suc (length-map xs)

  pub get_elem?-map : (xs : List A) (i : ℕ) → get_elem? (map f xs) i ≡ map_option f (get_elem? xs i)
  get_elem?-map [] i = refl
  get_elem?-map (x ∷ xs) zero = refl
  get_elem?-map (x ∷ xs) (suc i) = get_elem?-map xs i

  pub map-set : (xs : List A) (i : ℕ) (a : A) → map f (set xs i a) ≡ set (map f xs) i (f a)
  map-set [] i a = refl
  map-set (x ∷ xs) zero a = refl
  map-set (x ∷ xs) (suc i) a = ap (◌∷◌ (f x)) (map-set xs i a)

  module _ (le : A → A → Bool) (le' : B → B → Bool)
      (same : (a b : A) → le' (f a) (f b) ≡ le a b) where
    map-insert_sorted :
        (x : A) (xs : List A) → map f (insert_sorted le x xs) ≡ insert_sorted le' (f x) (map f xs)
    unfolding insert_sorted
    map-insert_sorted x [] = refl
    map-insert_sorted x (y ∷ ys) = elim (Bool-cases (le x y)) [
      | inl p ↦ rw (same x y, p) refl
      | inr p ↦ rw (same x y, p) (ap (◌∷◌ (f y)) (map-insert_sorted x ys))
    ]

    pub map-sort_by : (xs : List A) → map f (sort_by le xs) ≡ sort_by le' (map f xs)
    unfolding sort_by
    map-sort_by [] = refl
    map-sort_by (x ∷ xs) =
        map-insert_sorted x (sort_by le xs) ∙ ap (insert_sorted le' (f x)) (map-sort_by xs)

pub map-filter_map {ℓ κ μ} :
    {A : Type ℓ} {B : Type κ} {C : Type μ} (f : B → C) (g : A → Option B) (h : A → Option C)
    → ((a : A) → h a ≡ map_option f (g a))
    → (xs : List A) → map f (filter_map g xs) ≡ filter_map h xs
unfolding filter_map
map-filter_map f g h same [] = refl
map-filter_map f g h same (x ∷ xs) = elim (Option-cases (g x)) [
  | inl p ↦ rw (same x, p) (map-filter_map f g h same xs)
  | inr (y, p) ↦ rw (same x, p) (ap (◌∷◌ (f y)) (map-filter_map f g h same xs))
]

module _ {ℓ κ} {A : Type ℓ} {B : Type κ} where
  -- What a list is mapped to comes from one of its items.
  pub mem_of_mem-filter_map :
      (f : A → Option B) (xs : List A) (t : B)
      → Memᴰ t (filter_map f xs)
      → (a : A) × Memᴰ a xs × (f a ≡ some t)
  unfolding filter_map
  mem_of_mem-filter_map f [] t m = elim m [ ]
  mem_of_mem-filter_map f (x ∷ xs) t m = elim (Option-cases (f x)) [
    | inl e ↦
        let (a, n, h) = mem_of_mem-filter_map f xs t (rw (filter_map-cons-none f x xs e) at m) in
        (a, Memᴰ.tail n, h)
    | inr (u, e) ↦ elim (rw (filter_map-cons-some f x xs e) at m) [
      | Memᴰ.head p ↦ (x, Memᴰ.head refl, e ∙ ap some (sym p))
      | Memᴰ.tail n ↦ let (a, r, h) = mem_of_mem-filter_map f xs t n in (a, Memᴰ.tail r, h)
    ]
  ]

  pub mem-filter_map_of :
      (f : A → Option B) (xs : List A) (t : B) (a : A)
      → Memᴰ a xs
      → f a ≡ some t
      → Memᴰ t (filter_map f xs)
  mem-filter_map_of f [] t a m h = elim m [ ]
  mem-filter_map_of f (x ∷ xs) t a (Memᴰ.head p) h =
      rw (filter_map-cons-some f x xs (ap f (sym p) ∙ h)) (Memᴰ.head refl)
  mem-filter_map_of f (x ∷ xs) t a (Memᴰ.tail m) h = elim (Option-cases (f x)) [
    | inl e ↦ rw (filter_map-cons-none f x xs e) (mem-filter_map_of f xs t a m h)
    | inr (u, e) ↦ rw (filter_map-cons-some f x xs e) (Memᴰ.tail (mem-filter_map_of f xs t a m h))
  ]

  -- `[y for x in xs for y in f(x)]`
  abbrev pub for_each : List A → (A → List B) → List B
  for_each [] f = []
  for_each (x ∷ xs) f = f x ++ for_each xs f

  pub mem-for_each :
      (xs : List A) (f : A → List B) (x : A) (y : B)
      → Memᴰ x xs
      → Memᴰ y (f x)
      → Memᴰ y (for_each xs f)
  mem-for_each [] f x y m n = elim m [ ]
  mem-for_each (z ∷ xs) f x y (Memᴰ.head p) n =
      mem_left (f z) _ (subst (λ (w : A). Memᴰ y (f w)) p n)
  mem-for_each (z ∷ xs) f x y (Memᴰ.tail m) n = mem_right (f z) _ (mem-for_each xs f x y m n)

  pub mem-map : (f : A → B) (xs : List A) (x : A) → Memᴰ x xs → Memᴰ (f x) (map f xs)
  mem-map f [] x m = elim m [ ]
  mem-map f (y ∷ xs) x (Memᴰ.head p) = Memᴰ.head (ap f p)
  mem-map f (y ∷ xs) x (Memᴰ.tail m) = Memᴰ.tail (mem-map f xs x m)

module _ {ℓ} {A : Type ℓ} (le : A → A → Bool) where
  length-insert_sorted : (x : A) (xs : List A) → length (insert_sorted le x xs) ≡ suc (length xs)
  unfolding insert_sorted
  length-insert_sorted x [] = refl
  length-insert_sorted x (y ∷ ys) = elim (Bool-cases (le x y)) [
    | inl p ↦ rw p refl
    | inr p ↦ rw p (ap suc (length-insert_sorted x ys))
  ]

  pub length-sort_by : (xs : List A) → length (sort_by le xs) ≡ length xs
  unfolding sort_by
  length-sort_by [] = refl
  length-sort_by (x ∷ xs) = length-insert_sorted x (sort_by le xs) ∙ ap suc (length-sort_by xs)

  pub All-sort_by {κ} : (P : A → Type κ) (xs : List A) → All P xs → All P (sort_by le xs)
  All-sort_by P xs h =
      All-of_mem (sort_by le xs) (λ a m. All_at P xs a h ((mem-sort_by le a xs).0 m))

pub All-drop {ℓ κ} :
    {A : Type ℓ} (P : A → Type κ) (n : ℕ) (xs : List A) → All P xs → All P (drop n xs)
All-drop P zero xs h = h
All-drop P (suc n) [] h = tt
All-drop P (suc n) (x ∷ xs) h = All-drop P n xs h.1

pub length-keep {ℓ} : {A : Type ℓ} (p : A → Bool) (xs : List A) → length (keep p xs) ≤ length xs
length-keep p [] = omega arith
length-keep p (x ∷ xs) = ground (arith, length-keep p xs)
