-- ===== src/Prelude/Lists.antt =====
-- Lists measured and indexed by native numbers, under the library's names, and Python's slices.
use Prim.Native.Nat.{ℕ, zero, suc, ◌+◌, ◌-◌, ◌≤◌, ◌<◌, min}
use mathlib.Core.Bool.{Bool, true}
use mathlib.Core.List.{List, [], ◌∷◌, ◌++◌, Memᴰ, reverse}
use mathlib.Core.Logic.{◌↔◌, inl, inr}
use mathlib.Core.Option.{Option, none, some}
use mathlib.Core.Path.{◌≡◌, refl, sym, ap, ◌∙◌}
use mathlib.Core.List.{reverse-append}
use native.Mathlib.Decide.{dec_le}
use native.Mathlib.Nat.{zero-add, suc-add}
use native.Mathlib.Omega.{arith}
use agent_arena.Prelude.Tests.{Bool-cases, nat_beq, if◌then◌else◌}

module _ {ℓ} {A : Type ℓ} where
  abbrev pub length : List A → ℕ
  length [] = 0
  length (x ∷ xs) = suc (length xs)

  abbrev pub get_elem? : List A → ℕ → Option A
  get_elem? [] i = none
  get_elem? (x ∷ xs) zero = some x
  get_elem? (x ∷ xs) (suc i) = get_elem? xs i

  -- A write out of bounds changes nothing.
  abbrev pub set : List A → ℕ → A → List A
  set [] i v = []
  set (x ∷ xs) zero v = v ∷ xs
  set (x ∷ xs) (suc i) v = x ∷ set xs i v

  abbrev pub take : ℕ → List A → List A
  take zero xs = []
  take (suc n) [] = []
  take (suc n) (x ∷ xs) = x ∷ take n xs

  abbrev pub drop : ℕ → List A → List A
  drop zero xs = xs
  drop (suc n) [] = []
  drop (suc n) (x ∷ xs) = drop n xs

  -- `[x for x in xs if p(x)]`
  abbrev pub keep : (A → Bool) → List A → List A
  keep p [] = []
  keep p (x ∷ xs) = let rest = keep p xs in if p x then x ∷ rest else rest

module _ {ℓ} {A : Type ℓ} where
  pub length-append : (xs ys : List A) → length (xs ++ ys) ≡ length xs + length ys
  length-append [] ys = omega arith
  length-append (x ∷ xs) ys = omega (arith, length-append xs ys)

  pub length-drop : (n : ℕ) (xs : List A) → length (drop n xs) ≡ length xs - n
  length-drop zero xs = omega arith
  length-drop (suc n) [] = omega arith
  length-drop (suc n) (x ∷ xs) = omega (arith, length-drop n xs)

  pub drop-append_le :
      (n : ℕ) (xs ys : List A) → n ≤ length xs → drop n (xs ++ ys) ≡ drop n xs ++ ys
  drop-append_le zero xs ys h = refl
  drop-append_le (suc n) [] ys h = absurd (omega arith)
  drop-append_le (suc n) (x ∷ xs) ys h = drop-append_le n xs ys (omega arith)

  pub drop_all : (n : ℕ) (xs : List A) → length xs ≤ n → drop n xs ≡ []
  drop_all zero [] h = refl
  drop_all zero (x ∷ xs) h = absurd (omega arith)
  drop_all (suc n) [] h = refl
  drop_all (suc n) (x ∷ xs) h = drop_all n xs (omega arith)

  pub drop-drop : (n m : ℕ) (xs : List A) → drop m (drop n xs) ≡ drop (n + m) xs
  drop-drop zero m xs = rw zero-add
  drop-drop (suc n) zero [] = rw suc-add refl
  drop-drop (suc n) (suc m) [] = rw suc-add refl
  drop-drop (suc n) m (x ∷ xs) = rw suc-add (drop-drop n m xs)

  pub get_elem?-append : (xs ys : List A) → get_elem? (xs ++ ys) (length xs) ≡ get_elem? ys 0
  get_elem?-append [] ys = refl
  get_elem?-append (x ∷ xs) ys = get_elem?-append xs ys

  pub length-reverse : (xs : List A) → length (reverse xs) ≡ length xs
  length-reverse [] = refl
  length-reverse (x ∷ xs) =
      rw (reverse-append (x ∷ []) xs)
        (omega (arith, length-append (reverse xs) (x ∷ []), length-reverse xs))

  -- A write to an index in range is read back there, and nowhere else.
  pub get_elem?-set :
      (xs : List A) (i j : ℕ) (v a : A)
      → get_elem? xs i ≡ some a
      → get_elem? (set xs i v) j ≡ (if nat_beq i j then some v else get_elem? xs j)
  get_elem?-set [] i j v a h = absurd (cc)
  get_elem?-set (x ∷ xs) zero zero v a h = refl
  get_elem?-set (x ∷ xs) zero (suc j) v a h = ground arith
  get_elem?-set (x ∷ xs) (suc i) zero v a h = ground arith
  get_elem?-set (x ∷ xs) (suc i) (suc j) v a h = ground (arith, get_elem?-set xs i j v a h)

  -- An item appended leaves the others where they are.
  pub get_elem?-append_old :
      (xs ys : List A) (i : ℕ) (a : A) → get_elem? xs i ≡ some a → get_elem? (xs ++ ys) i ≡ some a
  get_elem?-append_old [] ys i a h = absurd (cc)
  get_elem?-append_old (x ∷ xs) ys zero a h = h
  get_elem?-append_old (x ∷ xs) ys (suc i) a h = get_elem?-append_old xs ys i a h

  -- Python's `xs[-n:]`, where `-0` is `0`: the whole list for `n = 0`, else the last `n` items.
  abbrev pub last_slice : ℕ → List A → List A
  last_slice zero xs = xs
  last_slice (suc n) xs = drop (length xs - suc n) xs

  -- The last `n` items, none for `n = 0`.
  abbrev pub newest : ℕ → List A → List A
  newest n xs = drop (length xs - n) xs

  pub last_slice-newest : (n : ℕ) (xs : List A) → 0 < n → last_slice n xs ≡ newest n xs
  last_slice-newest zero xs h = absurd (omega arith)
  last_slice-newest (suc n) xs h = refl

  pub length-newest : (n : ℕ) (xs : List A) → length (newest n xs) ≡ min n (length xs)
  length-newest n xs = omega (arith, length-drop (length xs - n) xs)

  -- Appending to the newest `n` and cutting again is cutting the whole history.
  pub newest-append_newest :
      (n : ℕ) (xs ys : List A) → newest n (newest n xs ++ ys) ≡ newest n (xs ++ ys)
  newest-append_newest n xs ys =
      let k = length xs - n in
      let kept : drop k xs ++ ys ≡ drop k (xs ++ ys) = sym (drop-append_le k xs ys (omega arith)) in
      rw kept (
        drop-drop k (length (drop k (xs ++ ys)) - n) (xs ++ ys)
        ∙ ap (λ (i : ℕ). drop i (xs ++ ys))
            (omega (arith, length-append xs ys, length-drop k (xs ++ ys))))

  pub newest_all : (n : ℕ) (xs : List A) → length xs ≤ n → newest n xs ≡ xs
  newest_all n xs h = let e : length xs - n ≡ 0 = omega arith in rw e

  pub take-append_le : (n : ℕ) (xs ys : List A) → n ≤ length xs → take n (xs ++ ys) ≡ take n xs
  take-append_le zero xs ys h = refl
  take-append_le (suc n) [] ys h = absurd (omega arith)
  take-append_le (suc n) (x ∷ xs) ys h = ap (◌∷◌ x) (take-append_le n xs ys (omega arith))

  pub take_all : (n : ℕ) (xs : List A) → length xs ≤ n → take n xs ≡ xs
  take_all zero [] h = refl
  take_all zero (x ∷ xs) h = absurd (omega arith)
  take_all (suc n) [] h = refl
  take_all (suc n) (x ∷ xs) h = ap (◌∷◌ x) (take_all n xs (omega arith))

  -- Reversing the newest `n` items is reading `n` items of the reversed list.
  pub reverse-newest : (n : ℕ) (xs : List A) → reverse (newest n xs) ≡ take n (reverse xs)
  reverse-newest n [] = rw (newest_all n [] (omega arith), take_all n [] (omega arith))
  reverse-newest n (x ∷ xs) = elim (dec_le n (length xs)) [
    | yes h ↦
        let e : suc (length xs) - n ≡ suc (length xs - n) = omega arith in
        rw (e, reverse-append (x ∷ []) xs)
          (rw (take-append_le n (reverse xs) (x ∷ []) (omega (arith, length-reverse xs)))
            (reverse-newest n xs))
    | no h ↦ rw (
      newest_all n (x ∷ xs) (omega arith),
      take_all n (reverse (x ∷ xs)) (omega (arith, length-reverse (x ∷ xs))),
    )
  ]

  -- Skipping `n` items from the front is keeping the rest, seen from the end.
  pub reverse-drop : (n : ℕ) (xs : List A) → reverse (drop n xs) ≡ take (length xs - n) (reverse xs)
  reverse-drop n xs = elim (dec_le n (length xs)) [
    | yes h ↦
        let e : length xs - (length xs - n) ≡ n = omega arith in
        ap (λ (i : ℕ). reverse (drop i xs)) (sym e) ∙ reverse-newest (length xs - n) xs
    | no h ↦ let e : length xs - n ≡ 0 = omega arith in rw (e, drop_all n xs (omega arith))
  ]

  -- `xs.pop(0)` on a list with an item.
  abbrev pub pop_front : List A → List A
  pop_front [] = []
  pop_front (x ∷ xs) = xs

module _ {ℓ} {A : Type ℓ} (p : A → Bool) where
  mem_of_mem-keep : (a : A) (xs : List A) → Memᴰ a (keep p xs) → Memᴰ a xs × (p a ≡ true)
  mem_of_mem-keep a [] m = elim m [ ]
  mem_of_mem-keep a (x ∷ xs) m = elim (Bool-cases (p x)) [
    | inl h ↦ elim (rw h at m) [
      | Memᴰ.head e ↦ (Memᴰ.head e, rw e h)
      | Memᴰ.tail r ↦ let (q, t) = mem_of_mem-keep a xs r in (Memᴰ.tail q, t)
    ]
    | inr h ↦ let (q, t) = mem_of_mem-keep a xs (rw h at m) in (Memᴰ.tail q, t)
  ]

  mem-keep_of_mem : (a : A) (xs : List A) → Memᴰ a xs → p a ≡ true → Memᴰ a (keep p xs)
  mem-keep_of_mem a [] m t = elim m [ ]
  mem-keep_of_mem a (x ∷ xs) (Memᴰ.head e) t = rw (← e, t) (Memᴰ.head refl)
  mem-keep_of_mem a (x ∷ xs) (Memᴰ.tail m) t = elim (Bool-cases (p x)) [
    | inl h ↦ rw h (Memᴰ.tail (mem-keep_of_mem a xs m t))
    | inr h ↦ rw h (mem-keep_of_mem a xs m t)
  ]

  -- A comprehension keeps exactly the items that pass its test.
  pub mem-keep : (a : A) (xs : List A) → Memᴰ a (keep p xs) ↔ (Memᴰ a xs × (p a ≡ true))
  mem-keep a xs = (mem_of_mem-keep a xs, λ h. mem-keep_of_mem a xs h.0 h.1)
