-- ===== src/Schemas.antt =====
-- python/sdk/agent_arena_sdk/schemas: the messages between the game and an agent, and how their
-- dictionaries are read. The program takes an item of a dictionary as it is; here it is read at the
-- type that the data class declares, and a value of another type raises. An integer that stands for a
-- float is taken as that float.
pub mod Objective
pub mod Decision
pub mod Percepts
pub mod Exploration
pub mod Observation
pub mod World
pub mod Tools
use agent_arena.Prelude.{
  ℕ, zero, String, Bool, true, false, List, [], ◌∷◌, Option, none, some, ◌≡◌, refl, if◌then◌else◌,
}
use agent_arena.Prelude.Floats.{Floats}
use agent_arena.Prelude.Int.{ℤ, pos}
use agent_arena.Prelude.Json.{
  Json, Items, Fields, null, bool, int, float, str, arr, obj, end, item, done, field, get_field,
  as_arr,
}
use agent_arena.Prelude.Result.{Result, ok, raise, Exn, ◌>>=◌}

module _ {F : Type 0} where
  abbrev pub as_bool : Json F → Result Bool
  as_bool (bool b) = ok b
  as_bool _ = raise (Exn.other_error "not a truth value")

  -- `data.get(key, default)`
  abbrev pub or_default {ℓ} : {A : Type ℓ} → (Json F → Result A) → A → Option (Json F) → Result A
  or_default read default none = ok default
  or_default read default (some j) = read j

  -- `data.get(key)`, where `None` stands for a missing item
  abbrev pub or_none {ℓ} : {A : Type ℓ} → (Json F → Result A) → Option (Json F) → Result (Option A)
  or_none read none = ok none
  or_none read (some null) = ok none
  or_none read (some j) = read j >>= λ a. ok (some a)

  -- the value of `to_dict` for a field that may be `None`
  abbrev pub null_or {ℓ} : {A : Type ℓ} → (A → Json F) → Option A → Json F
  null_or write none = null
  null_or write (some a) = write a

  -- `for x in data.get(key, [])`
  abbrev pub items_of : Option (Json F) → Result (Items F)
  items_of none = ok end
  items_of (some j) = as_arr j

  abbrev pub read_all {ℓ} : {A : Type ℓ} → (Json F → Result A) → Items F → Result (List A)
  read_all read end = ok []
  read_all read (item j js) = do a ← read j; rest ← read_all read js; ok (a ∷ rest)

  abbrev pub to_items {ℓ} : {A : Type ℓ} → (A → Json F) → List A → Items F
  to_items write [] = end
  to_items write (a ∷ xs) = item (write a) (to_items write xs)

  pub read_all-to_items {ℓ} :
      {A : Type ℓ} (read : Json F → Result A) (write : A → Json F)
      → ((a : A) → read (write a) ≡ ok a)
      → (xs : List A) → read_all read (to_items write xs) ≡ ok xs
  read_all-to_items read write h [] = refl
  read_all-to_items read write h (a ∷ xs) = rw (h a, read_all-to_items read write h xs) refl

-- a triple of floats, as `tuple(data["position"])`
abbrev pub Position : Type 0 → Type 0
Position F = F × F × F

module _ {F : Type 0} where
  -- `list(self.position)`
  abbrev pub position_to_list : Position F → Json F
  position_to_list (x, y, z) = arr (item (float x) (item (float y) (item (float z) end)))

module _ {F : Type 0} ⦃fl : Floats F⦄ where
  abbrev pub as_number : Json F → Result F
  as_number (float x) = ok x
  as_number (int n) = ok (fl.of_int n)
  as_number _ = raise (Exn.other_error "not a number")

  abbrev pub as_position : Json F → Result (Position F)
  as_position (arr (item x (item y (item z end)))) = do
    a ← as_number x
    b ← as_number y
    c ← as_number z
    ok (a, b, c)
  as_position _ = raise (Exn.other_error "not a position")

  -- `"key" in data and data["key"]`, where only a missing item, `None` and an empty value are false
  abbrev pub or_empty {ℓ} : {A : Type ℓ} → (Json F → Result A) → Option (Json F) → Result (Option A)
  or_empty read none = ok none
  or_empty read (some null) = ok none
  or_empty read (some (bool false)) = ok none
  or_empty read (some (int (pos zero))) = ok none
  or_empty read (some (str String.[])) = ok none
  or_empty read (some (float x)) =
      if fl.is_zero x then ok none else (read (float x) >>= λ a. ok (some a))
  or_empty read (some (arr end)) = ok none
  or_empty read (some (obj done)) = ok none
  or_empty read (some j) = read j >>= λ a. ok (some a)
