-- ===== src/Prelude/Json.antt =====
-- JSON values as Python's `json` reads and writes them, over a type `F` of floats, and the two ways
-- to read an object's item: `d[k]`, which raises, and `d.get(k)`.
use mathlib.Core.Bool.{Bool}
use mathlib.Core.Option.{Option, none, some}
use Prim.Native.String.{String}
use agent_arena.Prelude.Int.{ℤ}
use agent_arena.Prelude.Keys.{◌==◌, string_key}
use agent_arena.Prelude.Result.{Result, ok, raise, Exn}
use agent_arena.Prelude.Tests.{if◌then◌else◌}

mutual
  pub data Json (F : Type 0) : Type 0 where
    null : Json F
    bool : Bool → Json F
    int : ℤ → Json F
    float : F → Json F
    str : String → Json F
    arr : Items F → Json F
    obj : Fields F → Json F

  pub data Items (F : Type 0) : Type 0 where
    end : Items F
    item : Json F → Items F → Items F

  pub data Fields (F : Type 0) : Type 0 where
    done : Fields F
    field : String → Json F → Fields F → Fields F

module _ {F : Type 0} where
  -- d.get(k)
  unfoldable pub get_field : Fields F → String → Option (Json F)
  get_field done k = none
  get_field (field j v d) k = if j == k then some v else get_field d k

  -- d[k]
  unfoldable pub at_field : Fields F → String → Result (Json F)
  at_field done k = raise (Exn.key_error k)
  at_field (field j v d) k = if j == k then ok v else at_field d k

  -- A value read at a type. The program reads without a check; what it writes has these types.
  abbrev pub as_int : Json F → Result ℤ
  as_int (int n) = ok n
  as_int _ = raise (Exn.other_error "not an integer")

  abbrev pub as_str : Json F → Result String
  as_str (str s) = ok s
  as_str _ = raise (Exn.other_error "not a string")

  abbrev pub as_obj : Json F → Result (Fields F)
  as_obj (obj d) = ok d
  as_obj _ = raise (Exn.other_error "not an object")

  abbrev pub as_arr : Json F → Result (Items F)
  as_arr (arr xs) = ok xs
  as_arr _ = raise (Exn.other_error "not an array")

  -- `d.get(k)` at a float: `None` if the key is missing or holds `null`
  abbrev pub as_float? : Option (Json F) → Result (Option F)
  as_float? none = ok none
  as_float? (some null) = ok none
  as_float? (some (float x)) = ok (some x)
  as_float? (some _) = raise (Exn.other_error "not a float")
