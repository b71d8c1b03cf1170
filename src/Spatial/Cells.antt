-- ===== src/Spatial/Cells.antt =====
-- The spatial grid: cells of `_grid_size` and the names of the objects in each.
use agent_arena.Prelude.{
  String, Bool, true, not, ◌&&◌, ◌||◌, ◌≡◌, ◌↔◌, refl, sym, ap, ◌∙◌, inl, inr, List, [], ◌∷◌,
  Option, none, some, ◌==◌, Eq, string_key, pair_key, if◌then◌else◌, Bool-cases, Option-cases,
  arith,
}
use agent_arena.Prelude.Dict.{Dict, get, put, del, get-put, get-del}
use agent_arena.Prelude.DictKeys.{contains, add_key, drop_key, contains-add_key, contains-drop_key}
use agent_arena.Prelude.Floats.{Floats}
use agent_arena.Prelude.Int.{ℤ, pos, ◌+ℤ◌}
use agent_arena.Prelude.IntRange.{int_beq, int_beq_iff}
use agent_arena.Schemas.{Position}

abbrev pub Cell : Type 0
Cell = ℤ × ℤ × ℤ

abbrev pub cell_beq : Cell → Cell → Bool
cell_beq (x, y, z) (a, b, c) = int_beq x a && (int_beq y b && int_beq z c)

pub cell_beq_iff : (p q : Cell) → (cell_beq p q ≡ true) ↔ (p ≡ q)
cell_beq_iff (x, y, z) (a, b, c) = ground (arith, int_beq_iff x a, int_beq_iff y b, int_beq_iff z c)

instance abbrev pub cell_key : Eq Cell
cell_key = record { beq = cell_beq; beq_iff = cell_beq_iff }

abbrev pub Grid : Type 0
Grid = Dict Cell (List String)

abbrev pub names_in : Option (List String) → List String
names_in none = []
names_in (some names) = names

-- Does the cell's set hold the name?
abbrev pub listed : Grid → Cell → String → Bool
listed g c name = contains (names_in (get g c)) name

-- the set of a cell with a name more
unfoldable pub add_name : Cell → String → Grid → Grid
add_name c name g = put g c (add_key (names_in (get g c)) name)

abbrev put_or_del : Grid → Cell → List String → Grid
put_or_del g c [] = del g c
put_or_del g c (n ∷ ns) = put g c (n ∷ ns)

abbrev remove_in : Cell → String → Grid → Option (List String) → Grid
remove_in c name g none = g
remove_in c name g (some names) = put_or_del g c (drop_key names name)

-- the set of a cell without a name; an empty set goes
unfoldable pub remove_name : Cell → String → Grid → Grid
remove_name c name g = remove_in c name g (get g c)

pub listed-add_name :
    (c d : Cell) (name other : String) (g : Grid)
    → listed (add_name c name g) d other ≡ ((c == d && name == other) || listed g d other)
unfolding add_name
listed-add_name c d name other g =
    let new = add_key (names_in (get g c)) name in
    ap (λ (o : Option (List String)). contains (names_in o) other) (get-put g c d new)
    ∙ elim (Bool-cases (cell_beq c d)) [
      | inl same ↦
          let e : listed g d other ≡ listed g c other =
            ap (λ (b : Cell). listed g b other) (sym ((cell_beq_iff c d).0 same)) in
          rw (same, e) (contains-add_key (names_in (get g c)) name other)
      | inr differ ↦ rw differ refl
    ]

names_in-put_or_del :
    (c d : Cell) (ns : List String) (g : Grid)
    → names_in (get (put_or_del g c ns) d) ≡ (if c == d then ns else names_in (get g d))
names_in-put_or_del c d [] g = rw (get-del g c d) (ground arith)
names_in-put_or_del c d (n ∷ ns) g = rw (get-put g c d (n ∷ ns)) (ground arith)

names_in-remove_name :
    (c d : Cell) (name : String) (g : Grid)
    → names_in (get (remove_name c name g) d)
      ≡ (if c == d then drop_key (names_in (get g c)) name else names_in (get g d))
unfolding remove_name drop_key
names_in-remove_name c d name g = elim (Option-cases (get g c)) [
  | inl absent ↦ elim (Bool-cases (cell_beq c d)) [
    | inl same ↦
        simp (absent, same) (rw (ap (get g) (sym ((cell_beq_iff c d).0 same)) ∙ absent) refl)
    | inr differ ↦ simp (absent, differ) refl
  ]
  | inr (names, found) ↦ simp found (names_in-put_or_del c d (drop_key names name) g)
]

pub listed-remove_name :
    (c d : Cell) (name other : String) (g : Grid)
    → listed (remove_name c name g) d other ≡ (not (c == d && name == other) && listed g d other)
unfolding remove_name
listed-remove_name c d name other g =
    ap (λ (ns : List String). contains ns other) (names_in-remove_name c d name g)
    ∙ elim (Bool-cases (cell_beq c d)) [
      | inl same ↦
          let e : listed g d other ≡ listed g c other =
            ap (λ (b : Cell). listed g b other) (sym ((cell_beq_iff c d).0 same)) in
          rw (same, e) (contains-drop_key (names_in (get g c)) name other)
      | inr differ ↦ rw differ refl
    ]

module _ {F : Type 0} ⦃fl : Floats F⦄ where
  -- `self._grid_size`
  abbrev pub grid_size : F
  grid_size = fl.of_int (pos 10)

  abbrev pub coordinate : F → ℤ
  coordinate x = fl.trunc (fl.floor_div x grid_size)

  -- `_pos_to_grid`
  unfoldable pub pos_to_grid : Position F → Cell
  pos_to_grid (x, y, z) = (coordinate x, coordinate y, coordinate z)

  -- `_add_to_grid` and `_remove_from_grid`, of an object with this name and position
  unfoldable pub add_to_grid : String → Position F → Grid → Grid
  unfolding pos_to_grid add_name
  add_to_grid name position g = add_name (pos_to_grid position) name g

  unfoldable pub remove_from_grid : String → Position F → Grid → Grid
  unfolding pos_to_grid remove_name
  remove_from_grid name position g = remove_name (pos_to_grid position) name g

  abbrev pub cells_per_axis : F → ℤ
  cells_per_axis radius = fl.trunc (fl.div radius grid_size) +ℤ pos 1
