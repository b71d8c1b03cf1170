-- ===== src/Spatial/Near/Cover.antt =====
-- In exact arithmetic, the nearby cells cover the ball around a position.
use mathlib.Core.List.{Memᴰ, foldl}
use mathlib.Core.Path.{subst}
use agent_arena.Prelude.{
  String, true, ◌||◌, ◌≡◌, refl, sym, ap, ◌∙◌, List, [], ◌∷◌, map, string_key, arith,
}
use agent_arena.Prelude.Dict.{get}
use agent_arena.Prelude.DictKeys.{add_key, contains, contains-add_key}
use agent_arena.Prelude.Floats.{Floats, IsFloats}
use agent_arena.Prelude.Int.{ℤ, pos, ◌+ℤ◌, ◌-ℤ◌, ◌≤ℤ◌, +ℤ_parts, -ℤ_parts, eq_of_parts}
use agent_arena.Prelude.IntRange.{mem-int_range}
use agent_arena.Prelude.Maps.{mem-for_each}
use agent_arena.Schemas.{Position}
use agent_arena.Schemas.World.{WorldObject, distance_to}
use agent_arena.Spatial.Cells.{
  Cell, Grid, cell_key, names_in, listed, pos_to_grid, coordinate, cells_per_axis,
}
use agent_arena.Spatial.Near.{axis, gather, get_nearby_cells}

-- What is relied on of arithmetic: the facts about squares, roots, sums and cells that hold of numbers
-- without rounding.
pub record IsExact {F : Type 0} (fl : Floats F) : Type 0 where
  pub floats : IsFloats fl
  pub square_nonneg : (x : F) → fl.le (fl.of_int (pos 0)) (fl.mul x x) ≡ true
  pub add_nonneg :
      (x y : F)
      → fl.le (fl.of_int (pos 0)) x ≡ true
      → fl.le (fl.of_int (pos 0)) y ≡ true
      → fl.le (fl.of_int (pos 0)) (fl.add x y) ≡ true
  pub le_add_right : (x y : F) → fl.le (fl.of_int (pos 0)) y ≡ true → fl.le x (fl.add x y) ≡ true
  pub le_add_left : (x y : F) → fl.le (fl.of_int (pos 0)) y ≡ true → fl.le x (fl.add y x) ≡ true
  pub sqrt_mono : (x y : F) → fl.le x y ≡ true → fl.le (fl.sqrt x) (fl.sqrt y) ≡ true
  pub le_sqrt_square : (x : F) → fl.le x (fl.sqrt (fl.mul x x)) ≡ true
  pub square_sub : (x y : F) → fl.mul (fl.sub x y) (fl.sub x y) ≡ fl.mul (fl.sub y x) (fl.sub y x)
  pub le_add_of_sub : (x y r : F) → fl.le (fl.sub x y) r ≡ true → fl.le x (fl.add y r) ≡ true
  pub cell_mono : (x y : F) → fl.le x y ≡ true → coordinate ⦃fl = fl⦄ x ≤ℤ coordinate ⦃fl = fl⦄ y
  pub cell_add :
      (x r : F)
      → coordinate ⦃fl = fl⦄ (fl.add x r) ≤ℤ (coordinate ⦃fl = fl⦄ x +ℤ cells_per_axis ⦃fl = fl⦄ r)

mem-map :
    {A B : Type 0} (f : A → B) (xs : List A) (x : A) (y : B)
    → Memᴰ x xs
    → f x ≡ y
    → Memᴰ y (map f xs)
mem-map f [] x y m h = elim m [ ]
mem-map f (z ∷ xs) x y (Memᴰ.head p) h = Memᴰ.head (sym h ∙ ap f p)
mem-map f (z ∷ xs) x y (Memᴰ.tail m) h = Memᴰ.tail (mem-map f xs x y m h)

int_le_trans : (a b c : ℤ) → a ≤ℤ b → b ≤ℤ c → a ≤ℤ c
int_le_trans a b c h k = omega arith

mem-axis : (center n x : ℤ) → x ≤ℤ (center +ℤ n) → center ≤ℤ (x +ℤ n) → Memᴰ x (axis center n)
mem-axis center n x h k =
    mem-map (λ d. center +ℤ d) _ (x -ℤ center) x
      (mem-int_range (pos 0 -ℤ n) (n +ℤ pos 1) (x -ℤ center)
        (ground (arith, +ℤ_parts x n, -ℤ_parts x center, -ℤ_parts (pos 0) n))
        (ground (
          arith,
          +ℤ_parts center n,
          -ℤ_parts x center,
          +ℤ_parts (x -ℤ center) (pos 1),
          +ℤ_parts n (pos 1),
        )))
      (eq_of_parts _ x (ground (arith, -ℤ_parts x center, +ℤ_parts center (x -ℤ center))))

contains-gather_names :
    (names more : List String) (n : String)
    → contains (foldl add_key names more) n ≡ (contains more n || contains names n)
unfolding contains
contains-gather_names names [] n = refl
contains-gather_names names (k ∷ more) n =
    contains-gather_names (add_key names k) more n ∙ ground (arith, contains-add_key names k n)

contains-gather :
    (g : Grid) (cs : List Cell) (names : List String) (n : String)
    → contains names n ≡ true
    → contains (gather g names cs) n ≡ true
unfolding gather
contains-gather g [] names n h = h
contains-gather g (c ∷ cs) names n h =
    contains-gather g cs _ n
      (contains-gather_names names (names_in (get g c)) n ∙ ground (arith, h))

-- A name that stands in one of the cells is gathered.
pub contains-gather_mem :
    (g : Grid) (cs : List Cell) (names : List String) (c : Cell) (n : String)
    → Memᴰ c cs
    → listed g c n ≡ true
    → contains (gather g names cs) n ≡ true
unfolding gather
contains-gather_mem g [] names c n m h = elim m [ ]
contains-gather_mem g (d ∷ cs) names c n (Memᴰ.head p) h = contains-gather g cs _ n (
    contains-gather_names names (names_in (get g d)) n
    ∙ ground (arith, subst (λ (b : Cell). listed g b n ≡ true) p h))
contains-gather_mem g (d ∷ cs) names c n (Memᴰ.tail m) h = contains-gather_mem g cs _ c n m h

module _ {F : Type 0} ⦃fl : Floats F⦄ (exact : IsExact fl) where
  le_trans : {x y z : F} → fl.le x y ≡ true → fl.le y z ≡ true → fl.le x z ≡ true
  le_trans {x} {y} {z} h k = exact.floats.le_order.trans x y z h k

  -- A difference whose square is at most a sum is at most a bound of the sum's root.
  leg_le : (d s r : F) → fl.le (fl.mul d d) s ≡ true → fl.le (fl.sqrt s) r ≡ true → fl.le d r ≡ true
  leg_le d s r h k = le_trans (exact.le_sqrt_square d) (le_trans (exact.sqrt_mono _ _ h) k)

  -- Coordinates whose distance is at most the radius lie in cells at most `cells_per_axis` apart.
  axis_near :
      (a b s r : F)
      → fl.le (fl.mul (fl.sub a b) (fl.sub a b)) s ≡ true
      → fl.le (fl.sqrt s) r ≡ true
      → (coordinate a ≤ℤ (coordinate b +ℤ cells_per_axis r))
        × (coordinate b ≤ℤ (coordinate a +ℤ cells_per_axis r))
  axis_near a b s r h k =
      let below = leg_le (fl.sub a b) s r h k in
      let above = leg_le (fl.sub b a) s r (rw (exact.square_sub b a) h) k in
      (
        int_le_trans (coordinate a) (coordinate (fl.add b r)) (coordinate b +ℤ cells_per_axis r)
            (exact.cell_mono a (fl.add b r) (exact.le_add_of_sub a b r below)) (exact.cell_add b r),
        int_le_trans (coordinate b) (coordinate (fl.add a r)) (coordinate a +ℤ cells_per_axis r)
            (exact.cell_mono b (fl.add a r) (exact.le_add_of_sub b a r above)) (exact.cell_add a r),
      )

  -- The cell of an object within the radius is one of the nearby cells.
  pub mem-get_nearby_cells :
      (o : WorldObject F) (position : Position F) (radius : F)
      → fl.le (distance_to o position) radius ≡ true
      → Memᴰ (pos_to_grid o.position) (get_nearby_cells position radius)
  unfolding distance_to get_nearby_cells pos_to_grid
  mem-get_nearby_cells o (px, py, pz) radius h =
      let dx = fl.sub o.position.0 px in
      let dy = fl.sub o.position.1 py in
      let dz = fl.sub o.position.2 pz in
      let xx = fl.mul dx dx in
      let yy = fl.mul dy dy in
      let zz = fl.mul dz dz in
      let s = fl.add (fl.add xx yy) zz in
      let xy_le : fl.le (fl.add xx yy) s ≡ true = exact.le_add_right _ _ (exact.square_nonneg dz) in
      let (x1, x2) =
        axis_near o.position.0 px s radius
          (le_trans (exact.le_add_right _ _ (exact.square_nonneg dy)) xy_le) h in
      let (y1, y2) =
        axis_near o.position.1 py s radius
          (le_trans (exact.le_add_left _ _ (exact.square_nonneg dx)) xy_le) h in
      let (z1, z2) =
        axis_near o.position.2 pz s radius
          (exact.le_add_left _ _
            (exact.add_nonneg _ _ (exact.square_nonneg dx) (exact.square_nonneg dy)))
          h in
      mem-for_each _ _ (coordinate o.position.0) _ (mem-axis _ _ _ x1 x2) (
        mem-for_each _ _ (coordinate o.position.1) _ (mem-axis _ _ _ y1 y2)
          (mem-map _ _ (coordinate o.position.2) _ (mem-axis _ _ _ z1 z2) refl))
