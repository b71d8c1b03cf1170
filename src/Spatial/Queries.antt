-- ===== src/Spatial/Queries.antt =====
-- The queries that go through all objects.
use mathlib.Core.List.{Memᴰ}
use mathlib.Core.Path.{subst}
use agent_arena.Prelude.{
  and_iff, String, Bool, true, false, not, ◌&&◌, ◌||◌, ◌≡◌, ◌↔◌, refl, sym, ap, [], ◌∷◌, Option,
  some, mem-keep, ◌==◌, string_key,
}
use agent_arena.Prelude.Dict.{Dict, get, values, get_of_mem, mem_of_get}
use agent_arena.Prelude.DictKeys.{All-get}
use agent_arena.Prelude.Floats.{Floats}
use agent_arena.Schemas.World.{WorldObject}
use agent_arena.Spatial.{SpatialMemory, is_gone, passes, query_by_type, get_all_objects}
use agent_arena.Spatial.Index.{IsIndexed}

module _ {K V : Type 0} where
  key_of_mem-values : (d : Dict K V) (v : V) → Memᴰ v (values d) → (k : K) × Memᴰ (k, v) d
  key_of_mem-values [] v m = elim m [ ]
  key_of_mem-values ((j, w) ∷ d) v (Memᴰ.head p) = (j, Memᴰ.head (ap (λ (u : V). (j, u)) p))
  key_of_mem-values ((j, w) ∷ d) v (Memᴰ.tail m) =
      let (k, n) = key_of_mem-values d v m in (k, Memᴰ.tail n)

  mem-values_of_mem : (d : Dict K V) (k : K) (v : V) → Memᴰ (k, v) d → Memᴰ v (values d)
  mem-values_of_mem [] k v m = elim m [ ]
  mem-values_of_mem ((j, w) ∷ d) k v (Memᴰ.head p) = Memᴰ.head (ap (λ (e : K × V). e.1) p)
  mem-values_of_mem ((j, w) ∷ d) k v (Memᴰ.tail m) = Memᴰ.tail (mem-values_of_mem d k v m)

module _ {F : Type 0} where
  -- the conditions of the loop in `query_by_type`
  abbrev typed : String → Option String → Bool → WorldObject F → Bool
  typed object_type subtype collected o =
      (o.object_type == object_type && passes subtype o.subtype)
      && (collected || not (is_gone o.status))

  typed_parts :
      (object_type : String) (subtype : Option String) (collected : Bool) (o : WorldObject F)
      → (typed object_type subtype collected o ≡ true) ↔ (
          (o.object_type ≡ object_type)
          × (passes subtype o.subtype ≡ true)
          × ((collected || not (is_gone o.status)) ≡ true))
  typed_parts object_type subtype collected o =
      let (f, g) = string_key.beq_iff o.object_type object_type in
      let (a, b) =
        and_iff (o.object_type == object_type && passes subtype o.subtype)
          (collected || not (is_gone o.status)) in
      let (c, d) = and_iff (o.object_type == object_type) (passes subtype o.subtype) in
      (λ h. let (x, y) = a h in let (z, w) = c x in (f z, w, y), λ (x, y, z). b (d (g x, y), z))

module _ {F : Type 0} ⦃fl : Floats F⦄ (m : SpatialMemory F) (v : IsIndexed m) where
  -- The values are the objects that are known under their names.
  mem-objects : (o : WorldObject F) → Memᴰ o (values m.objects) ↔ (get m.objects o.name ≡ some o)
  mem-objects o = (
    λ n.
        let (k, e) = key_of_mem-values m.objects o n in
        let found = get_of_mem m.objects k o v.distinct e in
        subst (λ (i : String). get m.objects i ≡ some o)
          (sym
            (All-get (λ (x : String × WorldObject F). x.1.name ≡ x.0) m.objects k o v.named found))
          found,
    λ found. mem-values_of_mem m.objects o.name o (mem_of_get m.objects o.name o found),
  )

  all_exact :
      (collected : Bool) (o : WorldObject F)
      → Memᴰ o (get_all_objects m collected)
        ↔ ((get m.objects o.name ≡ some o) × ((collected || not (is_gone o.status)) ≡ true))
  unfolding get_all_objects
  all_exact true o = (λ n. ((mem-objects o).0 n, refl), λ (found, h). (mem-objects o).1 found)
  all_exact false o =
      let (kept, keeps) =
        mem-keep (λ (x : WorldObject F). not (is_gone x.status)) o (values m.objects) in
      (
        λ n. let (there, passed) = kept n in ((mem-objects o).0 there, passed),
        λ (found, h). keeps ((mem-objects o).1 found, h),
      )

  -- In an indexed memory, `query_by_type` returns exactly the objects known under their names that have
  -- the type and the subtype asked for and, unless all are asked for, are neither collected nor
  -- destroyed; and `get_all_objects` exactly those of any type.
  pub query_by_type_exact :
      (object_type : String) (subtype : Option String) (collected : Bool) (o : WorldObject F)
      → (Memᴰ o (query_by_type m object_type subtype collected) ↔ (
          (get m.objects o.name ≡ some o)
          × (o.object_type ≡ object_type)
          × (passes subtype o.subtype ≡ true)
          × ((collected || not (is_gone o.status)) ≡ true)))
        × (Memᴰ o (get_all_objects m collected)
            ↔ ((get m.objects o.name ≡ some o) × ((collected || not (is_gone o.status)) ≡ true)))
  unfolding query_by_type get_all_objects
  query_by_type_exact object_type subtype collected o =
      let (known, listed) = mem-objects o in
      let (kept, keeps) = mem-keep (typed object_type subtype collected) o (values m.objects) in
      (
        (
          λ n.
              let (there, passed) = kept n in
              let (a, b, c) = (typed_parts object_type subtype collected o).0 passed in
              (known there, a, b, c),
          λ (found, a, b, c).
              keeps (listed found, (typed_parts object_type subtype collected o).1 (a, b, c)),
        ),
        all_exact collected o,
      )
