-- ===== src/Spatial/Near/Exact.antt =====
-- The query through the grid finds what a search through all objects would find.
use mathlib.Core.List.{Memᴰ}
use mathlib.Core.Option.{some-injective}
use mathlib.Core.Path.{subst}
use agent_arena.Prelude.{
  String, Bool, true, ◌≡◌, ◌↔◌, refl, sym, ap, ◌∙◌, inl, inr, List, [], Option, some, string_key,
  beq_self, Bool-cases, Option-cases, arith,
}
use agent_arena.Prelude.Dict.{get}
use agent_arena.Prelude.DictKeys.{All-get, mem_of_contains}
use agent_arena.Prelude.Floats.{Floats, IsFloats}
use agent_arena.Prelude.Maps.{mem_of_mem-filter_map, mem-filter_map_of}
use agent_arena.Prelude.Sort.{mem-sort_by, sort_by-IsSorted, IsSorted, IsOrder}
use agent_arena.Schemas.{Position}
use agent_arena.Schemas.World.{WorldObject, SpatialQueryResult, distance_to}
use agent_arena.Spatial.{SpatialMemory}
use agent_arena.Spatial.Cells.{Cell, cell_key, pos_to_grid}
use agent_arena.Spatial.Index.{IsIndexed, placed}
use agent_arena.Spatial.Near.{
  gather, get_nearby_cells, admits, result_of, result_if, candidate, by_distance,
  query_near_position,
}
use agent_arena.Spatial.Near.Cover.{IsExact, mem-get_nearby_cells, contains-gather_mem}

module _ {F : Type 0} ⦃fl : Floats F⦄ where
  -- A result for an object that is known under its name and that the conditions admit.
  abbrev pub IsNear :
      SpatialMemory F → Position F → F → Option String → Bool → Bool → SpatialQueryResult F → Type 0
  IsNear m position radius object_type include_collected include_stale r =
      (get m.objects r.obj.name ≡ some r.obj)
      × (admits m position radius object_type include_collected include_stale r.obj ≡ true)
      × (r ≡ result_of m position r.obj)

  by_distance-IsOrder : IsFloats fl → IsOrder (by_distance {F = F})
  by_distance-IsOrder h = record {
    total = λ r s. h.le_order.total r.distance s.distance;
    trans = λ r s t. h.le_order.trans r.distance s.distance t.distance;
  }

  module _ (m : SpatialMemory F) (position : Position F) (radius : F) (object_type : Option String)
      (collected stale : Bool) where
    abbrev body : String → Option (SpatialQueryResult F)
    body name = candidate m position radius object_type collected stale (get m.objects name)

    result_of_candidate :
        (o : WorldObject F) (r : SpatialQueryResult F)
        → result_if m position o (admits m position radius object_type collected stale o) ≡ some r
        → (admits m position radius object_type collected stale o ≡ true)
          × (r ≡ result_of m position o)
    result_of_candidate o r h =
        elim (Bool-cases (admits m position radius object_type collected stale o)) [
          | inl admitted ↦ (admitted, sym (some-injective _ _ (rw admitted at h)))
          | inr refused ↦ absurd (cc (rw refused at h))
        ]

    IsNear-of_body :
        IsIndexed m
        → (name : String) (r : SpatialQueryResult F) → body name ≡ some r
        → IsNear m position radius object_type collected stale r
    IsNear-of_body v name r h = elim (Option-cases (get m.objects name)) [
      | inl gone ↦
          absurd (cc (ap (candidate m position radius object_type collected stale) gone, h))
      | inr (o, found) ↦
          let (admitted, e) =
            result_of_candidate o r
              (sym (ap (candidate m position radius object_type collected stale) found) ∙ h) in
          let known : o.name ≡ name =
            All-get (λ (x : String × WorldObject F). x.1.name ≡ x.0) m.objects name o v.named
              found in
          subst (IsNear m position radius object_type collected stale) (sym e)
            (subst (λ (n : String). get m.objects n ≡ some o) (sym known) found, admitted, refl)
    ]

    within :
        (o : WorldObject F)
        → IsFloats fl
        → admits m position radius object_type collected stale o ≡ true
        → fl.le (distance_to o position) radius ≡ true
    unfolding admits
    within o h admitted = ground (arith, h.lt_le radius (distance_to o position))

    gathered :
        IsIndexed m
        → IsExact fl
        → (r : SpatialQueryResult F) → IsNear m position radius object_type collected stale r
        → Memᴰ r.obj.name (gather m.spatial_grid [] (get_nearby_cells position radius))
    gathered v exact r (found, admitted, e) = mem_of_contains _ r.obj.name (
        contains-gather_mem m.spatial_grid (get_nearby_cells position radius) []
          (pos_to_grid r.obj.position) r.obj.name
          (mem-get_nearby_cells exact r.obj position radius (within r.obj exact.floats admitted))
          (v.indexed (pos_to_grid r.obj.position) r.obj.name
            ∙ ap (λ (x : Option (WorldObject F)). placed x (pos_to_grid r.obj.position)) found
            ∙ beq_self {A = Cell} (pos_to_grid r.obj.position)))

    -- In an indexed memory and without rounding, `query_near_position` returns exactly the objects known
    -- whose distance is at most the radius and that pass the filters, each with its distance and
    -- staleness, by ascending distance, in whatever order the candidates are iterated over.
    pub query_near_position_exact :
        (iterated : List String → List String)
        → ((names : List String) (n : String) → Memᴰ n (iterated names) ↔ Memᴰ n names)
        → IsExact fl
        → IsIndexed m
        → IsSorted by_distance
            (query_near_position iterated m position radius object_type collected stale)
          × ((r : SpatialQueryResult F)
              → Memᴰ r (query_near_position iterated m position radius object_type collected stale)
                ↔ IsNear m position radius object_type collected stale r)
    unfolding query_near_position
    query_near_position_exact iterated same exact v =
        let names = gather m.spatial_grid [] (get_nearby_cells position radius) in
        (
          sort_by-IsSorted by_distance (by_distance-IsOrder exact.floats) _,
          λ r. (
            λ n.
                let (name, k, h) =
                  mem_of_mem-filter_map body (iterated names) r
                    ((mem-sort_by by_distance r _).0 n) in
                IsNear-of_body v name r h,
            λ near.
                let (found, admitted, e) = near in
                (mem-sort_by by_distance r _).1 (
                  mem-filter_map_of body (iterated names) r r.obj.name
                    ((same names r.obj.name).1 (gathered v exact r near))
                    (ap (candidate m position radius object_type collected stale) found
                      ∙ ap (result_if m position r.obj) admitted
                      ∙ ap some (sym e))),
          ),
        )
