-- ===== src/Spatial/Index.antt =====
-- The calls on a memory, and the invariant that storing an object keeps.
use mathlib.Core.Path.{subst}
use agent_arena.Prelude.{
  ◌≤◌, String, Bool, false, ◌&&◌, ◌||◌, ◌≡◌, refl, ap, ◌∙◌, inl, inr, Option, none, some, length,
  ◌==◌, string_key, if◌then◌else◌, Bool-cases, Option-cases, arith,
}
use agent_arena.Prelude.Dict.{Dict, get, put, IsDict, get-put, put-IsDict}
use agent_arena.Prelude.DictKeys.{All-put, All-get}
use agent_arena.Prelude.Floats.{Floats}
use agent_arena.Prelude.Sort.{All}
use agent_arena.Schemas.Observation.{Observation}
use agent_arena.Schemas.World.{WorldObject, ExperienceEvent}
use agent_arena.Spatial.{
  SpatialMemory, kept_status, store_or_update, update_from_observation, mark_collected,
  mark_destroyed, record_experience, clear_experiences, clear,
}
use agent_arena.Spatial.Cells.{
  Cell, cell_key, listed, listed-add_name, listed-remove_name, pos_to_grid, add_to_grid,
  remove_from_grid,
}

pub data MemoryCall (F : Type 0) : Type 0 where
  observes : Observation F → MemoryCall F
  marks_collected marks_destroyed : String → MemoryCall F
  records : ExperienceEvent F → MemoryCall F
  clears_experiences clears : MemoryCall F

module _ {F : Type 0} ⦃fl : Floats F⦄ where
  -- Does the object, if any, lie in the cell?
  abbrev pub placed : Option (WorldObject F) → Cell → Bool
  placed none c = false
  placed (some o) c = pos_to_grid o.position == c

  -- Each object under its own name, no name twice, and in a cell's set exactly the names of the objects
  -- that lie in the cell.
  pub record IsIndexed (m : SpatialMemory F) : Type 0 where
    pub named : All (λ (e : String × WorldObject F). e.1.name ≡ e.0) m.objects
    pub distinct : IsDict m.objects
    pub indexed :
        (c : Cell) (name : String) → listed m.spatial_grid c name ≡ placed (get m.objects name) c
    pub bounded : length m.experiences ≤ m.max_experiences

  unfoldable pub step : SpatialMemory F → MemoryCall F → SpatialMemory F
  step m (observes o) = update_from_observation o m
  step m (marks_collected name) = (mark_collected name m).1
  step m (marks_destroyed name) = (mark_destroyed name m).1
  step m (records e) = record_experience e m
  step m clears_experiences = clear_experiences m
  step m clears = clear m

  kept_name : (e o : WorldObject F) → (kept_status e o).name ≡ o.name
  kept_name e o = ground arith

  kept_position : (e o : WorldObject F) → (kept_status e o).position ≡ o.position
  kept_position e o = ground arith

  pub placed-put :
      (d : Dict String (WorldObject F)) (o : WorldObject F) (name other : String) (c : Cell)
      → placed (get (put d name o) other) c
        ≡ (if name == other then pos_to_grid o.position == c else placed (get d other) c)
  placed-put d o name other c =
      ap (λ (x : Option (WorldObject F)). placed x c) (get-put d name other o) ∙ ground arith

  new-indexed :
      (m : SpatialMemory F) (o : WorldObject F)
      → IsIndexed m
      → get m.objects o.name ≡ none
      → (c : Cell) (name : String)
      → listed (add_to_grid o.name o.position m.spatial_grid) c name
        ≡ placed (get (put m.objects o.name o) name) c
  unfolding add_to_grid
  new-indexed m o v new c name =
      listed-add_name (pos_to_grid o.position) c o.name name m.spatial_grid
      ∙ elim (Bool-cases (o.name == name)) [
        | inl same ↦
            let free : listed m.spatial_grid c name ≡ false =
              subst (λ (n : String). listed m.spatial_grid c n ≡ false)
                ((string_key.beq_iff o.name name).0 same)
                (v.indexed c o.name ∙ ap (λ (x : Option (WorldObject F)). placed x c) new) in
            ground (arith, same, free, placed-put m.objects o o.name name c)
        | inr other ↦ ground (arith, other, v.indexed c name, placed-put m.objects o o.name name c)
      ]

  known-indexed :
      (m : SpatialMemory F) (o e : WorldObject F)
      → IsIndexed m
      → get m.objects o.name ≡ some e
      → (c : Cell) (name : String)
      → listed
          (add_to_grid o.name o.position (remove_from_grid e.name e.position m.spatial_grid))
          c
          name
        ≡ placed (get (put m.objects o.name (kept_status e o)) name) c
  unfolding add_to_grid remove_from_grid
  known-indexed m o e v found c name =
      listed-add_name (pos_to_grid o.position) c o.name name _
      ∙ ap (λ (b : Bool). (pos_to_grid o.position == c && o.name == name) || b)
          (listed-remove_name (pos_to_grid e.position) c e.name name m.spatial_grid)
      ∙ elim (Bool-cases (o.name == name)) [
        | inl same ↦
            let known : e.name ≡ o.name =
              All-get (λ (x : String × WorldObject F). x.1.name ≡ x.0) m.objects o.name e v.named
                found in
            let old : listed m.spatial_grid c name ≡ (pos_to_grid e.position == c) =
              subst (λ (n : String). listed m.spatial_grid c n ≡ (pos_to_grid e.position == c))
                ((string_key.beq_iff o.name name).0 same)
                (v.indexed c o.name ∙ ap (λ (x : Option (WorldObject F)). placed x c) found) in
            ground (
              arith,
              same,
              known,
              old,
              kept_position e o,
              placed-put m.objects (kept_status e o) o.name name c,
            )
        | inr other ↦
            let known : e.name ≡ o.name =
              All-get (λ (x : String × WorldObject F). x.1.name ≡ x.0) m.objects o.name e v.named
                found in
            ground (
              arith,
              other,
              known,
              v.indexed c name,
              placed-put m.objects (kept_status e o) o.name name c,
            )
      ]

  pub store_or_update-IsIndexed :
      (m : SpatialMemory F) (o : WorldObject F) → IsIndexed m → IsIndexed (store_or_update m o)
  unfolding store_or_update
  store_or_update-IsIndexed m o v = elim (Option-cases (get m.objects o.name)) [
    | inl new ↦ simp new (record {
      named = All-put _ m.objects o.name o refl v.named;
      distinct = put-IsDict m.objects o.name o v.distinct;
      indexed = new-indexed m o v new;
      bounded = v.bounded;
    })
    | inr (e, found) ↦ simp found (record {
      named = All-put _ m.objects o.name (kept_status e o) (kept_name e o) v.named;
      distinct = put-IsDict m.objects o.name (kept_status e o) v.distinct;
      indexed = known-indexed m o e v found;
      bounded = v.bounded;
    })
  ]
