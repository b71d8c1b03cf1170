-- ===== src/Spatial/Calls.antt =====
-- The grid is an index of the objects after any sequence of calls.
use mathlib.Core.List.{foldl}
use mathlib.Core.Path.{subst}
use agent_arena.Prelude.{
  ℕ, ◌≤◌, String, not, ◌&&◌, ◌≡◌, refl, sym, ap, ◌∙◌, ◌⊎◌, inl, inr, List, [], ◌∷◌, Option, none,
  some, length, ◌==◌, string_key, Bool-cases, Option-cases, arith,
}
use agent_arena.Prelude.{length-newest, ◌++◌}
use agent_arena.Prelude.Bounded.{append_pop, append_pop-newest}
use agent_arena.Prelude.Dict.{get, put-IsDict}
use agent_arena.Prelude.DictKeys.{contains, All-put, All-get}
use agent_arena.Prelude.Floats.{Floats}
use agent_arena.Prelude.Int.{ℤ}
use agent_arena.Schemas.Observation.{Observation}
use agent_arena.Schemas.World.{WorldObject, ExperienceEvent}
use agent_arena.Spatial.{
  SpatialMemory, init, set_status, store_or_update, seen, update_from_observation, mark_collected,
  mark_destroyed, obstacle, record_experience, clear_experiences, clear,
}
use agent_arena.Spatial.Cells.{cell_key, listed, pos_to_grid}
use agent_arena.Spatial.Index.{
  IsIndexed, placed, placed-put, store_or_update-IsIndexed, MemoryCall, observes, marks_collected,
  marks_destroyed, records, clears_experiences, clears, step,
}

module _ {F : Type 0} ⦃fl : Floats F⦄ where
  store_all-IsIndexed :
      (os : List (WorldObject F)) (m : SpatialMemory F)
      → IsIndexed m
      → IsIndexed (foldl store_or_update m os)
  store_all-IsIndexed [] m v = v
  store_all-IsIndexed (o ∷ os) m v = store_all-IsIndexed os _ (store_or_update-IsIndexed m o v)

  update-IsIndexed :
      (o : Observation F) (m : SpatialMemory F)
      → IsIndexed m
      → IsIndexed (update_from_observation o m)
  unfolding update_from_observation
  update-IsIndexed o m v =
      store_all-IsIndexed (seen o) (record m { current_tick = o.tick })
        (record {
          named = v.named;
          distinct = v.distinct;
          indexed = v.indexed;
          bounded = v.bounded;
        })

  set_status-IsIndexed :
      (name status : String) (m : SpatialMemory F) (o : Option (WorldObject F))
      → IsIndexed m
      → get m.objects name ≡ o
      → IsIndexed (set_status name m status o).1
  set_status-IsIndexed name status m none v found = v
  set_status-IsIndexed name status m (some o) v found = record {
    named =
        All-put _ m.objects name _
          (All-get (λ (x : String × WorldObject F). x.1.name ≡ x.0) m.objects name o v.named found)
          v.named;
    distinct = put-IsDict m.objects name _ v.distinct;
    indexed = λ c other. elim (Bool-cases (name == other)) [
      | inl same ↦
          let old : listed m.spatial_grid c other ≡ (pos_to_grid o.position == c) =
            subst (λ (n : String). listed m.spatial_grid c n ≡ (pos_to_grid o.position == c))
              ((string_key.beq_iff name other).0 same)
              (v.indexed c name ∙ ap (λ (x : Option (WorldObject F)). placed x c) found) in
          ground
            (arith, same, old, placed-put m.objects (record o { status = status }) name other c)
      | inr differ ↦ ground (
        arith,
        differ,
        v.indexed c other,
        placed-put m.objects (record o { status = status }) name other c,
      )
    ];
    bounded = v.bounded;
  }

  length-append_pop :
      (events : List (ExperienceEvent F)) (bound : ℕ) (e : ExperienceEvent F)
      → length events ≤ bound
      → length (append_pop bound events e) ≤ bound
  length-append_pop events bound e h =
      rw (append_pop-newest bound events e h)
        (omega (arith, length-newest bound (events ++ e ∷ [])))

  -- the memory with the event appended, before an obstacle is stored
  abbrev pub appended : ExperienceEvent F → SpatialMemory F → SpatialMemory F
  appended e m = record m { experiences = append_pop m.max_experiences m.experiences e }

  pub record_experience-cases :
      (e : ExperienceEvent F) (m : SpatialMemory F)
      → (record_experience e m ≡ appended e m)
        ⊎ ((name : String) × (record_experience e m
              ≡ store_or_update (appended e m) (obstacle e name)))
  unfolding record_experience
  record_experience-cases e m = elim (Option-cases e.object_name) [
    | inl nothing ↦ inl (simp nothing refl)
    | inr (name, hit) ↦ elim (Bool-cases (e.event_type == "collision" && not (name == ""))) [
      | inl stored ↦ inr (name, simp (hit, stored) refl)
      | inr passed ↦ inl (simp (hit, passed) refl)
    ]
  ]

  record-IsIndexed :
      (e : ExperienceEvent F) (m : SpatialMemory F)
      → IsIndexed m
      → IsIndexed (record_experience e m)
  record-IsIndexed e m v =
      let v' : IsIndexed (appended e m) = record {
        named = v.named;
        distinct = v.distinct;
        indexed = v.indexed;
        bounded = length-append_pop m.experiences m.max_experiences e v.bounded;
      } in
      elim (record_experience-cases e m) [
        | inl same ↦ subst IsIndexed (sym same) v'
        | inr (name, stored) ↦
            subst IsIndexed (sym stored) (store_or_update-IsIndexed _ (obstacle e name) v')
      ]

  pub step-IsIndexed : (m : SpatialMemory F) (c : MemoryCall F) → IsIndexed m → IsIndexed (step m c)
  unfolding step mark_collected mark_destroyed clear_experiences clear get contains
  step-IsIndexed m (observes o) v = update-IsIndexed o m v
  step-IsIndexed m (marks_collected name) v = set_status-IsIndexed name "collected" m _ v refl
  step-IsIndexed m (marks_destroyed name) v = set_status-IsIndexed name "destroyed" m _ v refl
  step-IsIndexed m (records e) v = record-IsIndexed e m v
  step-IsIndexed m clears_experiences v = record {
    named = v.named;
    distinct = v.distinct;
    indexed = v.indexed;
    bounded = omega arith;
  }
  step-IsIndexed m clears v = record {
    named = tt;
    distinct = tt;
    indexed = λ c name. refl;
    bounded = omega arith;
  }

  steps-IsIndexed :
      (cs : List (MemoryCall F)) (m : SpatialMemory F) → IsIndexed m → IsIndexed (foldl step m cs)
  steps-IsIndexed [] m v = v
  steps-IsIndexed (c ∷ cs) m v = steps-IsIndexed cs (step m c) (step-IsIndexed m c v)

  -- From a new memory on, whatever is called: each object stands under its own name, the grid's cells hold
  -- exactly the names of the objects that lie in them, and no more experiences are kept than the bound.
  pub init_steps-IsIndexed :
      (stale_threshold : ℤ) (cs : List (MemoryCall F))
      → IsIndexed (foldl step (init stale_threshold) cs)
  unfolding init get contains
  init_steps-IsIndexed stale_threshold cs =
      steps-IsIndexed cs (init stale_threshold)
        (record { named = tt; distinct = tt; indexed = λ c name. refl; bounded = omega arith })
