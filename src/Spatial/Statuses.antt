-- ===== src/Spatial/Statuses.antt =====
-- What is marked collected or destroyed stays so, and is hidden from the queries that leave it out.
use mathlib.Core.List.{foldl}
use mathlib.Core.Path.{subst}
use agent_arena.Prelude.{
  String, Bool, true, false, ◌≡◌, refl, sym, ap, ◌∙◌, inl, inr, List, [], ◌∷◌, Option, none, some,
  ◌==◌, string_key, beq_self, Bool-cases, Option-cases,
}
use agent_arena.Prelude.Dict.{Dict, get, put, get-put}
use agent_arena.Prelude.Floats.{Floats}
use agent_arena.Prelude.Sort.{All}
use agent_arena.Schemas.Observation.{Observation}
use agent_arena.Schemas.World.{WorldObject, ExperienceEvent}
use agent_arena.Spatial.{
  SpatialMemory, is_gone, kept_status, set_status, store_or_update, seen, update_from_observation,
  mark_collected, mark_destroyed, obstacle, record_experience, clear_experiences, get_object,
}
use agent_arena.Spatial.Calls.{appended, record_experience-cases}
use agent_arena.Spatial.Index.{MemoryCall, step}

-- Is a remembered object marked?
abbrev pub gone : {F : Type 0} → Option (WorldObject F) → Bool
gone none = false
gone (some o) = is_gone o.status

module _ {F : Type 0} where
  abbrev pub KeepsObjects : MemoryCall F → Type 0
  KeepsObjects MemoryCall.clears = ⊥
  KeepsObjects _ = Unit

module _ {F : Type 0} ⦃fl : Floats F⦄ where
  gone-put :
      (d : Dict String (WorldObject F)) (k name : String) (o : WorldObject F)
      → gone (get d name) ≡ true
      → (gone (get d k) ≡ true → is_gone o.status ≡ true)
      → gone (get (put d k o) name) ≡ true
  gone-put d k name o h f = elim (Bool-cases (k == name)) [
    | inl same ↦
        ap gone (get-put d k name o)
        ∙ rw same (
            f (
              subst (λ (n : String). gone (get d n) ≡ true)
                (sym ((string_key.beq_iff k name).0 same)) h))
    | inr differ ↦ ap gone (get-put d k name o) ∙ rw differ h
  ]

  kept_gone :
      (e o : WorldObject F) → is_gone e.status ≡ true → is_gone (kept_status e o).status ≡ true
  kept_gone e o h = rw h h

  store-gone :
      (m : SpatialMemory F) (o : WorldObject F) (name : String)
      → gone (get m.objects name) ≡ true
      → gone (get (store_or_update m o).objects name) ≡ true
  unfolding store_or_update
  store-gone m o name h = elim (Option-cases (get m.objects o.name)) [
    | inl new ↦ simp new (gone-put m.objects o.name name o h (λ g. absurd (cc (ap gone new, g))))
    | inr (e, found) ↦ simp found (
        gone-put m.objects o.name name (kept_status e o) h
          (λ g. kept_gone e o (sym (ap gone found) ∙ g)))
  ]

  store_all-gone :
      (os : List (WorldObject F)) (m : SpatialMemory F) (name : String)
      → gone (get m.objects name) ≡ true
      → gone (get (foldl store_or_update m os).objects name) ≡ true
  store_all-gone [] m name h = h
  store_all-gone (o ∷ os) m name h = store_all-gone os _ name (store-gone m o name h)

  update-gone :
      (o : Observation F) (m : SpatialMemory F) (name : String)
      → gone (get m.objects name) ≡ true
      → gone (get (update_from_observation o m).objects name) ≡ true
  unfolding update_from_observation
  update-gone o m name h = store_all-gone (seen o) (record m { current_tick = o.tick }) name h

  set_status-gone :
      (k status name : String) (m : SpatialMemory F) (o : Option (WorldObject F))
      → is_gone status ≡ true
      → gone (get m.objects name) ≡ true
      → gone (get (set_status k m status o).1.objects name) ≡ true
  set_status-gone k status name m none s h = h
  set_status-gone k status name m (some o) s h = gone-put m.objects k name _ h (λ g. s)

  record-gone :
      (e : ExperienceEvent F) (m : SpatialMemory F) (name : String)
      → gone (get m.objects name) ≡ true
      → gone (get (record_experience e m).objects name) ≡ true
  record-gone e m name h = elim (record_experience-cases e m) [
    | inl same ↦ subst (λ (n : SpatialMemory F). gone (get n.objects name) ≡ true) (sym same) h
    | inr (k, stored) ↦
        subst (λ (n : SpatialMemory F). gone (get n.objects name) ≡ true) (sym stored)
          (store-gone (appended e m) (obstacle e k) name h)
  ]

  step-gone :
      (m : SpatialMemory F) (c : MemoryCall F) (name : String)
      → KeepsObjects c
      → gone (get m.objects name) ≡ true
      → gone (get (step m c).objects name) ≡ true
  unfolding step mark_collected mark_destroyed clear_experiences
  step-gone m (MemoryCall.observes o) name k h = update-gone o m name h
  step-gone m (MemoryCall.marks_collected n) name k h =
      set_status-gone n "collected" name m _ refl h
  step-gone m (MemoryCall.marks_destroyed n) name k h =
      set_status-gone n "destroyed" name m _ refl h
  step-gone m (MemoryCall.records e) name k h = record-gone e m name h
  step-gone m MemoryCall.clears_experiences name k h = h
  step-gone m MemoryCall.clears name k h = absurd k

  steps-gone :
      (cs : List (MemoryCall F)) (m : SpatialMemory F) (name : String)
      → All KeepsObjects cs
      → gone (get m.objects name) ≡ true
      → gone (get (foldl step m cs).objects name) ≡ true
  steps-gone [] m name k h = h
  steps-gone (c ∷ cs) m name k h = steps-gone cs (step m c) name k.1 (step-gone m c name k.0 h)

  marked :
      (m : SpatialMemory F) (name : String) (o : WorldObject F)
      → get m.objects name ≡ some o
      → gone (get (mark_collected name m).1.objects name) ≡ true
  unfolding mark_collected
  marked m name o found =
      simp found (ap gone (get-put m.objects name name _) ∙ rw (beq_self name) refl)

  -- A known object that is marked collected is still known, and still marked as collected or
  -- destroyed, after any observations, experiences and further marks, also where it is seen again,
  -- as long as the memory is not cleared.
  pub mark_collected_lasting :
      (m : SpatialMemory F) (name : String) (o : WorldObject F) (cs : List (MemoryCall F))
      → get_object m name ≡ some o
      → All KeepsObjects cs
      → gone (get_object (foldl step (mark_collected name m).1 cs) name) ≡ true
  unfolding get_object
  mark_collected_lasting m name o cs found k = steps-gone cs _ name k (marked m name o found)
