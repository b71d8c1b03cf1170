-- ===== src/Server/Tracker/Visible.antt =====
-- What the tracker reports as gained and lost, and how much it keeps.
use mathlib.Core.List.{foldl, Memᴰ}
use agent_arena.Prelude.{
  ℕ, ◌≤◌, ◌≡◌, ◌↔◌, refl, sym, ◌∙◌, inl, inr, String, not, List, [], ◌∷◌, map, Option, none, some,
  length, ◌==◌, ◌++◌, length-newest, string_key, if◌then◌else◌, arith, Bool-cases, mem-keep,
}
use agent_arena.Prelude.Bounded.{append_pop-newest}
use agent_arena.Prelude.Dict.{get, get-put}
use agent_arena.Prelude.DictKeys.{
  contains, add_key, contains-add_key, mem_of_contains, contains_of_mem,
}
use agent_arena.Prelude.Int.{pos}
use agent_arena.Prelude.Json.{Json, Fields, obj, done, get_field}
use agent_arena.Prelude.Result.{ok}
use agent_arena.Prelude.Sort.{mem-sort_by}
use agent_arena.Prelude.Text.{str_leb}
use agent_arena.Schemas.{to_items, position_to_list}
use agent_arena.Schemas.Observation.{Observation, observation_to_dict}
use agent_arena.Schemas.Percepts.{ResourceInfo, HazardInfo, resource_to_dict, hazard_to_dict}
use agent_arena.Server.Tracker.{
  ObservationEntry, ObservationTracker, init, minus, sorted, seen_before, names_in, note_visible,
  track_observation,
}

abbrev pub name_set : List String → List String
name_set [] = []
name_set (x ∷ xs) = add_key (name_set xs) x

module _ {F : Type 0} where
  abbrev pub resource_names : Observation F → List String
  resource_names o = map (λ (r : ResourceInfo F). r.name) o.nearby_resources

  abbrev pub hazard_names : Observation F → List String
  hazard_names o = map (λ (h : HazardInfo F). h.name) o.nearby_hazards

  -- the dictionary that the game sends
  abbrev pub fields_of : Json F → Fields F
  fields_of (obj d) = d
  fields_of _ = done

  names_in-resources :
      (show : Json F → String) (rs : List (ResourceInfo F))
      → names_in show (to_items resource_to_dict rs) ≡ ok (name_set (map (λ r. r.name) rs))
  unfolding names_in resource_to_dict get_field
  names_in-resources show [] = refl
  names_in-resources show (r ∷ rs) = rw (names_in-resources show rs) refl

  names_in-hazards :
      (show : Json F → String) (hs : List (HazardInfo F))
      → names_in show (to_items hazard_to_dict hs) ≡ ok (name_set (map (λ h. h.name) hs))
  unfolding names_in hazard_to_dict get_field
  names_in-hazards show [] = refl
  names_in-hazards show (h ∷ hs) = rw (names_in-hazards show hs) refl

  -- the entry and the tracker after an observation of the game
  abbrev pub noted :
      String → Observation F → ObservationTracker F → ObservationEntry F × ObservationTracker F
  noted now o t =
      note_visible now (pos o.tick) o.agent_id (position_to_list o.position)
        (name_set (resource_names o)) (name_set (hazard_names o))
        (fields_of (observation_to_dict o)) t

  -- An observation of the game never makes the tracker raise.
  pub track_observation-ok :
      (show : Json F → String) (now : String) (o : Observation F) (t : ObservationTracker F)
      → track_observation show now (fields_of (observation_to_dict o)) t ≡ ok (noted now o t)
  unfolding track_observation observation_to_dict get_field
  track_observation-ok show now o t =
      rw (names_in-resources show o.nearby_resources, names_in-hazards show o.nearby_hazards) refl

contains-name_set : (xs : List String) (x : String) → contains (name_set xs) x ≡ contains xs x
unfolding contains
contains-name_set [] x = refl
contains-name_set (y ∷ xs) x =
    ground (arith, contains-add_key (name_set xs) y x, contains-name_set xs x)

mem-name_set : (xs : List String) (x : String) → Memᴰ x (name_set xs) ↔ Memᴰ x xs
mem-name_set xs x = (
  λ m. mem_of_contains xs x (sym (contains-name_set xs x) ∙ contains_of_mem (name_set xs) x m),
  λ m. mem_of_contains (name_set xs) x (contains-name_set xs x ∙ contains_of_mem xs x m),
)

-- `sorted(xs - ys)` has what is in the one set and not in the other.
mem-minus :
    (xs ys : List String) (x : String)
    → Memᴰ x (sorted (minus (name_set xs) (name_set ys))) ↔ (Memᴰ x xs × ¬ (Memᴰ x ys))
unfolding minus sorted
mem-minus xs ys x =
    let (into, out) = mem-sort_by str_leb x (minus (name_set xs) (name_set ys)) in
    let (left, right) = mem-keep (λ z. not (contains (name_set ys) z)) x (name_set xs) in
    let (of_set, to_set) = mem-name_set xs x in
    let (of_other, to_other) = mem-name_set ys x in
    (
      λ m.
          let (n, absent) = left (into m) in
          (of_set n, λ k. cc (absent, contains_of_mem (name_set ys) x (to_other k))),
      λ h. out (
          right (
            to_set h.0,
            elim (Bool-cases (contains (name_set ys) x)) [
              | inl there ↦ absurd (h.1 (of_other (mem_of_contains (name_set ys) x there)))
              | inr gone ↦ rw gone refl
            ],
          )),
    )

module _ {F : Type 0} where
  -- the last observation of an agent, the latest one last
  abbrev pub latest :
      String → Option (Observation F) → List (Observation F) → Option (Observation F)
  latest agent_id last [] = last
  latest agent_id last (o ∷ os) =
      latest agent_id (if o.agent_id == agent_id then some o else last) os

  -- The names that were in sight; without an earlier observation there are none.
  abbrev pub shown : (Observation F → List String) → Option (Observation F) → List String
  shown names none = []
  shown names (some o) = names o

  abbrev Remembers : Option (List String × List String) → Option (Observation F) → Type 0
  Remembers v last =
      seen_before v ≡ (name_set (shown resource_names last), name_set (shown hazard_names last))

  module _ (now : String) where
    abbrev pub note_all : ObservationTracker F → List (Observation F) → ObservationTracker F
    note_all = foldl (λ t o. (noted now o t).1)

    remembers :
        (agent_id : String) (os : List (Observation F)) (t : ObservationTracker F)
        (last : Option (Observation F))
        → Remembers (get t.last_visible agent_id) last
        → Remembers (get (note_all t os).last_visible agent_id) (latest agent_id last os)
    unfolding note_visible
    remembers agent_id [] t last h = h
    remembers agent_id (o ∷ os) t last h =
        let set = name_set (resource_names o) in
        let next = get-put t.last_visible o.agent_id agent_id (set, name_set (hazard_names o)) in
        elim (Bool-cases (o.agent_id == agent_id)) [
          | inl same ↦
              rw same (remembers agent_id os (noted now o t).1 (some o) (rw (next, same) refl))
          | inr other ↦ rw other (remembers agent_id os (noted now o t).1 last (rw (next, other) h))
        ]

    IsBounded : ℕ → ObservationTracker F → Type 0
    IsBounded n t = (t.max_entries ≡ n) × (length t.observations ≤ n)

    noted-IsBounded :
        (n : ℕ) (o : Observation F) (t : ObservationTracker F)
        → IsBounded n t
        → IsBounded n (noted now o t).1
    unfolding IsBounded note_visible
    noted-IsBounded n o t (m, l) =
        let (entry, next) = noted now o t in
        (
          m,
          rw (append_pop-newest t.max_entries t.observations entry (omega (arith, m)), m)
              (omega (arith, length-newest n (t.observations ++ entry ∷ []))),
        )

    note_all-IsBounded :
        (n : ℕ) (os : List (Observation F)) (t : ObservationTracker F)
        → IsBounded n t
        → IsBounded n (note_all t os)
    note_all-IsBounded n [] t h = h
    note_all-IsBounded n (o ∷ os) t h =
        note_all-IsBounded n os (noted now o t).1 (noted-IsBounded n o t h)

    -- After any observations of the game, a further one is tracked without an exception. Its entry
    -- reports as gained exactly the resources and hazards whose names the agent's last observation
    -- before it, if there is one, did not have, as lost exactly those that only that one had, and
    -- the tracker holds no more entries than it has room for.
    pub track_observation-changes :
        (show : Json F → String) (n : ℕ) (os : List (Observation F)) (o : Observation F)
        → (e : ObservationEntry F) × (t : ObservationTracker F) × (track_observation show now
              (fields_of (observation_to_dict o))
              (note_all (init n) os)
            ≡ ok (e, t))
          × ((x : String)
              → Memᴰ x e.gained_resources ↔ (
                  Memᴰ x (resource_names o)
                  × ¬ Memᴰ x (shown resource_names (latest o.agent_id none os))))
          × ((x : String)
              → Memᴰ x e.lost_resources ↔ (
                  Memᴰ x (shown resource_names (latest o.agent_id none os))
                  × ¬ Memᴰ x (resource_names o)))
          × ((x : String)
              → Memᴰ x e.gained_hazards ↔ (
                  Memᴰ x (hazard_names o)
                  × ¬ Memᴰ x (shown hazard_names (latest o.agent_id none os))))
          × ((x : String)
              → Memᴰ x e.lost_hazards ↔ (
                  Memᴰ x (shown hazard_names (latest o.agent_id none os))
                  × ¬ Memᴰ x (hazard_names o)))
          × (length t.observations ≤ n)
    unfolding init note_visible IsBounded get
    track_observation-changes show n os o =
        let before = note_all (init n) os in
        let last = latest o.agent_id none os in
        let r = remembers o.agent_id os (init n) none refl in
        let bound =
          noted-IsBounded n o before (note_all-IsBounded n os (init n) (refl, omega arith)) in
        (
          (noted now o before).0,
          (noted now o before).1,
          track_observation-ok show now o before,
          λ x. rw r (mem-minus (resource_names o) (shown resource_names last) x),
          λ x. rw r (mem-minus (shown resource_names last) (resource_names o) x),
          λ x. rw r (mem-minus (hazard_names o) (shown hazard_names last) x),
          λ x. rw r (mem-minus (shown hazard_names last) (hazard_names o) x),
          bound.1,
        )
