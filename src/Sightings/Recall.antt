-- ===== src/Sightings/Recall.antt =====
-- The window of the starter's memory, and the last sighting of each name in it.
use mathlib.Core.List.{foldl, append_assoc, append-nil}
use agent_arena.Prelude.{
  ℕ, ◌≤◌, String, ◌≡◌, refl, ap, ◌∙◌, List, [], ◌∷◌, ◌++◌, map, Option, none, some, length, newest,
  length-newest, ◌==◌, string_key, if◌then◌else◌, leb, arith,
}
use agent_arena.Prelude.Bounded.{append_pop-newest, newest-push}
use agent_arena.Prelude.Dict.{get, put, IsDict, get-put, put-IsDict}
use agent_arena.Prelude.Result.{ok}
use agent_arena.Schemas.{Position}
use agent_arena.Schemas.Observation.{Observation}
use agent_arena.Sightings.{Memory, Seen, init, store, note_all, seen_in, is_full}

abbrev pub or_else {ℓ} : {A : Type ℓ} → Option A → Option A → Option A
or_else none b = b
or_else (some a) b = some a

-- the last value under a name
abbrev pub last {ℓ} : {V : Type ℓ} → String → List (String × V) → Option V
last name [] = none
last name ((n, v) ∷ es) = or_else (last name es) (if n == name then some v else none)

last-append {ℓ} :
    {V : Type ℓ} (name : String) (xs ys : List (String × V))
    → last name (xs ++ ys) ≡ or_else (last name ys) (last name xs)
last-append name [] ys = ground arith
last-append name ((n, v) ∷ xs) ys = ground (arith, last-append name xs ys)

module _ {F : Type 0} where
  -- `m` holds the newest `cap` observations of the history.
  pub record Tracks (cap : ℕ) (m : Memory F) (history : List (Observation F)) : Type 0 where
    pub capacity : m.capacity ≡ cap
    pub window : m.observations ≡ newest cap history

  store-Tracks :
      (cap : ℕ) (m : Memory F) (history : List (Observation F)) (o : Observation F)
      → Tracks cap m history
      → Tracks cap (store m o) (history ++ o ∷ [])
  unfolding store
  store-Tracks cap m history o t =
      let fits : length m.observations ≤ m.capacity = omega (
        arith,
        length-newest cap history,
        ap (λ (l : List (Observation F)). length l) t.window,
        t.capacity,
      ) in
      record {
        capacity = t.capacity;
        window =
            append_pop-newest m.capacity m.observations o fits
            ∙ rw (t.capacity, t.window) (newest-push cap history o);
      }

  init-Tracks : (cap : ℕ) (m : Memory F) → init cap ≡ ok m → Tracks cap m []
  unfolding init
  init-Tracks cap m h = ground arith

  store_all-Tracks :
      (os : List (Observation F)) (cap : ℕ) (m : Memory F) (history : List (Observation F))
      → Tracks cap m history
      → Tracks cap (foldl store m os) (history ++ os)
  store_all-Tracks [] cap m history t = rw append-nil t
  store_all-Tracks (o ∷ os) cap m history t =
      rw append_assoc at (store_all-Tracks os cap (store m o) _ (store-Tracks cap m history o t))

  -- the (name, value) pairs of a list of observations, in the order in which they were seen
  abbrev pub stream :
      (Observation F → List (String × Position F))
      → List (Observation F)
      → List (String × (Position F × ℕ))
  stream of [] = []
  stream of (o ∷ os) = map (λ r. (r.0, (r.1, o.tick))) (of o) ++ stream of os

  get-note_all :
      (name : String) (tick : ℕ) (rs : List (String × Position F)) (d : Seen F)
      → get (note_all tick rs d) name
        ≡ or_else (last name (map (λ r. (r.0, (r.1, tick))) rs)) (get d name)
  unfolding note_all
  get-note_all name tick [] d = refl
  get-note_all name tick ((n, p) ∷ rs) d =
      get-note_all name tick rs (put d n (p, tick)) ∙ ground (arith, get-put d n name (p, tick))

  -- A name's entry in the dictionary that the loops build is its last sighting.
  pub get-seen_in :
      (name : String) (of : Observation F → List (String × Position F)) (os : List (Observation F))
      (d : Seen F)
      → get (seen_in of os d) name ≡ or_else (last name (stream of os)) (get d name)
  unfolding seen_in
  get-seen_in name of [] d = refl
  get-seen_in name of (o ∷ os) d =
      let now : List (String × (Position F × ℕ)) =
        map (λ (r : String × Position F). (r.0, (r.1, o.tick))) (of o) in
      get-seen_in name of os (note_all o.tick (of o) d)
      ∙ ground (arith, get-note_all name o.tick (of o) d, last-append name now (stream of os))

  note_all-IsDict :
      (tick : ℕ) (rs : List (String × Position F)) (d : Seen F)
      → IsDict d
      → IsDict (note_all tick rs d)
  unfolding note_all
  note_all-IsDict tick [] d h = h
  note_all-IsDict tick ((n, p) ∷ rs) d h = note_all-IsDict tick rs _ (put-IsDict d n (p, tick) h)

  pub seen_in-IsDict :
      (of : Observation F → List (String × Position F)) (os : List (Observation F)) (d : Seen F)
      → IsDict d
      → IsDict (seen_in of os d)
  unfolding seen_in
  seen_in-IsDict of [] d h = h
  seen_in-IsDict of (o ∷ os) d h = seen_in-IsDict of os _ (note_all-IsDict o.tick (of o) d h)

  -- Storing a list of observations into a new memory leaves exactly the newest `cap` of them, and the
  -- memory is full exactly if at least `cap` were stored.
  pub store_all-recent :
      (cap : ℕ) (os : List (Observation F)) (m : Memory F)
      → init cap ≡ ok m
      → ((foldl store m os).observations ≡ newest cap os)
        × (is_full (foldl store m os) ≡ leb cap (length os))
  unfolding is_full
  store_all-recent cap os m h =
      let t = store_all-Tracks os cap m [] (init-Tracks cap m h) in
      (
        t.window,
        ground (
          arith,
          t.capacity,
          ap (λ (l : List (Observation F)). length l) t.window,
          length-newest cap os,
        ),
      )
