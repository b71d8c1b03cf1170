-- ===== src/Window/Laws.antt =====
-- The sliding window refines the history of all stored observations.
use mathlib.Core.List.{foldl, append_assoc, append-nil}
use agent_arena.Prelude.{
  ℕ, suc, ◌-◌, ◌<◌, List, [], ◌∷◌, ◌++◌, ◌≡◌, refl, ◌∙◌, ap, none, some, reverse, take, newest,
  reverse-newest, reverse-drop, arith,
}
use agent_arena.Prelude.Bounded.{append_slice-newest, newest-push}
use agent_arena.Prelude.Int.{pos, negsuc}
use agent_arena.Prelude.Result.{ok}
use agent_arena.Window.{SlidingWindow, init, store, retrieve, size}

-- `w` holds the newest `cap` items of the history.
pub record Tracks {ℓ} {O : Type ℓ} (cap : ℕ) (w : SlidingWindow O) (history : List O) : Type ℓ where
  pub positive : 0 < cap
  pub capacity : w.capacity ≡ cap
  pub window : w.observations ≡ newest cap history

module _ {ℓ} {O : Type ℓ} where
  store-newest :
      (w : SlidingWindow O) (o : O)
      → 0 < w.capacity
      → (store w o).observations ≡ newest w.capacity (w.observations ++ o ∷ [])
  unfolding store
  store-newest w o h = ground (arith, append_slice-newest w.capacity w.observations o h)

  capacity-store : (w : SlidingWindow O) (o : O) → (store w o).capacity ≡ w.capacity
  unfolding store
  capacity-store w o = ground arith

  pub init-Tracks : (cap : ℕ) {w : SlidingWindow O} → init cap ≡ ok w → Tracks cap w []
  unfolding init
  init-Tracks cap h = ground arith

  pub store-Tracks :
      {cap : ℕ} {w : SlidingWindow O} {history : List O} (o : O)
      → Tracks cap w history
      → Tracks cap (store w o) (history ++ o ∷ [])
  store-Tracks {cap} {w} {history} o t = record {
    positive = t.positive;
    capacity = capacity-store w o ∙ t.capacity;
    window = store-newest w o (omega arith) ∙ rw (t.capacity, t.window) (newest-push cap history o);
  }

  store_all-Tracks :
      (os : List O) {cap : ℕ} {w : SlidingWindow O} {history : List O}
      → Tracks cap w history
      → Tracks cap (foldl store w os) (history ++ os)
  store_all-Tracks [] t = rw append-nil t
  store_all-Tracks (o ∷ os) t = rw append_assoc at (store_all-Tracks os (store-Tracks o t))

  -- Storing a list of observations into a new window leaves exactly the newest `cap` of them, and
  -- `retrieve` without a limit gives these, the most recent first.
  pub store_all-newest :
      (cap : ℕ) (os : List O) {w : SlidingWindow O}
      → init cap ≡ ok w
      → ((foldl store w os).observations ≡ newest cap os)
        × (retrieve (foldl store w os) none ≡ take cap (reverse os))
  unfolding retrieve
  store_all-newest cap os h =
      let t = store_all-Tracks os (init-Tracks cap h) in
      (t.window, ap reverse t.window ∙ reverse-newest cap os)

  -- `retrieve` on every limit: a positive one gives that many items, the most recent first; zero
  -- gives the whole window; and `-k` skips the `k` oldest items.
  pub retrieve_limits :
      (w : SlidingWindow O) (n : ℕ)
      → (retrieve w (some (pos (suc n))) ≡ take (suc n) (retrieve w none))
        × (retrieve w (some (pos 0)) ≡ retrieve w none)
        × (retrieve w (some (negsuc n)) ≡ take (size w - suc n) (retrieve w none))
  unfolding retrieve size
  retrieve_limits w n =
      (reverse-newest (suc n) w.observations, refl, reverse-drop (suc n) w.observations)
