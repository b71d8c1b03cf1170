-- ===== src/Window.antt =====
-- python/agent_runtime/memory/sliding_window.py: `SlidingWindowMemory`, over any type of
-- observations. A `limit` may be any integer, as `self._observations[-limit:]` takes it.
pub mod Laws
use agent_arena.Prelude.{
  ℕ, zero, suc, ◌-◌, List, [], ◌∷◌, ◌++◌, Option, none, some, reverse, length, drop, last_slice,
  ltb, if◌then◌else◌,
}
use agent_arena.Prelude.Int.{ℤ, pos, negsuc}
use agent_arena.Prelude.Result.{Result, ok, raise, Exn}

pub record SlidingWindow {ℓ} (O : Type ℓ) : Type ℓ where
  pub capacity : ℕ
  pub observations : List O

module _ {ℓ} {O : Type ℓ} where
  -- `SlidingWindowMemory(capacity)`
  unfoldable pub init : ℕ → Result (SlidingWindow O)
  init capacity =
      if ltb capacity 1
      then raise (Exn.value_error "Capacity must be at least 1")
      else ok (record { capacity = capacity; observations = [] })

  unfoldable pub store : SlidingWindow O → O → SlidingWindow O
  store w observation =
      let appended = w.observations ++ observation ∷ [] in
      if ltb w.capacity (length appended)
      then record w { observations = last_slice w.capacity appended }
      else record w { observations = appended }

  -- `xs[-limit:]`
  unfoldable pub slice_from_end : ℤ → List O → List O
  slice_from_end (pos n) xs = last_slice n xs
  slice_from_end (negsuc n) xs = drop (suc n) xs

  unfoldable pub retrieve : SlidingWindow O → Option ℤ → List O
  unfolding slice_from_end
  retrieve w none = reverse w.observations
  retrieve w (some limit) = reverse (slice_from_end limit w.observations)

  unfoldable pub clear : SlidingWindow O → SlidingWindow O
  clear w = record w { observations = [] }

  unfoldable pub size : SlidingWindow O → ℕ
  size w = length w.observations
