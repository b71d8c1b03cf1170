-- ===== src/Debug/Recent.antt =====
-- What `get_recent_traces` returns of all that was recorded.
use mathlib.Core.List.{foldl, append-nil, append_assoc}
use agent_arena.Prelude.Maps.{length-map, length-sort_by, length-keep}
use agent_arena.Prelude.{
  ℕ, suc, ◌≡◌, ◌≤◌, refl, sym, ◌∙◌, String, List, [], ◌∷◌, ◌++◌, map, Option, length, newest,
  length-newest, newest_all, keep, last_slice-newest, min, arith,
}
use agent_arena.Prelude.Bounded.{append_pop-newest, newest-push}
use agent_arena.Prelude.Int.{pos}
use agent_arena.Prelude.Sort.{sort_by}
use agent_arena.Window.{slice_from_end}
use agent_arena.Debug.{
  DebugStore, DebugTrace, init, record_trace, get_recent_traces, wanted, debug_by_tick,
  debug_trace_to_dict,
}

module _ {F : Type 0} where
  -- the buffer holds the newest traces of the history
  abbrev Holds : ℕ → DebugStore F → List (DebugTrace F) → Type 0
  Holds n s history = (s.max_memory_traces ≡ n) × (s.buffer ≡ newest n history)

  record-Holds :
      (n : ℕ) (s : DebugStore F) (history : List (DebugTrace F)) (t : DebugTrace F)
      → Holds n s history
      → Holds n (record_trace s t) (history ++ t ∷ [])
  unfolding record_trace
  record-Holds n s history t (m, h) = (
    m,
    append_pop-newest s.max_memory_traces s.buffer t
          (rw (m, h) (omega (arith, length-newest n history)))
        ∙ rw (m, h) (newest-push n history t),
  )

  all-Holds :
      (ts : List (DebugTrace F)) (n : ℕ) (s : DebugStore F) (history : List (DebugTrace F))
      → Holds n s history
      → Holds n (foldl record_trace s ts) (history ++ ts)
  all-Holds [] n s history h = rw append-nil h
  all-Holds (t ∷ ts) n s history h =
      rw append_assoc at
        (all-Holds ts n (record_trace s t) (history ++ t ∷ []) (record-Holds n s history t h))

  init-Holds : (n : ℕ) → Holds n (init n) []
  unfolding init
  init-Holds n = (refl, sym (newest_all n [] (omega arith)))

  -- Of all the traces recorded in a new store, a query with a positive limit gives the JSON form of
  -- the last ones up to the limit, in the order of their ticks, among the newest traces that the
  -- store has room for and that have the agent and the ticks asked for. It never gives more than
  -- the limit or than there is room for.
  pub get_recent_traces-newest :
      (n k : ℕ) (ts : List (DebugTrace F)) (agent_id : Option String) (lo hi : Option ℕ)
      → (get_recent_traces (foldl record_trace (init n) ts) (pos (suc k)) agent_id lo hi
          ≡ map debug_trace_to_dict
              (newest (suc k) (sort_by debug_by_tick (keep (wanted agent_id lo hi) (newest n ts)))))
        × (length (get_recent_traces (foldl record_trace (init n) ts) (pos (suc k)) agent_id lo hi)
            ≤ min (suc k) n)
  unfolding get_recent_traces slice_from_end
  get_recent_traces-newest n k ts agent_id lo hi =
      let (m, h) = all-Holds ts n (init n) [] (init-Holds n) in
      let kept = keep (wanted agent_id lo hi) (newest n ts) in
      let found = sort_by debug_by_tick kept in
      rw (h, last_slice-newest (suc k) found (omega arith))
        (
          refl,
          omega (
            arith,
            length-map debug_trace_to_dict (newest (suc k) found),
            length-newest (suc k) found,
            length-sort_by debug_by_tick kept,
            length-keep (wanted agent_id lo hi) (newest n ts),
            length-newest n ts,
          ),
        )
