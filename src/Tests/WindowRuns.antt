-- ===== src/Tests/WindowRuns.antt =====
-- The sliding window on numbers for observations.
use mathlib.Core.List.{foldl}
use agent_arena.Prelude.{ℕ, List, [], ◌∷◌, ◌≡◌, refl, some, none, reverse, take, newest, ◌-◌}
use agent_arena.Prelude.Int.{pos, negsuc}
use agent_arena.Prelude.Result.{ok}
use agent_arena.Window.{SlidingWindow, init, store, retrieve, size}
use agent_arena.Window.Laws.{store_all-newest, retrieve_limits}

abbrev empty : SlidingWindow ℕ
empty = record { capacity = 2; observations = [] }

abbrev seen : List ℕ
seen = 5 ∷ 6 ∷ 7 ∷ []

abbrev full : SlidingWindow ℕ
full = record { capacity = 2; observations = 6 ∷ 7 ∷ [] }

init_two : init {O = ℕ} 2 ≡ ok empty
unfolding init
init_two = refl

run : foldl store empty seen ≡ full
unfolding store
run = refl

limits :
    (retrieve full (some (pos 1)) ≡ 7 ∷ [])
    × (retrieve full (some (pos 0)) ≡ 7 ∷ 6 ∷ [])
    × (retrieve full (some (negsuc 0)) ≡ 7 ∷ [])
unfolding retrieve
limits = (refl, refl, refl)

store_all-newest_example :
    ((foldl store empty seen).observations ≡ newest 2 seen)
    × (retrieve (foldl store empty seen) none ≡ take 2 (reverse seen))
store_all-newest_example = store_all-newest 2 seen init_two

retrieve_limits_example :
    (retrieve full (some (pos 1)) ≡ take 1 (retrieve full none))
    × (retrieve full (some (pos 0)) ≡ retrieve full none)
    × (retrieve full (some (negsuc 0)) ≡ take (size full - 1) (retrieve full none))
retrieve_limits_example = retrieve_limits full 0
