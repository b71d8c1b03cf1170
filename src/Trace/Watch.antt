-- ===== src/Trace/Watch.antt =====
-- `watch` and `unwatch` of the `TraceStore`.
use mathlib.Core.List.{Memᴰ}
use agent_arena.Prelude.{
  ℕ, ◌≡◌, inl, inr, refl, sym, ap, ◌∙◌, String, List, [], ◌∷◌, ◌++◌, Option, none, some, ◌==◌,
  string_key, nat_key, pair_key, nat_beq_iff, beq_self, if◌then◌else◌, arith, Bool-cases,
}
use agent_arena.Prelude.Dict.{Dict, get, put, del, get-put, get-del}
use agent_arena.Prelude.Result.{Result, ok, raise, Exn}
use agent_arena.Trace.{TraceStore, or_nil}

abbrev cons_some : ℕ → Option (List ℕ) → Option (List ℕ)
cons_some d none = none
cons_some d (some ds) = some (d ∷ ds)

-- `list.remove`, which raises if the item is absent
unfoldable pub remove_first : ℕ → List ℕ → Option (List ℕ)
remove_first c [] = none
remove_first c (d ∷ ds) =
    let rest = remove_first c ds in if d == c then some ds else cons_some d rest

abbrev put_or_del : Dict String (List ℕ) → String → List ℕ → Dict String (List ℕ)
put_or_del d agent_id [] = del d agent_id
put_or_del d agent_id (c ∷ cs) = put d agent_id (c ∷ cs)

module _ {F : Type 0} where
  unfoldable pub watch : String → ℕ → TraceStore F → TraceStore F
  watch agent_id callback s = record s {
    watchers = put s.watchers agent_id (or_nil (get s.watchers agent_id) ++ callback ∷ []);
  }

  abbrev unwatch_found : TraceStore F → String → Option (List ℕ) → Result (TraceStore F)
  unwatch_found s agent_id none = raise (Exn.value_error "list.remove(x): x not in list")
  unwatch_found s agent_id (some rest) =
      ok (record s { watchers = put_or_del s.watchers agent_id rest })

  abbrev unwatch_in : TraceStore F → String → ℕ → Option (List ℕ) → Result (TraceStore F)
  unwatch_in s agent_id callback none = ok s
  unwatch_in s agent_id callback (some cs) = unwatch_found s agent_id (remove_first callback cs)

  unfoldable pub unwatch : String → ℕ → TraceStore F → Result (TraceStore F)
  unfolding remove_first
  unwatch agent_id callback s = unwatch_in s agent_id callback (get s.watchers agent_id)

remove_first-append : (c : ℕ) (cs : List ℕ) → ¬ Memᴰ c cs → remove_first c (cs ++ c ∷ []) ≡ some cs
unfolding remove_first
remove_first-append c [] m = ground (arith, (nat_beq_iff c c).1 refl)
remove_first-append c (d ∷ ds) m = elim (Bool-cases (d == c)) [
  | inl same ↦ absurd (m (Memᴰ.head (sym ((nat_beq_iff d c).0 same))))
  | inr other ↦ ground (arith, other, remove_first-append c ds (λ n. m (Memᴰ.tail n)))
]

get-put_or_del :
    (d : Dict String (List ℕ)) (agent_id other : String) (cs : List ℕ)
    → or_nil (get (put_or_del d agent_id cs) other)
      ≡ (if agent_id == other then cs else or_nil (get d other))
get-put_or_del d agent_id other [] = rw (get-del d agent_id other) (ground arith)
get-put_or_del d agent_id other (c ∷ cs) = rw (get-put d agent_id other (c ∷ cs)) (ground arith)

restored :
    (d : Dict String (List ℕ)) (agent_id other : String) (cs ds : List ℕ)
    → cs ≡ or_nil (get d agent_id)
    → (if agent_id == other
        then cs
        else or_nil (if agent_id == other then some ds else get d other))
      ≡ or_nil (get d other)
restored d agent_id other cs ds h = elim (Bool-cases (agent_id == other)) [
  | inl same ↦
      rw same
        (h ∙ ap (λ (k : String). or_nil (get d k)) ((string_key.beq_iff agent_id other).0 same))
  | inr differ ↦ rw differ
]

module _ {F : Type 0} where
  -- which watchers an agent's trace is passed to, in the order of the calls
  abbrev pub listeners : TraceStore F → String → List ℕ
  listeners s agent_id = or_nil (get s.watchers agent_id)

  -- After `watch`, the callback is the last of its agent's listeners, and the others' are the same.
  pub listeners-watch :
      (agent_id other : String) (callback : ℕ) (s : TraceStore F)
      → listeners (watch agent_id callback s) other
        ≡ (if agent_id == other then listeners s agent_id ++ callback ∷ [] else listeners s other)
  unfolding watch
  listeners-watch agent_id other callback s =
      rw (get-put s.watchers agent_id other (or_nil (get s.watchers agent_id) ++ callback ∷ []))
        (ground arith)

  -- `unwatch` takes a callback that was not yet registered for the agent back out after `watch`: every
  -- agent has the listeners that it had.
  pub unwatch-watch :
      (agent_id : String) (callback : ℕ) (s : TraceStore F)
      → ¬ Memᴰ callback (listeners s agent_id)
      → (s' : TraceStore F) × (unwatch agent_id callback (watch agent_id callback s) ≡ ok s')
        × ((other : String) → listeners s' other ≡ listeners s other)
  unfolding watch unwatch
  unwatch-watch agent_id callback s new =
      let cs = listeners s agent_id in
      let w = put s.watchers agent_id (cs ++ callback ∷ []) in
      let there : get w agent_id ≡ some (cs ++ callback ∷ []) =
        get-put s.watchers agent_id agent_id (cs ++ callback ∷ []) ∙ rw (beq_self agent_id) in
      let removed : remove_first callback (cs ++ callback ∷ []) ≡ some cs =
        remove_first-append callback cs new in
      (
        record (watch agent_id callback s) { watchers = put_or_del w agent_id cs },
        ap (unwatch_in (watch agent_id callback s) agent_id callback) there
            ∙ ap (unwatch_found (watch agent_id callback s) agent_id) removed,
        λ other.
            get-put_or_del w agent_id other cs
            ∙ ap (λ (o : Option (List ℕ)). if agent_id == other then cs else or_nil o)
                (get-put s.watchers agent_id other (cs ++ callback ∷ []))
            ∙ restored s.watchers agent_id other cs (cs ++ callback ∷ []) refl,
      )
