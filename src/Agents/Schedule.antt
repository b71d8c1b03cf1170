-- ===== src/Agents/Schedule.antt =====
-- The tasks of a tick in whatever order the executor runs them.
use mathlib.Core.List.{foldl, filter_map, append_assoc, append-nil}
use agent_arena.Prelude.{
  String, true, false, ◌&&◌, ◌≡◌, refl, sym, ap, ◌∙◌, List, [], ◌∷◌, ◌++◌, map, Option, none, some,
  inl, inr, Bool-cases, Option-cases, string_key, ◌==◌, beq_self, if◌then◌else◌, arith,
}
use agent_arena.Prelude.Dict.{Dict, get, put, has, keys, is_some, IsDict, get-put, put-IsDict}
use agent_arena.Prelude.DictKeys.{
  contains, IsDistinct, keys-put_known, has-keys, get-map_values, keys-map_values,
  map_values-IsDict, put_fresh, dict_ext,
}
use agent_arena.Prelude.Json.{Fields}
use agent_arena.Prelude.Maps.{map_option}
use agent_arena.Prelude.Result.{Result, ok}
use agent_arena.Agents.{Agent, Action, Llm, decide_action}
use agent_arena.Agents.Runtime.{AgentRuntime, Results, deliver, agent_decide, collect, process_tick}

-- Every agent of `d` has its task once.
pub record IsSchedule {F : Type 0} (order : List String) (d : Dict String (Agent F)) : Type 0 where
  pub once : IsDistinct order
  pub all : (k : String) → contains order k ≡ has d k

module _ {F : Type 0} (llm : Llm F) where
  abbrev after : Agent F → Agent F
  after a = (decide_action llm a).1

  abbrev answer : Agent F → Result (Option (Action F))
  answer a = ok (decide_action llm a).0

  module _ (d : Dict String (Agent F)) (results : Results F) where
    step-keys : (i : String) → keys (agent_decide llm true (d, results) i).0 ≡ keys d
    unfolding agent_decide
    step-keys i = elim (Option-cases (get d i)) [
      | inl p ↦ rw p refl
      | inr (a, p) ↦ rw p (keys-put_known d i (after a) (rw p refl))
    ]

    step-IsDict : (i : String) → IsDict d → IsDict (agent_decide llm true (d, results) i).0
    unfolding agent_decide
    step-IsDict i h = elim (Option-cases (get d i)) [
      | inl p ↦ rw p h
      | inr (a, p) ↦ rw p (put-IsDict d i (after a) h)
    ]

    get-step :
        (i k : String)
        → (get (agent_decide llm true (d, results) i).0 k
            ≡ (if i == k then map_option after (get d k) else get d k))
          × (get (agent_decide llm true (d, results) i).1 k
              ≡ (if i == k && has d k then map_option answer (get d k) else get results k))
    unfolding agent_decide
    get-step i k = elim (Option-cases (get d i)) [
      | inl p ↦ rw p (ground (arith, string_key.beq_iff i k, p))
      | inr (a, p) ↦ rw p (
        ground (arith, string_key.beq_iff i k, p, get-put d i k (after a)),
        ground (arith, string_key.beq_iff i k, p, get-put results i k (answer a)),
      )
    ]

  -- The agents and the results after the tasks of `order`.
  run-keys :
      (order : List String) (d : Dict String (Agent F)) (results : Results F)
      → keys (foldl (agent_decide llm true) (d, results) order).0 ≡ keys d
  run-keys [] d results = refl
  run-keys (i ∷ is) d results = run-keys is _ _ ∙ step-keys d results i

  run-IsDict :
      (order : List String) (d : Dict String (Agent F)) (results : Results F)
      → IsDict d
      → IsDict (foldl (agent_decide llm true) (d, results) order).0
  run-IsDict [] d results h = h
  run-IsDict (i ∷ is) d results h = run-IsDict is _ _ (step-IsDict d results i h)

  get-run :
      (order : List String) (d : Dict String (Agent F)) (results : Results F) (k : String)
      → IsDistinct order
      → (get (foldl (agent_decide llm true) (d, results) order).0 k
          ≡ (if contains order k then map_option after (get d k) else get d k))
        × (get (foldl (agent_decide llm true) (d, results) order).1 k
            ≡ (if contains order k && has d k then map_option answer (get d k) else get results k))
  unfolding contains
  get-run [] d results k once = (refl, refl)
  get-run (i ∷ is) d results k once =
      let s = agent_decide llm true (d, results) i in
      let r = get-run is s.0 s.1 k once.1 in
      let g = get-step d results i k in
      elim (Bool-cases (i == k)) [
        | inl p ↦
            let e : contains is k ≡ false =
              ap (contains is) (sym ((string_key.beq_iff i k).0 p)) ∙ once.0 in
            rw p (r.0 ∙ rw e (g.0 ∙ rw p refl), r.1 ∙ rw e (g.1 ∙ rw p refl))
        | inr p ↦
            let g0 : get s.0 k ≡ get d k = g.0 ∙ rw p refl in
            let g1 : get s.1 k ≡ get results k = g.1 ∙ rw p refl in
            rw p (r.0 ∙ rw g0 refl, r.1 ∙ rw (g0, g1) refl)
      ]

  -- the entry that an agent gives the actions
  abbrev pub action_entry : String × Agent F → Option (String × Action F)
  action_entry e = map_option (λ (x : Action F). (e.0, x)) (decide_action llm e.1).0

  -- After every task has run, awaiting them in the order of the agents gathers their answers.
  collect-answers :
      (results : Results F) (d : Dict String (Agent F)) (actions : Dict String (Action F))
      → IsDict d
      → ((k : String) → has d k ≡ true → get results k ≡ map_option answer (get d k))
      → ((k : String) → has d k ≡ true → get actions k ≡ none)
      → collect results (keys d) actions ≡ actions ++ filter_map action_entry d
  unfolding collect get filter_map
  collect-answers results [] actions h q new = sym (append-nil _)
  collect-answers results ((k, a) ∷ d) actions h q new =
      let here : get results k ≡ some (answer a) =
        q k (rw (beq_self k) refl) ∙ rw (beq_self k) refl in
      let later : (j : String) → has d j ≡ true → (k == j) ≡ false =
        λ j m. ground (arith, string_key.beq_iff k j, h.0) in
      rw (collect, here)
        (elim (Option-cases (decide_action llm a).0) [
          | inl p ↦ rw p (
              collect-answers results d actions h.1
                (λ j m. q j (rw (later j m) m) ∙ rw (later j m) refl)
                (λ j m. new j (rw (later j m) m)))
          | inr (x, p) ↦ rw p (
              collect-answers results d (put actions k x) h.1
                (λ j m. q j (rw (later j m) m) ∙ rw (later j m) refl)
                (λ j m. get-put actions k j x ∙ rw (later j m) (new j (rw (later j m) m)))
              ∙ ap (λ (z : Dict String (Action F)). z ++ filter_map action_entry d)
                  (put_fresh actions k x (new k (rw (beq_self k) refl)))
              ∙ append_assoc actions _ _)
        ])

  deliver-keys :
      (clock : String → String) (os : Dict String (Fields F)) (d : Dict String (Agent F))
      → keys (deliver clock os d) ≡ keys d
  unfolding deliver
  deliver-keys clock [] d = refl
  deliver-keys clock ((k, payload) ∷ os) d = elim (Option-cases (get d k)) [
    | inl p ↦ rw p (deliver-keys clock os d)
    | inr (a, p) ↦ rw p (deliver-keys clock os _ ∙ keys-put_known d k _ (rw p refl))
  ]

  deliver-IsDict :
      (clock : String → String) (os : Dict String (Fields F)) (d : Dict String (Agent F))
      → IsDict d
      → IsDict (deliver clock os d)
  unfolding deliver
  deliver-IsDict clock [] d h = h
  deliver-IsDict clock ((k, payload) ∷ os) d h = elim (Option-cases (get d k)) [
    | inl p ↦ rw p (deliver-IsDict clock os d h)
    | inr (a, p) ↦ rw p (deliver-IsDict clock os _ (put-IsDict d k _ h))
  ]

  run-agents :
      (order : List String) (d : Dict String (Agent F))
      → IsDict d
      → IsSchedule order d
      → (foldl (agent_decide llm true) (d, []) order).0 ≡ map (λ e. (e.0, after e.1)) d
  run-agents order d h s =
      dict_ext _ _ (run-IsDict order d [] h) (map_values-IsDict after d h)
        (run-keys order d [] ∙ sym (keys-map_values after d))
        (λ k.
          (get-run order d [] k s.once).0
          ∙ rw (s.all k) (known (get d k))
          ∙ sym (get-map_values after d k))
    where
      known :
          (o : Option (Agent F))
          → (if is_some o then map_option after o else o) ≡ map_option after o
      known none = refl
      known (some a) = refl

  -- In whatever order the executor runs the tasks of a tick, one for each registered agent, an open
  -- runtime ends the tick with every agent having perceived what the tick brings it and then
  -- decided once, and returns, in the order of registration, the actions of the agents that
  -- decided on one.
  pub process_tick-any_order :
      (order : List String) (clock : String → String) (observations : Dict String (Fields F))
      (r : AgentRuntime F)
      → r.executor_open ≡ true
      → IsDict r.agents
      → IsSchedule order r.agents
      → ((process_tick llm order clock observations r).0
          ≡ filter_map action_entry (deliver clock observations r.agents))
        × ((process_tick llm order clock observations r).1.agents
            ≡ map (λ e. (e.0, (decide_action llm e.1).1)) (deliver clock observations r.agents))
  unfolding process_tick get
  process_tick-any_order order clock observations r opened h s =
      let d = deliver clock observations r.agents in
      let same = deliver-keys clock observations r.agents in
      let t : IsSchedule order d = record {
        once = s.once;
        all = λ k.
            s.all k
            ∙ has-keys r.agents k
            ∙ ap (λ (ks : List String). contains ks k) (sym same)
            ∙ sym (has-keys d k);
      } in
      let hd = deliver-IsDict clock observations r.agents h in
      rw opened (
        collect-answers _ d [] hd (λ k m. (get-run order d [] k t.once).1 ∙ rw (t.all k, m) refl)
            (λ k m. refl),
        run-agents order d hd t,
      )
