-- ===== src/Agents/Newest.antt =====
-- What an agent keeps of the observations that the ticks bring it.
use mathlib.Core.List.{foldl, append_assoc, append-nil}
use mathlib.Core.Option.{some-injective}
use agent_arena.Prelude.{
  ℕ, String, Bool, ◌<◌, ◌≤◌, ◌≡◌, refl, sym, ap, ◌∙◌, List, [], ◌∷◌, ◌++◌, some, length, newest,
  newest_all, ◌==◌, string_key, Bool-cases, Option-cases, inl, inr, arith,
}
use agent_arena.Prelude.Dict.{Dict, get, get-put}
use agent_arena.Prelude.Result.{Result-cases, ◌>>=◌}
use agent_arena.Agents.{Agent, AgentObservation, Llm, decide_action, build_context, parse_action}
use agent_arena.Agents.Runtime.{AgentRuntime, Results, agent_decide, process_tick, get_agent}
use agent_arena.Agents.Heard.{Tick, Keeps, put-Keeps, deliver-Keeps, heard, told}

module _ {F : Type 0} (llm : Llm F) where
  decide_action-window :
      (a : Agent F)
      → ((decide_action llm a).1.state.observations ≡ a.state.observations)
        × ((decide_action llm a).1.memory_capacity ≡ a.memory_capacity)
  unfolding decide_action
  decide_action-window a = elim (Bool-cases a.has_backend) [
    | inr p ↦ rw p (refl, refl)
    | inl p ↦
        elim (Result-cases (llm.query (build_context llm.show a) >>= parse_action llm.loads)) [
          | inr (e, q) ↦ rw (p, q) (refl, refl)
          | inl (o, q) ↦ elim (Option-cases o) [
            | inl r ↦ rw (p, q, r) (refl, refl)
            | inr (x, r) ↦ rw (p, q, r) (refl, refl)
          ]
        ]
  ]

  run-Keeps :
      (accepts : Bool) (d : Dict String (Agent F)) (results : Results F) (k agent_id : String)
      {cap : ℕ} {history : List (AgentObservation F)}
      → Keeps d agent_id cap history
      → Keeps (agent_decide llm accepts (d, results) k).0 agent_id cap history
  unfolding agent_decide
  run-Keeps accepts d results k agent_id h = elim (Option-cases (get d k)) [
    | inl p ↦ rw p h
    | inr (a, p) ↦ rw p (elim (Bool-cases accepts) [
      | inr closed ↦ rw closed h
      | inl opened ↦ rw opened (elim (Bool-cases (k == agent_id)) [
        | inr other ↦ put-Keeps d agent_id k (decide_action llm a).1 other h
        | inl same ↦
            let w = decide_action-window a in
            let e = (string_key.beq_iff k agent_id).0 same in
            let q : a ≡ h.agent = some-injective _ _ (sym p ∙ ap (get d) e ∙ h.found) in
            record {
              agent = (decide_action llm a).1;
              found = ground (arith, get-put d k agent_id (decide_action llm a).1);
              capacity = w.1 ∙ ap (λ (b : Agent F). b.memory_capacity) q ∙ h.capacity;
              window = w.0 ∙ ap (λ (b : Agent F). b.state.observations) q ∙ h.window;
            }
      ])
    ])
  ]

  run_all-Keeps :
      (order : List String) (accepts : Bool) (d : Dict String (Agent F)) (results : Results F)
      (agent_id : String) {cap : ℕ} {history : List (AgentObservation F)}
      → Keeps d agent_id cap history
      → Keeps (foldl (agent_decide llm accepts) (d, results) order).0 agent_id cap history
  run_all-Keeps [] accepts d results agent_id h = h
  run_all-Keeps (k ∷ ks) accepts d results agent_id h =
      run_all-Keeps ks accepts _ _ agent_id (run-Keeps accepts d results k agent_id h)

  abbrev pub run_tick : AgentRuntime F → Tick F → AgentRuntime F
  run_tick r t = (process_tick llm t.order t.clock t.observations r).1

  run_tick-Keeps :
      (r : AgentRuntime F) (t : Tick F) (agent_id : String) {cap : ℕ}
      {history : List (AgentObservation F)}
      → 0 < cap
      → Keeps r.agents agent_id cap history
      → Keeps (run_tick r t).agents agent_id cap (history ++ heard t.clock t.observations agent_id)
  unfolding process_tick
  run_tick-Keeps r t agent_id pos h =
      run_all-Keeps t.order r.executor_open _ [] agent_id
        (deliver-Keeps t.clock t.observations r.agents agent_id pos h)

  ticks-Keeps :
      (ts : List (Tick F)) (r : AgentRuntime F) (agent_id : String) {cap : ℕ}
      {history : List (AgentObservation F)}
      → 0 < cap
      → Keeps r.agents agent_id cap history
      → Keeps (foldl run_tick r ts).agents agent_id cap (history ++ told ts agent_id)
  unfolding told
  ticks-Keeps [] r agent_id pos h = rw append-nil h
  ticks-Keeps (t ∷ ts) r agent_id pos h =
      rw append_assoc at
        (ticks-Keeps ts (run_tick r t) agent_id pos (run_tick-Keeps r t agent_id pos h))

  -- After any run of ticks, whatever the model answers and in whatever order the executor runs the
  -- tasks, a registered agent with a positive capacity, and no more observations than that at the
  -- start, is still registered, and holds exactly the newest observations up to its capacity among
  -- those it had and those that the ticks brought for its id.
  pub ticks-newest :
      (ts : List (Tick F)) (r : AgentRuntime F) (agent_id : String) (a : Agent F)
      → get_agent r agent_id ≡ some a
      → 0 < a.memory_capacity
      → length a.state.observations ≤ a.memory_capacity
      → (b : Agent F) × (get_agent (foldl run_tick r ts) agent_id ≡ some b)
        × (b.state.observations
            ≡ newest a.memory_capacity (a.state.observations ++ told ts agent_id))
  unfolding get_agent
  ticks-newest ts r agent_id a found pos fits =
      let h = ticks-Keeps ts r agent_id pos (record {
        agent = a;
        found = found;
        capacity = refl;
        window = sym (newest_all a.memory_capacity a.state.observations fits);
      }) in
      (h.agent, h.found, h.window)
