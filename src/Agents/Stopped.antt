-- ===== src/Agents/Stopped.antt =====
-- A runtime after `stop`, which shuts its executor down.
use mathlib.Core.List.{foldl}
use agent_arena.Prelude.{
  String, false, ◌≡◌, refl, List, [], ◌∷◌, none, some, ◌⊎◌, inl, inr, Bool-cases, Option-cases,
  string_key, ◌==◌, arith,
}
use agent_arena.Prelude.Dict.{Dict, get, keys, get-put}
use agent_arena.Prelude.Result.{raise, Exn}
use agent_arena.Agents.{Agent, Action, Llm}
use agent_arena.Agents.Runtime.{
  AgentRuntime, Results, register_agent, unregister_agent, start, stop, deliver, agent_decide,
  collect, process_tick,
}
use agent_arena.Agents.Heard.{Tick}

-- The calls that change a runtime.
pub data RuntimeCall (F : Type 0) : Type 0 where
  register : Agent F → RuntimeCall F
  unregister : String → RuntimeCall F
  started stopped : RuntimeCall F
  ticked : Tick F → RuntimeCall F

module _ {F : Type 0} (llm : Llm F) where
  abbrev pub call : AgentRuntime F → RuntimeCall F → AgentRuntime F
  call r (RuntimeCall.register a) = register_agent a r
  call r (RuntimeCall.unregister agent_id) = unregister_agent agent_id r
  call r RuntimeCall.started = start r
  call r RuntimeCall.stopped = stop r
  call r (RuntimeCall.ticked t) = (process_tick llm t.order t.clock t.observations r).1

  call-closed :
      (c : RuntimeCall F) (r : AgentRuntime F)
      → r.executor_open ≡ false
      → (call r c).executor_open ≡ false
  unfolding register_agent unregister_agent start stop process_tick
  call-closed (RuntimeCall.register a) r h = h
  call-closed (RuntimeCall.unregister agent_id) r h = ground arith
  call-closed RuntimeCall.started r h = h
  call-closed RuntimeCall.stopped r h = refl
  call-closed (RuntimeCall.ticked t) r h = h

  calls-closed :
      (cs : List (RuntimeCall F)) (r : AgentRuntime F)
      → r.executor_open ≡ false
      → (foldl call r cs).executor_open ≡ false
  calls-closed [] r h = h
  calls-closed (c ∷ cs) r h = calls-closed cs (call r c) (call-closed c r h)

  -- every task that has run has raised
  abbrev AllRaised : Results F → Type 0
  AllRaised results =
      (k : String) → (get results k ≡ none) ⊎ ((e : Exn) × (get results k ≡ some (raise e)))

  decide-AllRaised :
      (d : Dict String (Agent F)) (results : Results F) (k : String)
      → AllRaised results
      → AllRaised (agent_decide llm false (d, results) k).1
  unfolding agent_decide
  decide-AllRaised d results k h j = elim (Option-cases (get d k)) [
    | inl p ↦ rw p (h j)
    | inr (a, p) ↦ rw p (
        rw (get-put results k j _)
          (elim (Bool-cases (k == j)) [ inl q ↦ rw q (inr (_, refl)) | inr q ↦ rw q (h j) ]))
  ]

  all-AllRaised :
      (order : List String) (d : Dict String (Agent F)) (results : Results F)
      → AllRaised results
      → AllRaised (foldl (agent_decide llm false) (d, results) order).1
  all-AllRaised [] d results h = h
  all-AllRaised (k ∷ ks) d results h = all-AllRaised ks _ _ (decide-AllRaised d results k h)

  collect-AllRaised :
      (results : Results F) (ks : List String) (actions : Dict String (Action F))
      → AllRaised results
      → collect results ks actions ≡ actions
  unfolding collect
  collect-AllRaised results [] actions h = refl
  collect-AllRaised results (k ∷ ks) actions h = elim (h k) [
    | inl p ↦ rw p (collect-AllRaised results ks actions h)
    | inr (e, p) ↦ rw p (collect-AllRaised results ks actions h)
  ]

  -- Once a runtime is stopped, no tick gives an action any more, whatever is called in between, a
  -- `start` included, and in whatever order the tick's tasks run.
  pub stop-process_tick :
      (r : AgentRuntime F) (cs : List (RuntimeCall F)) (t : Tick F)
      → (process_tick llm t.order t.clock t.observations (foldl call (stop r) cs)).0 ≡ []
  unfolding process_tick stop get
  stop-process_tick r cs t =
      let closed = calls-closed cs (stop r) refl in
      rw closed (
        collect-AllRaised _ (keys (deliver t.clock t.observations (foldl call (stop r) cs).agents))
          []
          (all-AllRaised t.order (deliver t.clock t.observations (foldl call (stop r) cs).agents) []
            (λ k. inl refl)))
