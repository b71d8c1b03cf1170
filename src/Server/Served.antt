-- ===== src/Server/Served.antt =====
-- From the game through the server and back: what the agent is asked, and what the game reads.
use agent_arena.Prelude.{
  ℕ, ◌+◌, ◌≡◌, refl, ap, String, List, [], ◌∷◌, Option, none, some, length, arith, inl, inr,
  Option-cases,
}
use agent_arena.Prelude.Floats.{Floats}
use agent_arena.Prelude.Int.{pos}
use agent_arena.Prelude.Json.{
  Json, Items, Fields, int, str, arr, obj, done, field, get_field, at_field, as_str, as_obj, as_arr,
}
use agent_arena.Prelude.Result.{Result, ok, raise, Exn, ◌>>=◌, Result-cases}
use agent_arena.Prelude.Sort.{All}
use agent_arena.Schemas.{to_items, read_all, read_all-to_items}
use agent_arena.Schemas.Decision.{Decision, decision_from_dict, decision_from_dict-decision_to_dict}
use agent_arena.Schemas.Observation.{
  Observation, HasDict, observation_to_dict, observation_from_dict-observation_to_dict,
}
use agent_arena.Server.{
  Outside, Server, Response, replies, http_error, str_of, set_default, fallback, track,
}
use agent_arena.Server.Handlers.{
  action, completed, observe_reply, process_observation, process_agent, process_agents,
  process_tick, count_items,
}
use agent_arena.Server.Traces.{record_decision_trace}
use agent_arena.Server.Tracker.{ObservationTracker}
use agent_arena.Server.Tracker.Visible.{fields_of, noted, track_observation-ok}

module _ {F : Type 0} where
  -- the entry of an agent in the request of a tick
  abbrev pub agent_entry : Observation F → Json F
  agent_entry o =
      obj (field "agent_id" (str o.agent_id) (field "observations" (observation_to_dict o) done))

  abbrev pub tick_request : ℕ → Items F → Fields F
  tick_request t agents = field "tick" (int (pos t)) (field "agents" (arr agents) done)

  -- how the game reads an action, and the answer to a tick
  abbrev pub read_action : Json F → Result (String × Decision F)
  read_action j = do
    d ← as_obj j
    agent_id ← at_field d "agent_id" >>= as_str
    decision ← at_field d "action" >>= decision_from_dict
    ok (agent_id, decision)

  abbrev pub read_reply : Response F → Result (List (String × Decision F))
  read_reply (http_error status detail) = raise (Exn.other_error detail)
  read_reply (replies j) = do
    d ← as_obj j
    actions ← at_field d "actions" >>= as_arr
    read_all read_action actions

  abbrev pub actions_of : List (String × Decision F) → Items F
  actions_of = to_items (λ (d : String × Decision F). action (str d.0) d.1)

  read_action-action :
      (agent_id : String) (d : Decision F)
      → read_action (action (str agent_id) d) ≡ ok (agent_id, d)
  unfolding at_field
  read_action-action agent_id d = rw (decision_from_dict-decision_to_dict d) refl

  count-actions :
      (os : List (Observation F)) → count_items (to_items {F = F} agent_entry os) ≡ length os
  count-actions [] = refl
  count-actions (o ∷ os) = omega (arith, count-actions os)

  pub read-actions :
      (ds : List (String × Decision F)) → read_all read_action (actions_of ds) ≡ ok ds
  read-actions ds =
      read_all-to_items read_action (λ (d : String × Decision F). action (str d.0) d.1)
        (λ d. read_action-action d.0 d.1) ds

  abbrev pub observe_answer : String → Result (Decision F) → Response F
  observe_answer agent_id (ok d) = replies (observe_reply agent_id d)
  observe_answer agent_id (raise e) = http_error 500 (str_of e)

  -- how many observations a call of the agent counts for
  abbrev pub counted : Result (Decision F) → ℕ
  counted (ok d) = 1
  counted (raise e) = 0

  completed-sent :
      (t : ℕ) (o : Observation F)
      → completed (int (pos t)) (str o.agent_id) (fields_of (observation_to_dict o))
        ≡ fields_of (observation_to_dict o)
  unfolding set_default observation_to_dict
  completed-sent t o = refl

module _ {A F : Type 0} (out : Outside A F) where
  -- Each observation in its turn is put to the agent, in the state that the one before left.
  unfoldable pub ask_all : A → List (Observation F) → List (String × Decision F) × A
  ask_all a [] = ([], a)
  ask_all a (o ∷ os) =
      let (r, a1) = out.decide_callback a o in
      let (ds, a2) = ask_all a1 os in ((o.agent_id, fallback r) ∷ ds, a2)

  abbrev next_tracker :
      Observation F → Option (ObservationTracker F) → Option (ObservationTracker F)
  next_tracker o none = none
  next_tracker o (some t) = some (noted out.now o t).1

  abbrev seen : Observation F → Server A F → Server A F
  seen o s = record s { observation_tracker = next_tracker o s.observation_tracker }

  -- Tracking an observation of the game never raises, with and without a tracker.
  track-sent :
      (o : Observation F) (s : Server A F)
      → track out (fields_of (observation_to_dict o)) s ≡ (ok tt, seen o s)
  unfolding track
  track-sent o s = elim (Option-cases s.observation_tracker) [
    | inl e ↦ rw e refl
    | inr (t, e) ↦ rw (e, track_observation-ok out.show out.now o t) refl
  ]

module _ {A F : Type 0} (out : Outside A F) ⦃fl : Floats F⦄ where
  abbrev pub after : Observation F → Server A F → Server A F
  after o s = record (seen out o s) { agent = (out.decide_callback s.agent o).1 }

  pub process_agent-sent :
      (t : ℕ) (o : Observation F) (s : Server A F)
      → HasDict o.objective
      → process_agent out (int (pos t)) (agent_entry o) s
        ≡ (ok (action (str o.agent_id) (fallback (out.decide_callback s.agent o).0)), after o s)
  unfolding process_agent get_field observation_to_dict
  process_agent-sent t o s h =
      rw (completed-sent t o, track-sent out o s, observation_from_dict-observation_to_dict o h)
        refl

  -- What the server became after a list of observations.
  abbrev pub after_all : List (Observation F) → Server A F → Server A F
  after_all [] s = s
  after_all (o ∷ os) s = after_all os (after o s)

  pub process_agents-sent :
      (t : ℕ) (os : List (Observation F)) (s : Server A F)
      → All (λ o. HasDict o.objective) os
      → process_agents out (int (pos t)) (to_items agent_entry os) s
        ≡ (ok (actions_of (ask_all out s.agent os).0), after_all os s)
  unfolding process_agents ask_all
  process_agents-sent t [] s h = refl
  process_agents-sent t (o ∷ os) s h =
      rw (process_agent-sent t o s h.0, process_agents-sent t os (after o s) h.1) refl

  -- The loop changes the agent and the tracker, and nothing else.
  pub after_all-parts :
      (os : List (Observation F)) (s : Server A F)
      → ((after_all os s).agent ≡ (ask_all out s.agent os).1)
        × ((after_all os s).total_ticks ≡ s.total_ticks)
        × ((after_all os s).total_observations ≡ s.total_observations)
        × ((after_all os s).debug_store ≡ s.debug_store)
  unfolding ask_all
  after_all-parts [] s = (refl, refl, refl, refl)
  after_all-parts (o ∷ os) s = after_all-parts os (after o s)

  -- A tick with the observations of any agents, their objectives' metrics under distinct names, is
  -- answered whether or not debugging is on. What the game reads from the answer is, in the order
  -- of the request, each agent's identifier with what the agent decided on exactly its observation,
  -- or with an idle decision that tells the exception if it raised; the agent is left in the state
  -- after these calls, and the metrics count one tick and its observations.
  pub process_tick-decisions :
      (t : ℕ) (os : List (Observation F)) (s : Server A F)
      → All (λ o. HasDict o.objective) os
      → (read_reply (process_tick out (tick_request t (to_items agent_entry os)) s).0
          ≡ ok (ask_all out s.agent os).0)
        × ((process_tick out (tick_request t (to_items agent_entry os)) s).1.agent
            ≡ (ask_all out s.agent os).1)
        × ((process_tick out (tick_request t (to_items agent_entry os)) s).1.total_ticks
            ≡ s.total_ticks + 1)
        × ((process_tick out (tick_request t (to_items agent_entry os)) s).1.total_observations
            ≡ s.total_observations + length os)
  unfolding process_tick get_field at_field
  process_tick-decisions t os s h =
      let (agent, ticks, observations, _) = after_all-parts os s in
      let n = count-actions os in
      rw (process_agents-sent t os s h) (
        read-actions (ask_all out s.agent os).0,
        agent,
        ap (λ (k : ℕ). k + 1) ticks,
        rw (observations, n) refl,
      )

  -- An observation, its objective's metrics under distinct names, that is sent by itself is answered
  -- with the agent's decision on exactly it, or with the status 500 and the exception if the agent
  -- raised, whether or not debugging is on. The agent is left in its state after the call, and the
  -- metrics count the observation only if there was a decision.
  pub process_observation-decision :
      (o : Observation F) (s : Server A F)
      → HasDict o.objective
      → ((process_observation out (fields_of (observation_to_dict o)) s).0
          ≡ observe_answer o.agent_id (out.decide_callback s.agent o).0)
        × ((process_observation out (fields_of (observation_to_dict o)) s).1.agent
            ≡ (out.decide_callback s.agent o).1)
        × ((process_observation out (fields_of (observation_to_dict o)) s).1.total_ticks
            ≡ s.total_ticks + counted (out.decide_callback s.agent o).0)
        × ((process_observation out (fields_of (observation_to_dict o)) s).1.total_observations
            ≡ s.total_observations + counted (out.decide_callback s.agent o).0)
  unfolding process_observation get_field observation_to_dict record_decision_trace
  process_observation-decision o s h =
      rw (track-sent out o s, observation_from_dict-observation_to_dict o h)
        (elim (Result-cases (out.decide_callback s.agent o).0) [
          | inl (d, e) ↦ rw e (refl, refl, refl, refl)
          | inr (e, p) ↦ rw p (refl, refl, omega arith, omega arith)
        ])
