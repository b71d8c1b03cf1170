-- ===== src/Server/Isolated.antt =====
-- A tick without debugging, in which some agents send an observation and others another object.
use agent_arena.Prelude.{
  ℕ, ◌+◌, ◌≡◌, refl, ◌∙◌, String, List, [], ◌∷◌, none, length, arith, ◌==◌, string_key, Bool-cases,
  inl, inr,
}
use agent_arena.Prelude.Floats.{Floats}
use agent_arena.Prelude.Int.{pos}
use agent_arena.Prelude.Json.{Json, Items, Fields, int, str, obj, done, field, get_field, at_field}
use agent_arena.Prelude.Result.{ok, raise, Exn}
use agent_arena.Prelude.Sort.{All}
use agent_arena.Schemas.{to_items}
use agent_arena.Schemas.Decision.{Decision}
use agent_arena.Schemas.Observation.{Observation, HasDict, observation_from_dict}
use agent_arena.Server.{Outside, Server, fallback, set_default, track}
use agent_arena.Server.Handlers.{
  action, completed, count_items, process_agent, process_agents, process_tick,
}
use agent_arena.Server.Served.{
  actions_of, after, agent_entry, process_agent-sent, read-actions, read_reply, tick_request,
}
use agent_arena.Server.Spoiled.{entry, get_field-set_default}

-- What an agent sends: an observation, or an object under its identifier.
pub data Sent (F : Type 0) : Type 0 where
  observes : Observation F → Sent F
  sends : String → Fields F → Sent F

module _ {F : Type 0} where
  abbrev pub sent_entry : Sent F → Json F
  sent_entry (observes o) = agent_entry o
  sent_entry (sends agent_id d) = entry agent_id d

  abbrev pub sent_entries : List (Sent F) → Items F
  sent_entries = to_items sent_entry

  -- An observation's objective has metrics under distinct names, and an object has no position.
  abbrev pub IsSent : Sent F → Type 0
  IsSent (observes o) = HasDict o.objective
  IsSent (sends agent_id d) = get_field d "position" ≡ none

  -- the decision for an object without a position: `KeyError('position')` was raised
  abbrev pub unread : Decision F
  unread = fallback (raise (Exn.key_error "position"))

  at_field-missing :
      (d : Fields F) (k : String) → get_field d k ≡ none → at_field d k ≡ raise (Exn.key_error k)
  unfolding at_field get_field
  at_field-missing done k h = refl
  at_field-missing (field j v d) k h = elim (Bool-cases (j == k)) [
    | inl p ↦ absurd (cc (rw p at h))
    | inr p ↦ rw p (at_field-missing d k (rw p at h))
  ]

  count-sent : (ss : List (Sent F)) → count_items (sent_entries ss) ≡ length ss
  count-sent [] = refl
  count-sent (s ∷ ss) = omega (arith, count-sent ss)

module _ {A F : Type 0} (out : Outside A F) where
  -- Each observation in its turn is put to the agent, which is not asked about the other objects.
  unfoldable pub ask_sent : A → List (Sent F) → List (String × Decision F) × A
  ask_sent a [] = ([], a)
  ask_sent a (observes o ∷ ss) =
      let (r, a1) = out.decide_callback a o in
      let (ds, a2) = ask_sent a1 ss in ((o.agent_id, fallback r) ∷ ds, a2)
  ask_sent a (sends agent_id d ∷ ss) = let (ds, a1) = ask_sent a ss in ((agent_id, unread) ∷ ds, a1)

module _ {A F : Type 0} (out : Outside A F) ⦃fl : Floats F⦄ where
  observation_from_dict-unread :
      (d : Fields F)
      → get_field d "position" ≡ none
      → observation_from_dict (obj d) ≡ raise (Exn.key_error "position")
  unfolding observation_from_dict
  observation_from_dict-unread d h = rw (at_field-missing d "position" h) refl

  process_agent-unread :
      (t : ℕ) (agent_id : String) (d : Fields F) (s : Server A F)
      → get_field d "position" ≡ none
      → s.observation_tracker ≡ none
      → process_agent out (int (pos t)) (entry agent_id d) s
        ≡ (ok (action (str agent_id) unread), s)
  unfolding process_agent get_field track
  process_agent-unread t agent_id d s h off =
      let inner = get_field-set_default "agent_id" "position" (str agent_id) d refl in
      let outer =
        get_field-set_default "tick" "position" (int (pos t))
          (set_default "agent_id" (str agent_id) d) refl in
      rw
        (
          off,
          observation_from_dict-unread (completed (int (pos t)) (str agent_id) d)
              (outer ∙ inner ∙ h),
        )
        refl

  -- What the server became after a list of what was sent.
  abbrev after_sent : List (Sent F) → Server A F → Server A F
  after_sent [] s = s
  after_sent (observes o ∷ ss) s = after_sent ss (after out o s)
  after_sent (sends agent_id d ∷ ss) s = after_sent ss s

  process_agents-isolated :
      (t : ℕ) (ss : List (Sent F)) (s : Server A F)
      → All IsSent ss
      → s.observation_tracker ≡ none
      → process_agents out (int (pos t)) (sent_entries ss) s
        ≡ (ok (actions_of (ask_sent out s.agent ss).0), after_sent ss s)
  unfolding process_agents ask_sent
  process_agents-isolated t [] s h off = refl
  process_agents-isolated t (observes o ∷ ss) s h off =
      rw
        (
          process_agent-sent out t o s h.0,
          process_agents-isolated t ss (after out o s) h.1 (rw off refl),
        )
        refl
  process_agents-isolated t (sends agent_id d ∷ ss) s h off =
      rw (process_agent-unread t agent_id d s h.0 off, process_agents-isolated t ss s h.1 off) refl

  after_sent-parts :
      (ss : List (Sent F)) (s : Server A F)
      → ((after_sent ss s).agent ≡ (ask_sent out s.agent ss).1)
        × ((after_sent ss s).total_observations ≡ s.total_observations)
  unfolding ask_sent
  after_sent-parts [] s = (refl, refl)
  after_sent-parts (observes o ∷ ss) s = after_sent-parts ss (after out o s)
  after_sent-parts (sends agent_id d ∷ ss) s = after_sent-parts ss s

  -- Without debugging, a tick is answered for all its agents when some send an observation, with
  -- the metrics of its objective under distinct names, and the others an object without a
  -- "position", in any order. What the game reads from the answer is, in the order of the request,
  -- each agent's identifier with a decision: on an observation the agent's own one, or an idle one
  -- that tells the exception if it raised, and on another object an idle one that tells of the
  -- missing position. The agent is left in the state after its calls on the observations only, and
  -- the metrics count all that was sent.
  pub process_tick-isolated :
      (t : ℕ) (ss : List (Sent F)) (s : Server A F)
      → All IsSent ss
      → s.observation_tracker ≡ none
      → (read_reply (process_tick out (tick_request t (sent_entries ss)) s).0
          ≡ ok (ask_sent out s.agent ss).0)
        × ((process_tick out (tick_request t (sent_entries ss)) s).1.agent
            ≡ (ask_sent out s.agent ss).1)
        × ((process_tick out (tick_request t (sent_entries ss)) s).1.total_observations
            ≡ s.total_observations + length ss)
  unfolding process_tick get_field at_field
  process_tick-isolated t ss s h off =
      let (agent, observations) = after_sent-parts ss s in
      let n = count-sent ss in
      rw (process_agents-isolated t ss s h off)
        (read-actions (ask_sent out s.agent ss).0, agent, rw (observations, n) refl)
