-- ===== src/Server/Spoiled.antt =====
-- A tick with debugging on, in which one agent sends an object that the tracker cannot read.
use agent_arena.Prelude.{
  ℕ, ◌≡◌, refl, ◌∙◌, String, false, List, [], ◌∷◌, some, ◌==◌, string_key, arith, inl, inr,
}
use agent_arena.Prelude.Floats.{Floats}
use agent_arena.Prelude.Int.{pos}
use agent_arena.Prelude.Json.{
  Json, Items, Fields, null, int, str, obj, item, done, field, get_field, as_int, as_str,
}
use agent_arena.Prelude.Result.{raise, Exn, Result-cases}
use agent_arena.Prelude.Sort.{All}
use agent_arena.Schemas.{or_default}
use agent_arena.Schemas.Observation.{Observation, HasDict}
use agent_arena.Server.{Outside, Server, http_error, str_of, set_default, track}
use agent_arena.Server.Handlers.{completed, process_agent, process_agents, process_tick}
use agent_arena.Server.Served.{
  agent_entry, tick_request, ask_all, after, after_all, after_all-parts, process_agent-sent,
}
use agent_arena.Server.Tracker.{ObservationTracker, track_observation}
use agent_arena.Server.Tracker.Visible.{noted}

module _ {F : Type 0} where
  -- the entry of an agent with any object for its observations
  abbrev pub entry : String → Fields F → Json F
  entry agent_id d = obj (field "agent_id" (str agent_id) (field "observations" (obj d) done))

  -- the agents of a tick: those that sent `os`, then one with the observations `d`, then others
  abbrev pub spoiled : List (Observation F) → String → Fields F → Items F → Items F
  spoiled [] agent_id d rest = item (entry agent_id d) rest
  spoiled (o ∷ os) agent_id d rest = item (agent_entry o) (spoiled os agent_id d rest)

  pub get_field-set_default :
      (k j : String) (v : Json F) (d : Fields F)
      → (k == j) ≡ false
      → get_field (set_default k v d) j ≡ get_field d j
  unfolding set_default get_field
  get_field-set_default k j v done h = rw h refl
  get_field-set_default k j v (field i w d) h =
      ground
        (arith, string_key.beq_iff i k, string_key.beq_iff i j, get_field-set_default k j v d h)

  track_observation-raises :
      (show : Json F → String) (now : String) (d : Fields F) (t : ObservationTracker F)
      → get_field d "nearby_resources" ≡ some null
      → (e : Exn) × (track_observation show now d t ≡ raise e)
  unfolding track_observation
  track_observation-raises show now d t h =
      elim (Result-cases (or_default as_str "unknown" (get_field d "agent_id"))) [
        | inr (e, p) ↦ (e, rw p refl)
        | inl (agent_id, p) ↦ elim (Result-cases (or_default as_int (pos 0) (get_field d "tick"))) [
          | inr (e, q) ↦ (e, rw (p, q) refl)
          | inl (tick, q) ↦ (Exn.other_error "not an array", rw (p, q, h) refl)
        ]
      ]

module _ {A F : Type 0} (out : Outside A F) ⦃fl : Floats F⦄ where
  process_agent-raises :
      (tick : Json F) (agent_id : String) (d : Fields F) (s : Server A F) (t : ObservationTracker F)
      → get_field d "nearby_resources" ≡ some null
      → s.observation_tracker ≡ some t
      → (e : Exn) × (process_agent out tick (entry agent_id d) s ≡ (raise e, s))
  unfolding process_agent get_field track
  process_agent-raises tick agent_id d s t h on =
      let inner = get_field-set_default "agent_id" "nearby_resources" (str agent_id) d refl in
      let outer =
        get_field-set_default "tick" "nearby_resources" tick
          (set_default "agent_id" (str agent_id) d) refl in
      let (e, raised) =
        track_observation-raises out.show out.now (completed tick (str agent_id) d) t
          (outer ∙ inner ∙ h) in
      (e, rw (on, raised) refl)

  process_agents-raises :
      (t : ℕ) (os : List (Observation F)) (agent_id : String) (d : Fields F) (rest : Items F)
      (s : Server A F) (tracker : ObservationTracker F)
      → All (λ o. HasDict o.objective) os
      → get_field d "nearby_resources" ≡ some null
      → s.observation_tracker ≡ some tracker
      → (e : Exn) × (process_agents out (int (pos t)) (spoiled os agent_id d rest) s
          ≡ (raise e, after_all out os s))
  unfolding process_agents
  process_agents-raises t [] agent_id d rest s tracker h bad on =
      let (e, p) = process_agent-raises (int (pos t)) agent_id d s tracker bad on in (e, rw p refl)
  process_agents-raises t (o ∷ os) agent_id d rest s tracker h bad on =
      let (e, p) =
        process_agents-raises t os agent_id d rest (after out o s) (noted out.now o tracker).1 h.1
          bad (rw on refl) in
      (e, rw (process_agent-sent out t o s h.0, p) refl)

  -- With debugging on, a tick in which one agent's "nearby_resources" is null is answered with the
  -- status 500 and without any action, although the agents before it in the request have been asked
  -- for their decisions; the metrics do not count the tick.
  pub process_tick-spoiled :
      (t : ℕ) (os : List (Observation F)) (agent_id : String) (d : Fields F) (rest : Items F)
      (s : Server A F) (tracker : ObservationTracker F)
      → All (λ o. HasDict o.objective) os
      → get_field d "nearby_resources" ≡ some null
      → s.observation_tracker ≡ some tracker
      → (e : Exn) × ((process_tick out (tick_request t (spoiled os agent_id d rest)) s).0
          ≡ http_error 500 (str_of e))
        × ((process_tick out (tick_request t (spoiled os agent_id d rest)) s).1.agent
            ≡ (ask_all out s.agent os).1)
        × ((process_tick out (tick_request t (spoiled os agent_id d rest)) s).1.total_ticks
            ≡ s.total_ticks)
  unfolding process_tick get_field
  process_tick-spoiled t os agent_id d rest s tracker h bad on =
      let (e, p) = process_agents-raises t os agent_id d rest s tracker h bad on in
      let (agent, ticks, _, _) = after_all-parts out os s in (e, rw p refl, rw p agent, rw p ticks)
