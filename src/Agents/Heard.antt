-- ===== src/Agents/Heard.antt =====
-- What a tick tells an agent, and what the agent keeps of it.
use mathlib.Core.List.{append_assoc, append-nil}
use agent_arena.Prelude.{
  ℕ, String, true, false, ◌<◌, ◌≡◌, refl, ◌∙◌, List, [], ◌∷◌, ◌++◌, some, newest, ◌==◌, string_key,
  if◌then◌else◌, Bool-cases, Option-cases, inl, inr, arith,
}
use agent_arena.Prelude.Bounded.{append_slice-newest, newest-push}
use agent_arena.Prelude.Dict.{Dict, get, put, get-put}
use agent_arena.Prelude.Json.{Fields}
use agent_arena.Agents.{Agent, AgentObservation, perceive}
use agent_arena.Agents.Runtime.{deliver, perceived}

-- The arguments of one `process_tick`, with the order in which the executor runs its tasks.
pub record Tick (F : Type 0) : Type 0 where
  pub order : List String
  pub clock : String → String
  pub observations : Dict String (Fields F)

module _ {F : Type 0} where
  abbrev pub world_observation : String → Fields F → AgentObservation F
  world_observation now payload = record { timestamp = now; payload = payload; source = "world" }

  -- what a tick tells an agent
  unfoldable pub heard :
      (String → String) → Dict String (Fields F) → String → List (AgentObservation F)
  heard clock [] agent_id = []
  heard clock ((k, payload) ∷ os) agent_id =
      let rest = heard clock os agent_id in
      if k == agent_id then world_observation (clock k) payload ∷ rest else rest

  -- what a run of ticks tells an agent
  unfoldable pub told : List (Tick F) → String → List (AgentObservation F)
  unfolding heard
  told [] agent_id = []
  told (t ∷ ts) agent_id = heard t.clock t.observations agent_id ++ told ts agent_id

  -- `d` has the agent, with the newest `cap` items of the history.
  pub record Keeps (d : Dict String (Agent F)) (agent_id : String) (cap : ℕ)
      (history : List (AgentObservation F)) : Type 0 where
    pub agent : Agent F
    pub found : get d agent_id ≡ some agent
    pub capacity : agent.memory_capacity ≡ cap
    pub window : agent.state.observations ≡ newest cap history

  perceive-window :
      (now : String) (payload : Fields F) (a : Agent F)
      → 0 < a.memory_capacity
      → (perceive now payload "world" a).state.observations
        ≡ newest a.memory_capacity (a.state.observations ++ world_observation now payload ∷ [])
  unfolding perceive
  perceive-window now payload a h =
      append_slice-newest a.memory_capacity a.state.observations (world_observation now payload) h

  capacity-perceive :
      (now : String) (payload : Fields F) (a : Agent F)
      → (perceive now payload "world" a).memory_capacity ≡ a.memory_capacity
  unfolding perceive
  capacity-perceive now payload a = refl

  perceive-Keeps :
      (d : Dict String (Agent F)) (agent_id now : String) (payload : Fields F) {cap : ℕ}
      {history : List (AgentObservation F)}
      → 0 < cap
      → Keeps d agent_id cap history
      → Keeps
          (perceived now payload d agent_id (get d agent_id))
          agent_id
          cap
          (history ++ world_observation now payload ∷ [])
  perceive-Keeps d agent_id now payload {cap} {history} pos k = rw k.found (record {
    agent = perceive now payload "world" k.agent;
    found = ground (
      arith,
      get-put d agent_id agent_id (perceive now payload "world" k.agent),
      (string_key.beq_iff agent_id agent_id).1 refl,
    );
    capacity = capacity-perceive now payload k.agent ∙ k.capacity;
    window =
        perceive-window now payload k.agent (omega arith)
        ∙ rw (k.capacity, k.window) (newest-push cap history (world_observation now payload));
  })

  mine-Keeps :
      (d : Dict String (Agent F)) (agent_id k now : String) (payload : Fields F) {cap : ℕ}
      {history : List (AgentObservation F)}
      → (k == agent_id) ≡ true
      → 0 < cap
      → Keeps d agent_id cap history
      → Keeps
          (perceived now payload d k (get d k))
          agent_id
          cap
          (history ++ world_observation now payload ∷ [])
  mine-Keeps d agent_id k now payload p pos h =
      rw ((string_key.beq_iff k agent_id).0 p) (perceive-Keeps d agent_id now payload pos h)

  -- A write at another agent's entry leaves an agent as it is.
  pub put-Keeps :
      (d : Dict String (Agent F)) (agent_id k : String) (a : Agent F) {cap : ℕ}
      {history : List (AgentObservation F)}
      → (k == agent_id) ≡ false
      → Keeps d agent_id cap history
      → Keeps (put d k a) agent_id cap history
  put-Keeps d agent_id k a other h = record {
    agent = h.agent;
    found = ground (arith, get-put d k agent_id a, h.found);
    capacity = h.capacity;
    window = h.window;
  }

  other-Keeps :
      (d : Dict String (Agent F)) (agent_id k now : String) (payload : Fields F) {cap : ℕ}
      {history : List (AgentObservation F)}
      → (k == agent_id) ≡ false
      → Keeps d agent_id cap history
      → Keeps (perceived now payload d k (get d k)) agent_id cap history
  other-Keeps d agent_id k now payload other h = elim (Option-cases (get d k)) [
    | inl p ↦ rw p h
    | inr (a, p) ↦ rw p (put-Keeps d agent_id k (perceive now payload "world" a) other h)
  ]

  pub deliver-Keeps :
      (clock : String → String) (os : Dict String (Fields F)) (d : Dict String (Agent F))
      (agent_id : String) {cap : ℕ} {history : List (AgentObservation F)}
      → 0 < cap
      → Keeps d agent_id cap history
      → Keeps (deliver clock os d) agent_id cap (history ++ heard clock os agent_id)
  unfolding deliver heard
  deliver-Keeps clock [] d agent_id pos h = rw append-nil h
  deliver-Keeps clock ((k, payload) ∷ os) d agent_id {cap} {history} pos h =
      elim (Bool-cases (k == agent_id)) [
        | inl p ↦ rw p (
            rw append_assoc at (
              deliver-Keeps clock os _ agent_id pos
                (mine-Keeps d agent_id k (clock k) payload p pos h)))
        | inr p ↦
            rw p (
              deliver-Keeps clock os _ agent_id pos
                (other-Keeps d agent_id k (clock k) payload p h))
      ]
