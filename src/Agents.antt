-- ===== src/Agents.antt =====
-- python/agent_runtime/agent.py: the `Agent`. `query` stands for `_query_llm`, which a backend
-- overrides, `loads` for `json.loads`, with `none` for a `JSONDecodeError`, and `show` for `str`.
pub mod Runtime
pub mod Heard
pub mod Newest
pub mod Schedule
pub mod Stopped
use agent_arena.Prelude.{
  ℕ, String, Bool, true, false, List, [], ◌∷◌, ◌++◌, ◌++ₛ◌, map, Option, none, some, last_slice,
  if◌then◌else◌,
}
use agent_arena.Prelude.Bounded.{append_slice}
use agent_arena.Prelude.Json.{Json, Fields, null, str, obj, done, get_field, as_obj}
use agent_arena.Prelude.Result.{Result, ok, raise, ◌>>=◌}
use agent_arena.Prelude.Text.{join}

pub record AgentObservation (F : Type 0) : Type 0 where
  pub timestamp : String
  pub payload : Fields F
  pub source : String

pub record Action (F : Type 0) : Type 0 where
  pub tool_name : Json F
  pub parameters : Json F
  pub reasoning : Json F

pub record AgentState (F : Type 0) : Type 0 where
  pub agent_id : String
  pub goals : List String
  pub observations : List (AgentObservation F)
  pub action_history : List (Action F)

-- `has_backend` is the truth of `self.backend`
pub record Agent (F : Type 0) : Type 0 where
  pub state : AgentState F
  pub has_backend : Bool
  pub available_tools : List String
  pub memory_capacity : ℕ

-- the placeholder `_query_llm`
unfoldable pub query_llm : String → Result String
query_llm context = ok "{\"tool\": \"idle\", \"params\": {}}"

abbrev when_any {ℓ} : {A : Type ℓ} → List A → List String → List String
when_any [] lines = []
when_any (x ∷ xs) lines = lines

module _ {F : Type 0} where
  -- `Agent(agent_id, backend, tools, goals)`
  unfoldable pub new_agent : String → Bool → List String → List String → Agent F
  new_agent agent_id backend tools goals = record {
    state = record { agent_id = agent_id; goals = goals; observations = []; action_history = [] };
    has_backend = backend;
    available_tools = tools;
    memory_capacity = 10;
  }

  unfoldable pub perceive : String → Fields F → String → Agent F → Agent F
  perceive now observation source a = record a {
    state = record a.state {
      observations =
          append_slice a.memory_capacity a.state.observations
            (record { timestamp = now; payload = observation; source = source });
    };
  }

  -- the value, or what stands for it when the key is missing
  abbrev or_else : Json F → Option (Json F) → Json F
  or_else d none = d
  or_else d (some j) = j

  abbrev as_action : Fields F → Action F
  as_action d = record {
    tool_name = or_else (str "idle") (get_field d "tool");
    parameters = or_else (obj done) (get_field d "params");
    reasoning = or_else null (get_field d "reasoning");
  }

  abbrev parsed : Option (Json F) → Result (Option (Action F))
  parsed none = ok none
  parsed (some j) = as_obj j >>= λ d. ok (some (as_action d))

  -- `_parse_action`: an attribute error of a response that is no object is not caught here
  unfoldable pub parse_action : (String → Option (Json F)) → String → Result (Option (Action F))
  parse_action loads response = parsed (loads response)

  -- `_build_context`
  unfoldable pub build_context : (Json F → String) → Agent F → String
  build_context show a = join "\n" (
      ("You are agent " ++ₛ a.state.agent_id ++ₛ ".")
        ∷ when_any a.state.goals (("Your goals: " ++ₛ join ", " a.state.goals) ∷ [])
      ++ when_any a.state.observations (
          "\nRecent observations:"
          ∷ map (λ o. "- [" ++ₛ o.source ++ₛ "] " ++ₛ show (obj o.payload))
              (last_slice 5 a.state.observations))
      ++ when_any a.available_tools (("\nAvailable tools: " ++ₛ join ", " a.available_tools) ∷ [])
      ++ when_any a.state.action_history (
          "\nRecent actions:"
          ∷ map (λ x. "- " ++ₛ show x.tool_name ++ₛ ": " ++ₛ show x.parameters)
              (last_slice 3 a.state.action_history))
      ++ "\nWhat action should you take next?" ∷ [])

  unfoldable pub add_goal : String → Agent F → Agent F
  add_goal goal a = record a { state = record a.state { goals = a.state.goals ++ goal ∷ [] } }

  unfoldable pub clear_goals : Agent F → Agent F
  clear_goals a = record a { state = record a.state { goals = [] } }

-- What an agent is run with.
pub record Llm (F : Type 0) : Type 0 where
  pub query : String → Result String
  pub loads : String → Option (Json F)
  pub show : Json F → String

module _ {F : Type 0} (llm : Llm F) where
  abbrev pub decided : Agent F → Result (Option (Action F)) → Option (Action F) × Agent F
  decided a (ok (some action)) = (
    some action,
    record a { state = record a.state { action_history = a.state.action_history ++ action ∷ [] } },
  )
  decided a (ok none) = (none, a)
  decided a (raise e) = (none, a)

  unfoldable pub decide_action : Agent F → Option (Action F) × Agent F
  unfolding parse_action build_context
  decide_action a =
      if a.has_backend
      then decided a (llm.query (build_context llm.show a) >>= parse_action llm.loads)
      else (none, a)
