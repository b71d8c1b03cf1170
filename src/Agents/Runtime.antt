-- ===== src/Agents/Runtime.antt =====
-- python/agent_runtime/runtime.py: the `AgentRuntime`. A tick's tasks run in the executor, in an
-- order that is an argument; `clock` gives the time at which an agent perceives.
use mathlib.Core.List.{foldl}
use agent_arena.Prelude.{
  String, Bool, true, false, List, [], ◌∷◌, Option, none, some, string_key, if◌then◌else◌,
}
use agent_arena.Prelude.Dict.{Dict, get, put, del, has, keys, values}
use agent_arena.Prelude.Json.{Fields}
use agent_arena.Prelude.Result.{Result, ok, raise, Exn}
use agent_arena.Agents.{Agent, Action, Llm, perceive, decide_action}

pub record AgentRuntime (F : Type 0) : Type 0 where
  pub agents : Dict String (Agent F)
  pub running : Bool
  -- whether the executor takes tasks: `shutdown` ends that
  pub executor_open : Bool

module _ {F : Type 0} where
  unfoldable pub init : AgentRuntime F
  init = record { agents = []; running = false; executor_open = true }

  unfoldable pub register_agent : Agent F → AgentRuntime F → AgentRuntime F
  register_agent a r = record r { agents = put r.agents a.state.agent_id a }

  unfoldable pub unregister_agent : String → AgentRuntime F → AgentRuntime F
  unregister_agent agent_id r =
      if has r.agents agent_id then record r { agents = del r.agents agent_id } else r

  unfoldable pub start : AgentRuntime F → AgentRuntime F
  start r = record r { running = true }

  unfoldable pub stop : AgentRuntime F → AgentRuntime F
  stop r = record r { running = false; executor_open = false }

  unfoldable pub get_agent : AgentRuntime F → String → Option (Agent F)
  get_agent r agent_id = get r.agents agent_id

  unfoldable pub get_all_agents : AgentRuntime F → List (Agent F)
  get_all_agents r = values r.agents

  abbrev pub perceived :
      String → Fields F → Dict String (Agent F) → String → Option (Agent F) → Dict String (Agent F)
  perceived now payload d agent_id none = d
  perceived now payload d agent_id (some a) = put d agent_id (perceive now payload "world" a)

  -- the loop over `observations.items()`
  unfoldable pub deliver :
      (String → String) → Dict String (Fields F) → Dict String (Agent F) → Dict String (Agent F)
  deliver clock [] d = d
  deliver clock ((agent_id, payload) ∷ os) d =
      deliver clock os (perceived (clock agent_id) payload d agent_id (get d agent_id))

-- the results of the tasks that have run, by agent
abbrev pub Results : Type 0 → Type 0
Results F = Dict String (Result (Option (Action F)))

module _ {F : Type 0} (llm : Llm F) where
  abbrev pub run_found :
      Bool
      → String
      → Dict String (Agent F) × Results F
      → Option (Agent F)
      → Dict String (Agent F) × Results F
  run_found accepts agent_id (d, results) none = (d, results)
  run_found true agent_id (d, results) (some a) =
      (put d agent_id (decide_action llm a).1, put results agent_id (ok (decide_action llm a).0))
  run_found false agent_id (d, results) (some a) = (
    d,
    put results agent_id (raise (Exn.other_error "cannot schedule new futures after shutdown")),
  )

  -- `_agent_decide`
  unfoldable pub agent_decide :
      Bool → Dict String (Agent F) × Results F → String → Dict String (Agent F) × Results F
  agent_decide accepts s agent_id = run_found accepts agent_id s (get s.0 agent_id)

module _ {F : Type 0} where
  abbrev pub collected :
      Dict String (Action F) → String → Option (Result (Option (Action F))) → Dict String (Action F)
  collected actions agent_id (some (ok (some action))) = put actions agent_id action
  collected actions agent_id _ = actions

  -- the loop that awaits the tasks
  unfoldable pub collect : Results F → List String → Dict String (Action F) → Dict String (Action F)
  collect results [] actions = actions
  collect results (k ∷ ks) actions = collect results ks (collected actions k (get results k))

module _ {F : Type 0} (llm : Llm F) where
  unfoldable pub process_tick :
      List String
      → (String → String)
      → Dict String (Fields F)
      → AgentRuntime F
      → Dict String (Action F) × AgentRuntime F
  unfolding deliver agent_decide collect
  process_tick order clock observations r =
      let delivered = deliver clock observations r.agents in
      let (agents', results) = foldl (agent_decide llm r.executor_open) (delivered, []) order in
      (collect results (keys delivered) [], record r { agents = agents' })
