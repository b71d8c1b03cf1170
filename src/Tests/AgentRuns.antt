-- ===== src/Tests/AgentRuns.antt =====
-- The agents and their runtime.
use mathlib.Core.List.{foldl, filter_map}
use agent_arena.Prelude.{
  true, false, ◌≡◌, refl, [], ◌∷◌, ◌++◌, map, none, some, newest, inl, inr, Bool-cases, ◌==◌,
  string_key, if◌then◌else◌, arith,
}
use agent_arena.Prelude.Dict.{get, put}
use agent_arena.Prelude.DictKeys.{contains}
use agent_arena.Prelude.Int.{ℤ, pos}
use agent_arena.Prelude.Json.{Json, Fields, str, int, obj, done, field, get_field}
use agent_arena.Prelude.Text.{join}
use agent_arena.Agents.{
  Agent, Llm, new_agent, query_llm, decide_action, parse_action, build_context, perceive,
}
use agent_arena.Agents.Heard.{Tick, told}
use agent_arena.Agents.Newest.{run_tick, ticks-newest}
use agent_arena.Agents.Runtime.{
  AgentRuntime, init, register_agent, get_agent, process_tick, deliver, stop, agent_decide, collect,
}
use agent_arena.Agents.Schedule.{IsSchedule, action_entry, process_tick-any_order}
use agent_arena.Agents.Stopped.{RuntimeCall, call, stop-process_tick}

abbrev idle : Json ℤ
idle = obj (field "tool" (str "idle") (field "params" (obj done) done))

abbrev llm : Llm ℤ
llm = record {
  query = query_llm;
  loads = λ s. if s == "{\"tool\": \"idle\", \"params\": {}}" then some idle else none;
  show = λ j. "...";
}

abbrev sees : ℤ → Fields ℤ
sees n = field "apples" (int n) done

abbrev two_agents : AgentRuntime ℤ
unfolding register_agent init new_agent put
two_agents =
    register_agent (new_agent "b" false [] []) (register_agent (new_agent "a" true [] []) init)

abbrev tick_1 : Tick ℤ
tick_1 = record {
  order = "b" ∷ "a" ∷ [];
  clock = λ k. "12:00";
  observations = ("a", sees (pos 1)) ∷ ("c", sees (pos 5)) ∷ [];
}

abbrev tick_2 : Tick ℤ
tick_2 = record {
  order = "a" ∷ "b" ∷ [];
  clock = λ k. "12:01";
  observations = ("a", sees (pos 2)) ∷ [];
}

ticks-newest_example :
    (b : Agent ℤ) × (get_agent (foldl (run_tick llm) two_agents (tick_1 ∷ tick_2 ∷ [])) "a"
      ≡ some b)
    × (b.state.observations ≡ newest 10 ([] ++ told (tick_1 ∷ tick_2 ∷ []) "a"))
unfolding register_agent init new_agent put get get_agent
ticks-newest_example =
    ticks-newest llm (tick_1 ∷ tick_2 ∷ []) two_agents "a" (new_agent "a" true [] []) refl
      (omega arith) (omega arith)

each_once : IsSchedule ("b" ∷ "a" ∷ []) two_agents.agents
unfolding register_agent init new_agent put get contains
each_once = record {
  once = (refl, (refl, tt));
  all = λ k. elim (Bool-cases ("b" == k)) [
    | inl p ↦ ground (arith, string_key.beq_iff "b" k, p)
    | inr p ↦ ground (arith, p)
  ];
}

process_tick-any_order_example :
    ((process_tick llm ("b" ∷ "a" ∷ []) tick_1.clock tick_1.observations two_agents).0
      ≡ filter_map (action_entry llm) (deliver tick_1.clock tick_1.observations two_agents.agents))
    × ((process_tick llm ("b" ∷ "a" ∷ []) tick_1.clock tick_1.observations two_agents).1.agents
        ≡ map
            (λ e. (e.0, (decide_action llm e.1).1))
            (deliver tick_1.clock tick_1.observations two_agents.agents))
unfolding register_agent init new_agent put get
process_tick-any_order_example =
    process_tick-any_order llm ("b" ∷ "a" ∷ []) tick_1.clock tick_1.observations two_agents refl
      (refl, (refl, tt)) each_once

-- Only the agent with a backend acts.
actions_run :
    (process_tick llm ("b" ∷ "a" ∷ []) tick_1.clock tick_1.observations two_agents).0
    ≡ ("a", record { tool_name = str "idle"; parameters = obj done; reasoning = Json.null }) ∷ []
unfolding register_agent init new_agent put get process_tick deliver agent_decide collect
    decide_action parse_action build_context query_llm perceive get_field join
actions_run = refl

stop-process_tick_example :
    (process_tick llm
      ("a" ∷ "b" ∷ [])
      tick_2.clock
      tick_2.observations
      (foldl (call llm) (stop two_agents) (RuntimeCall.started ∷ RuntimeCall.ticked tick_1 ∷ []))).0
    ≡ []
stop-process_tick_example =
    stop-process_tick llm two_agents (RuntimeCall.started ∷ RuntimeCall.ticked tick_1 ∷ []) tick_2
