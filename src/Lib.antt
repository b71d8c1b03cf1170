-- ===== src/Lib.antt =====
-- A verification library for the Python packages of Agent Arena.
--
-- Agent Arena runs agents in a Godot game. Each tick the game sends an observation, the agent's code
-- decides on a tool and its parameters, and the game runs the tool. The library models the parts of
-- that loop that keep state or carry messages:
--
--   Window      python/agent_runtime/memory/sliding_window.py: `SlidingWindowMemory`.
--   Trace       python/agent_runtime/reasoning_trace.py: `TraceStore`, `ReasoningTrace`, `TraceStep`.
--   Inspector   python/agent_runtime/prompt_inspector.py: `PromptInspector`.
--   Dispatch    python/agent_runtime/tool_dispatcher.py: `ToolDispatcher`.
--   Schemas     python/sdk/agent_arena_sdk/schemas: observations, objectives, decisions, tools, tool
--               results, exploration, and the objects and experiences of the spatial memory.
--   Spatial     python/sdk/agent_arena_sdk/memory/spatial.py: `SpatialMemory`.
--   Planner     starters/intermediate/planner.py: `Planner`.
--   Sightings   starters/intermediate/memory.py: the starter's `SlidingWindowMemory`.
--   Server      python/sdk/agent_arena_sdk/server/ipc_server.py: `MinimalIPCServer`, and Server.Tracker
--               its debug_middleware.py: `ObservationTracker`.
--   Adapters    python/sdk/agent_arena_sdk/adapters/base.py: `FrameworkAdapter`.
--   Behavior    python/agent_runtime/behavior.py: the hooks of `AgentBehavior` over Trace and
--               Spatial, and `SimpleAgentBehavior`; Behavior.Response reads the answers of language models,
--               as `AgentDecision` in python/agent_runtime/schemas.py.
--   Starter     starters/intermediate/agent.py: the `Agent` over Planner and Sightings.
--   Beginner    starters/beginner/agent.py: the `Agent` without a state.
--   Agents      python/agent_runtime/agent.py and runtime.py: `Agent` and `AgentRuntime`.
--   LongTerm    python/long_term_memory_module/long_term_memory.py: `LongTermMemory`, and over it
--               semantic_memory.py: `SemanticMemory`.
--   Episodes    starters/llm/episode_memory.py: `EpisodeMemoryManager` over LongTerm.
--   Debug       python/sdk/agent_arena_sdk/server/debug_store.py: `DebugStore` over Inspector.
--   Prelude     dictionaries, lists, sorting, JSON, exceptions, integers, texts, floats.
--   Tests       runs on concrete data, and the theorems at concrete inputs.
--
-- The server hands the observations of a request to the agent's callback one after another and answers
-- with its decisions; with debugging on it tracks what is in sight and records the decisions. An agent
-- traces a decision by `start_capture`, steps added to the trace that it returns, and
-- `finish_capture`; the store bounds the traces in memory, appends finished ones to the episode's file
-- and calls the watchers. `SpatialMemory` takes its objects from observations. The runtime hands each
-- observation to its agent and lets all agents decide in the threads of an executor, whose order is an
-- argument of a tick. The starter's agent carries out a plan of its planner step by step, as the
-- results of the tools come back, and plans from what its memory recalls. The episode manager stores
-- events and summaries in the long-term memory, drops duplicates, and queries it for each decision.
--
-- A class is a record of its attributes, and a method a function from the record's value to the
-- next one, under the method's name. Where two parts of the program hold the same object, as the
-- agent and the store hold a trace, the objects live in a list and a reference is an index into
-- it. An exception is a `raise` of `Result`. A dictionary is a list of entries in insertion order,
-- and a JSON value a tree. The clock, the outcome of file operations, the tools that are
-- registered and the order in which Python iterates over a set are arguments. FAISS, the sentence
-- encoder, the model behind an agent, the identifiers drawn and the formatting of numbers are
-- arguments too, with what FAISS documents of an index as a hypothesis that a small index meets.
-- Floats are a type with operations, and a theorem that needs more of them has the facts as a
-- hypothesis, which integers meet; their squares do not overflow, where Python raises an
-- OverflowError for a float beyond about 1e154. Messages are read at the types that their fields
-- declare, which the source does not check: a value of another type raises, and a theorem about
-- what is read speaks of values that the program itself writes or rejects. A tick is a natural
-- number; other integers are signed and unbounded, as in Python. Every function recurs on its
-- data, so that no bound or fuel is needed.
--
-- Not modelled: methods that only print (`summarize`, `dump`, `to_json`), logging, the other
-- older schemas of the runtime, the calls of language models, and the game
-- itself, which is C++ and GDScript. Locks are left out: a call is one step. The debug store's
-- bridge to a persistent store is left out, since the method that it connects by does not exist.
pub mod Prelude
pub mod Window
pub mod Trace
pub mod Inspector
pub mod Dispatch
pub mod Schemas
pub mod Spatial
pub mod Planner
pub mod Sightings
pub mod Agents
pub mod LongTerm
pub mod Episodes
pub mod Debug
pub mod Server
pub mod Adapters
pub mod Behavior
pub mod Starter
pub mod Beginner
mod Tests
