-- ===== src/Behavior.antt =====
-- python/agent_runtime/behavior.py: the hooks of `AgentBehavior` that the framework calls. The trace
-- store is shared by the behaviours, so it is passed beside them, and a trace is a reference into
-- it. The map of objects is the one of Spatial, without a semantic index. The clock and the outcome of file operations are arguments. `decide` is the user's: what it
-- does to this state is the list of its `log_step` calls.
pub mod Guided
pub mod Response
pub mod Simple
pub mod Turns
use mathlib.Core.List.{foldl}
use agent_arena.Prelude.{
  ℕ, String, Bool, true, false, List, Option, none, some, string_key, nat_key, pair_key,
  if◌then◌else◌,
}
use agent_arena.Prelude.Floats.{Floats}
use agent_arena.Prelude.Json.{Fields}
use agent_arena.Schemas.Observation.{Observation}
use agent_arena.Spatial.{SpatialMemory, update_from_observation, clear}
use agent_arena.Trace.{
  TraceStore, Disk, start_capture, step_at, deref, finish_capture, start_episode,
}
use agent_arena.Trace.Cycle.{StepCall}
use agent_arena.Trace.Files.{ReasoningTrace}

pub record AgentBehavior (F : Type 0) : Type 0 where
  pub world_map : Option (SpatialMemory F)
  -- `_trace_store is not None`
  pub has_trace_store : Bool
  pub agent_id : Option String
  pub current_trace : Option ℕ

module _ {F : Type 0} where
  unfoldable pub new_behavior : Bool → AgentBehavior F
  new_behavior has_trace_store = record {
    world_map = none;
    has_trace_store = has_trace_store;
    agent_id = none;
    current_trace = none;
  }

  abbrev capture : AgentBehavior F → Option ℕ × TraceStore F → AgentBehavior F × TraceStore F
  capture b (ref, s) = (record b { current_trace = ref }, s)

  -- `_set_trace_context`
  unfoldable pub set_trace_context :
      String → ℕ → String → AgentBehavior F → TraceStore F → AgentBehavior F × TraceStore F
  set_trace_context agent_id tick now b s =
      let b1 = record b { agent_id = some agent_id } in
      if b.has_trace_store then capture b1 (start_capture agent_id tick now s) else (b1, s)

  abbrev finish_of : Disk → Option (ReasoningTrace F) → TraceStore F → TraceStore F
  finish_of disk none s = s
  finish_of disk (some t) s = finish_capture disk t.agent_id t.tick s

  -- `_end_trace`: the key is read from the trace
  unfoldable pub end_trace : Disk → AgentBehavior F → TraceStore F → AgentBehavior F × TraceStore F
  end_trace disk b s = (
    record b { current_trace = none },
    if b.has_trace_store then finish_of disk (deref s b.current_trace) s else s,
  )

  abbrev step_of : Option ℕ → StepCall F → TraceStore F → TraceStore F
  step_of none c s = s
  step_of (some ref) c s = step_at ref c.now c.name c.payload c.duration_ms s

  -- `log_step`
  unfoldable pub log_step : AgentBehavior F → TraceStore F → StepCall F → TraceStore F
  log_step b s c = step_of b.current_trace c s

  abbrev cleared : Option (SpatialMemory F) → Option (SpatialMemory F)
  cleared none = none
  cleared (some w) = some (clear w)

  abbrev episode_of : Disk → Option String → TraceStore F → TraceStore F
  episode_of disk none s = s
  episode_of disk (some agent_id) s = start_episode disk agent_id s

  -- `on_episode_start`: the new episode has the agent's identifier.
  unfoldable pub on_episode_start :
      Disk → AgentBehavior F → TraceStore F → AgentBehavior F × TraceStore F
  on_episode_start disk b s = (
    record b { world_map = cleared b.world_map },
    if b.has_trace_store then episode_of disk b.agent_id s else s,
  )

  unfoldable pub on_episode_end :
      Disk → AgentBehavior F → TraceStore F → AgentBehavior F × TraceStore F
  unfolding end_trace
  on_episode_end disk b s = end_trace disk b s

module _ {F : Type 0} ⦃fl : Floats F⦄ where
  abbrev updated : Observation F → Option (SpatialMemory F) → Option (SpatialMemory F)
  updated o none = none
  updated o (some w) = some (update_from_observation o w)

  -- `_update_world_map`
  unfoldable pub update_world_map : Observation F → AgentBehavior F → AgentBehavior F
  update_world_map o b = record b { world_map = updated o b.world_map }

  -- One decision as python/archived/ipc/server.py runs it: the context is set, the map updated, and
  -- the trace that `decide` logs its steps to is ended.
  unfoldable pub traced_decision :
      Disk
      → Observation F
      → String
      → String
      → List (StepCall F)
      → AgentBehavior F
      → TraceStore F
      → AgentBehavior F × TraceStore F
  unfolding set_trace_context update_world_map log_step end_trace
  traced_decision disk o agent_id now cs b s =
      let (b1, s1) = set_trace_context agent_id o.tick now b s in
      let b2 = update_world_map o b1 in end_trace disk b2 (foldl (log_step b2) s1 cs)
