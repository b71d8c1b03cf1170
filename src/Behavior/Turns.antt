-- ===== src/Behavior/Turns.antt =====
-- What a traced decision of a behaviour leaves in the trace store.
use mathlib.Core.List.{foldl}
use mathlib.Core.Path.{subst}
use agent_arena.Prelude.{
  ℕ, ◌≡◌, refl, sym, ◌∙◌, String, true, List, [], ◌∷◌, none, some, length, string_key, nat_key,
  pair_key, get_elem?-append,
}
use agent_arena.Prelude.Dict.{has}
use agent_arena.Prelude.Floats.{Floats}
use agent_arena.Schemas.Observation.{Observation}
use agent_arena.Trace.{TraceStore, Disk, new_trace, start_capture}
use agent_arena.Trace.Backed.{started, start_capture_on}
use agent_arena.Trace.Cycle.{
  StepCall, with_step, call_step, steps_at, cycle, IsRecorded, cycle-IsRecorded,
}
use agent_arena.Trace.Files.{ReasoningTrace, add_step}
use agent_arena.Behavior.{AgentBehavior, log_step, end_trace, update_world_map, traced_decision}

module _ {F : Type 0} where
  -- Steps leave the key of a trace as it is.
  key_of_steps :
      (cs : List (StepCall F)) (t : ReasoningTrace F)
      → ((foldl with_step t cs).agent_id ≡ t.agent_id) × ((foldl with_step t cs).tick ≡ t.tick)
  unfolding add_step
  key_of_steps [] t = (refl, refl)
  key_of_steps (c ∷ cs) t = key_of_steps cs (with_step t c)

  -- Logging through a behaviour is adding steps through its reference.
  logged :
      (b : AgentBehavior F) (ref : ℕ) (cs : List (StepCall F)) (s : TraceStore F)
      → b.current_trace ≡ some ref
      → foldl (log_step b) s cs ≡ foldl (call_step ref) s cs
  unfolding log_step
  logged b ref [] s h = refl
  logged b ref (c ∷ cs) s h = logged b ref cs (log_step b s c) h ∙ rw h refl

module _ {F : Type 0} ⦃fl : Floats F⦄ (disk : Disk) (o : Observation F) (agent_id now : String)
    (cs : List (StepCall F)) where
  -- the behaviour between the setting of the context and the end of the trace
  abbrev tracing : AgentBehavior F → TraceStore F → AgentBehavior F
  tracing b s =
      update_world_map o
        (record b { agent_id = some agent_id; current_trace = some (length s.objects) })

  -- The store after a traced decision is the one after a capture cycle with the logged steps.
  traced_decision-cycle :
      (b : AgentBehavior F) (s : TraceStore F)
      → b.has_trace_store ≡ true
      → s.enabled ≡ true
      → (traced_decision disk o agent_id now cs b s).1 ≡ cycle disk agent_id o.tick now cs s
  unfolding traced_decision cycle
  traced_decision-cycle b s has_store on =
      let start = start_capture_on agent_id o.tick now s on in
      let b2 = tracing b s in
      let ref = length s.objects in
      let s1 = started agent_id o.tick now s in
      let t = new_trace s agent_id o.tick now in
      let (found, rest) = steps_at ref cs s1 t (get_elem?-append s.objects (t ∷ [])) in
      let (same_agent, same_tick) = key_of_steps cs t in
      let steps = logged b2 ref cs s1 refl in
      rw (has_store, start, steps, found, same_agent, same_tick) refl

  ended_trace :
      (b : AgentBehavior F) (s : TraceStore F)
      → (traced_decision disk o agent_id now cs b s).0.current_trace ≡ none
  unfolding traced_decision end_trace
  ended_trace b s = refl

  -- A decision of a behaviour whose trace store is enabled and logs to an open file, and whose capture
  -- is not evicted at once, leaves no trace pending, and the steps that it logged stand in their
  -- order in memory, as the last line of the episode's file, and with the watchers.
  pub traced_decision-IsRecorded :
      (b : AgentBehavior F) (s : TraceStore F) (file : String)
      → b.has_trace_store ≡ true
      → s.enabled ≡ true
      → s.log_to_file ≡ true
      → disk.writes ≡ true
      → s.episode_file_handle ≡ some file
      → has (start_capture agent_id o.tick now s).1.traces (agent_id, o.tick) ≡ true
      → ((traced_decision disk o agent_id now cs b s).0.current_trace ≡ none)
        × IsRecorded disk agent_id o.tick now cs s file
            (traced_decision disk o agent_id now cs b s).1
  traced_decision-IsRecorded b s file has_store on log writes handle kept = (
    ended_trace b s,
    subst (IsRecorded disk agent_id o.tick now cs s file)
        (sym (traced_decision-cycle b s has_store on))
        (cycle-IsRecorded disk agent_id o.tick now cs s file on log writes handle kept),
  )
