-- ===== src/Trace/Cycle.antt =====
-- One decision cycle: start a capture, add steps through the returned reference, finish it.
use mathlib.Core.List.{foldl}
use mathlib.Core.Path.{subst}
use agent_arena.Prelude.{
  ℕ, ◌≡◌, inl, inr, refl, sym, ap, ◌∙◌, String, true, List, [], ◌∷◌, ◌++◌, Option, some, length,
  get_elem?, map, string_key, nat_key, pair_key, nat_beq_iff, Option-cases, beq_self,
  get_elem?-append, get_elem?-set,
}
use agent_arena.Prelude.Dict.{get, put, has, is_some}
use agent_arena.Prelude.Json.{Fields}
use agent_arena.Trace.{
  TraceStore, Disk, or_nil, new_trace, start_capture, step_at, get_capture, finish_capture,
}
use agent_arena.Trace.Evict.{Key}
use agent_arena.Trace.Files.{ReasoningTrace, add_step, trace_to_dict}
use agent_arena.Trace.Backed.{IsValid, Backs-set, started, start_capture_on, get-started}

-- The arguments of one `add_step` call.
pub record StepCall (F : Type 0) : Type 0 where
  pub now : String
  pub name : String
  pub payload : Fields F
  pub duration_ms : Option F

module _ {F : Type 0} where
  abbrev pub with_step : ReasoningTrace F → StepCall F → ReasoningTrace F
  with_step t c = add_step t c.now c.name c.payload c.duration_ms

  abbrev pub call_step : ℕ → TraceStore F → StepCall F → TraceStore F
  call_step ref s c = step_at ref c.now c.name c.payload c.duration_ms s

  pub step_at-IsValid :
      (ref : ℕ) (s : TraceStore F) (c : StepCall F) → IsValid s → IsValid (call_step ref s c)
  unfolding step_at add_step
  step_at-IsValid ref s c v = elim (Option-cases (get_elem? s.objects ref)) [
    | inl absent ↦ simp absent v
    | inr (t, found) ↦ simp found (record {
      distinct = v.distinct;
      bounded = v.bounded;
      backed =
          λ k r h. Backs-set s.objects ref t (with_step t c) k r found refl refl (v.backed k r h);
    })
  ]

  object_after_step :
      (ref : ℕ) (s : TraceStore F) (c : StepCall F) (t : ReasoningTrace F)
      → get_elem? s.objects ref ≡ some t
      → get_elem? (call_step ref s c).objects ref ≡ some (with_step t c)
  unfolding step_at
  object_after_step ref s c t found =
      rw found (
        get_elem?-set s.objects ref ref (with_step t c) t found ∙ rw ((nat_beq_iff ref ref).1 refl))

  -- The object behind a reference collects the steps in order, and nothing else changes.
  pub steps_at :
      (ref : ℕ) (cs : List (StepCall F)) (s : TraceStore F) (t : ReasoningTrace F)
      → get_elem? s.objects ref ≡ some t
      → (get_elem? (foldl (call_step ref) s cs).objects ref ≡ some (foldl with_step t cs))
        × (foldl (call_step ref) s cs ≡ record s { objects = (foldl (call_step ref) s cs).objects })
  unfolding step_at
  steps_at ref [] s t found = (found, refl)
  steps_at ref (c ∷ cs) s t found =
      steps_at ref cs (call_step ref s c) (with_step t c) (object_after_step ref s c t found)

  module _ (disk : Disk) (agent_id : String) (tick : ℕ) (now : String)
      (cs : List (StepCall F)) where
    -- what the agent recorded in the cycle
    abbrev pub recorded : TraceStore F → ReasoningTrace F
    recorded s = foldl with_step (new_trace s agent_id tick now) cs

    -- the store after the whole cycle, its steps added through the reference that the start returns
    unfoldable pub cycle : TraceStore F → TraceStore F
    cycle s =
        finish_capture disk agent_id tick
          (foldl (call_step (length s.objects)) (start_capture agent_id tick now s).1 cs)

    abbrev calls : List ℕ → TraceStore F → List (ℕ × ReasoningTrace F)
    calls watchers s = map (λ c. (c, recorded s)) watchers

    -- What a cycle that starts in `s` leaves behind in `s'`: the trace can be looked up, it is the last
    -- line of the episode's file, and the agent's watchers and then those of "*" were called with it.
    abbrev pub IsRecorded : TraceStore F → String → TraceStore F → Type 0
    IsRecorded s file s' =
        (get_capture s' agent_id tick ≡ some (recorded s))
        × (s'.files
            ≡ put s.files file (or_nil (get s.files file) ++ trace_to_dict (recorded s) ∷ []))
        × (s'.notified
            ≡ (s.notified ++ calls (or_nil (get s.watchers agent_id)) s)
              ++ calls (or_nil (get s.watchers "*")) s)

    kept_ref :
        (s : TraceStore F)
        → has (started agent_id tick now s).traces (agent_id, tick) ≡ true
        → get (started agent_id tick now s).traces (agent_id, tick) ≡ some (length s.objects)
    kept_ref s kept = elim (get-started agent_id tick now s (agent_id, tick)) [
      | inl e ↦ e ∙ rw (beq_self {A = Key} (agent_id, tick))
      | inr (_, gone, _, _) ↦ absurd (cc (kept, ap (λ (o : Option ℕ). is_some o) gone))
    ]

    finished :
        (s : TraceStore F) (objects : List (ReasoningTrace F)) (file : String)
        → s.enabled ≡ true
        → s.log_to_file ≡ true
        → disk.writes ≡ true
        → s.episode_file_handle ≡ some file
        → get_elem? objects (length s.objects) ≡ some (recorded s)
        → get (started agent_id tick now s).traces (agent_id, tick) ≡ some (length s.objects)
        → IsRecorded s file (
            finish_capture disk agent_id tick
              (record (started agent_id tick now s) { objects = objects }))
    unfolding finish_capture
    finished s objects file on log writes handle found stored =
        simp (on, log, writes, handle, found, stored) (refl, refl, refl)

    -- In an enabled store that logs to an open file, a cycle whose capture was not evicted at once
    -- records all the steps in their order: in memory, as the last line of the episode's file, and
    -- with the watchers.
    pub cycle-IsRecorded :
        (s : TraceStore F) (file : String)
        → s.enabled ≡ true
        → s.log_to_file ≡ true
        → disk.writes ≡ true
        → s.episode_file_handle ≡ some file
        → has (start_capture agent_id tick now s).1.traces (agent_id, tick) ≡ true
        → IsRecorded s file (cycle s)
    unfolding cycle
    cycle-IsRecorded s file on log writes handle kept =
        let start = start_capture_on agent_id tick now s on in
        let s1 = started agent_id tick now s in
        let ref = length s.objects in
        let (found, rest) =
          steps_at ref cs s1 (new_trace s agent_id tick now)
            (get_elem?-append s.objects (new_trace s agent_id tick now ∷ [])) in
        let stored = kept_ref s (
          subst (λ (r : Option ℕ × TraceStore F). has r.1.traces (agent_id, tick) ≡ true) start
            kept) in
        subst
          (λ (r : Option ℕ × TraceStore F).
            IsRecorded s file (finish_capture disk agent_id tick (foldl (call_step ref) r.1 cs)))
          (sym start)
          (subst (λ (s2 : TraceStore F). IsRecorded s file (finish_capture disk agent_id tick s2))
            (sym rest)
            (finished s (foldl (call_step ref) s1 cs).objects file on log writes handle found
              stored))
