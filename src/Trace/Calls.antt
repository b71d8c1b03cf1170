-- ===== src/Trace/Calls.antt =====
-- Every sequence of calls on a `TraceStore`: the invariants that hold whatever is called.
use mathlib.Core.List.{foldl, Perm, map-append}
use mathlib.Core.Option.{some-injective}
use mathlib.Core.Path.{subst}
use agent_arena.Prelude.{
  ℕ, ◌≡◌, ◌⊎◌, inl, inr, refl, sym, ap, ◌∙◌, String, ◌&&◌, List, [], ◌∷◌, ◌++◌, some, map, ◌==◌,
  string_key, nat_key, pair_key, arith, Bool-cases, Option-cases,
}
use agent_arena.Prelude.Dict.{Dict, get, put, IsDict, get-put}
use agent_arena.Prelude.Json.{Json}
use agent_arena.Prelude.Result.{Result, ok, raise}
use agent_arena.Prelude.Sort.{IsSorted}
use agent_arena.Trace.{
  TraceStore, Disk, or_nil, start_episode, end_episode, start_capture, step_at, deref, get_capture,
  finish_capture, clear,
}
use agent_arena.Trace.Evict.{Key}
use agent_arena.Trace.Files.{ReasoningTrace, trace_to_dict}
use agent_arena.Trace.Backed.{IsValid, Backs, start_capture-IsValid}
use agent_arena.Trace.Cycle.{StepCall, call_step, step_at-IsValid}
use agent_arena.Trace.Episode.{get_episode_traces, get_episode_traces_exact}
use agent_arena.Trace.Query.{by_tick_agent}
use agent_arena.Trace.Watch.{watch, unwatch}

pub data Call (F : Type 0) : Type 0 where
  starts_episode : Disk → String → Call F
  ends_episode : Call F
  starts_capture : String → ℕ → String → Call F
  adds_step : ℕ → StepCall F → Call F
  finishes_capture : Disk → String → ℕ → Call F
  watches : String → ℕ → Call F
  unwatches : String → ℕ → Call F
  clears : Call F

-- A call that raises leaves the store as it was.
abbrev or_same : {F : Type 0} → TraceStore F → Result (TraceStore F) → TraceStore F
or_same s (ok s') = s'
or_same s (raise e) = s

module _ {F : Type 0} where
  unfoldable pub call : TraceStore F → Call F → TraceStore F
  call s (starts_episode disk episode_id) = start_episode disk episode_id s
  call s ends_episode = end_episode s
  call s (starts_capture agent_id tick now) = (start_capture agent_id tick now s).1
  call s (adds_step ref c) = call_step ref s c
  call s (finishes_capture disk agent_id tick) = finish_capture disk agent_id tick s
  call s (watches agent_id callback) = watch agent_id callback s
  call s (unwatches agent_id callback) = or_same s (unwatch agent_id callback s)
  call s clears = clear s

  -- Every file holds the dumps of traces.
  abbrev Dumps : Dict String (List (Json F)) → Type 0
  Dumps files =
      (e : String) (lines : List (Json F))
      → get files e ≡ some lines
      → (ts : List (ReasoningTrace F)) × (lines ≡ map trace_to_dict ts)

  pub record IsLog (s : TraceStore F) : Type 0 where
    pub dumps : Dumps s.files

  -- Two stores that differ in nothing that `IsValid` speaks of.
  abbrev Same : TraceStore F → TraceStore F → Type 0
  Same s s' = (s'.traces ≡ s.traces) × (s'.objects ≡ s.objects) × (s'.max_entries ≡ s.max_entries)

  Same-IsValid : (s s' : TraceStore F) → Same s s' → IsValid s → IsValid s'
  Same-IsValid s s' (t, o, m) v = record {
    distinct = subst (λ (d : Dict Key ℕ). IsDict d) (sym t) v.distinct;
    bounded = ground (arith, v.bounded);
    backed = λ k ref h.
        subst (λ (os : List (ReasoningTrace F)). Backs os k ref) (sym o)
          (v.backed k ref (ap (λ (d : Dict Key ℕ). get d k) (sym t) ∙ h));
  }

  start_episode-Same :
      (disk : Disk) (e : String) (s : TraceStore F) → Same s (start_episode disk e s)
  unfolding start_episode
  start_episode-Same disk e s = ground arith

  finish_capture-Same :
      (disk : Disk) (agent_id : String) (tick : ℕ) (s : TraceStore F)
      → Same s (finish_capture disk agent_id tick s)
  unfolding finish_capture
  finish_capture-Same disk agent_id tick s = ground arith

  unwatch-Same :
      (agent_id : String) (callback : ℕ) (s : TraceStore F)
      → Same s (or_same s (unwatch agent_id callback s))
  unfolding unwatch
  unwatch-Same agent_id callback s = ground arith

  call-IsValid : (s : TraceStore F) (c : Call F) → IsValid s → IsValid (call s c)
  unfolding call end_episode watch clear get
  call-IsValid s (starts_episode disk e) v = Same-IsValid s _ (start_episode-Same disk e s) v
  call-IsValid s ends_episode v = Same-IsValid s _ (refl, refl, refl) v
  call-IsValid s (starts_capture agent_id tick now) v = start_capture-IsValid agent_id tick now s v
  call-IsValid s (adds_step ref c) v = step_at-IsValid ref s c v
  call-IsValid s (finishes_capture disk agent_id tick) v =
      Same-IsValid s _ (finish_capture-Same disk agent_id tick s) v
  call-IsValid s (watches agent_id callback) v = Same-IsValid s _ (refl, refl, refl) v
  call-IsValid s (unwatches agent_id callback) v =
      Same-IsValid s _ (unwatch-Same agent_id callback s) v
  call-IsValid s clears v = record {
    distinct = tt;
    bounded = omega arith;
    backed = λ k ref h. absurd (cc h);
  }

  -- After any calls on a valid store, it is valid: no key stands twice, there are at most `max_entries` traces, and
  -- each is found under its own agent and tick.
  pub calls-IsValid :
      (cs : List (Call F)) (s : TraceStore F) → IsValid s → IsValid (foldl call s cs)
  calls-IsValid [] s v = v
  calls-IsValid (c ∷ cs) s v = calls-IsValid cs (call s c) (call-IsValid s c v)

  put-Dumps :
      (files : Dict String (List (Json F))) (e : String) (ts : List (ReasoningTrace F))
      → Dumps files
      → Dumps (put files e (map trace_to_dict ts))
  put-Dumps files e ts old i lines h = elim (Bool-cases (e == i)) [
    | inl same ↦ (ts, some-injective _ _ (sym h ∙ get-put files e i _ ∙ rw same))
    | inr other ↦ old i lines (sym (rw other at (get-put files e i (map trace_to_dict ts))) ∙ h)
  ]

  or_nil-Dumps :
      (files : Dict String (List (Json F))) (e : String)
      → Dumps files
      → (ts : List (ReasoningTrace F)) × (or_nil (get files e) ≡ map trace_to_dict ts)
  or_nil-Dumps files e old = elim (Option-cases (get files e)) [
    | inl absent ↦ ([], rw absent)
    | inr (lines, found) ↦ let (ts, h) = old e lines found in (ts, rw found h)
  ]

  -- The files after some call: as they were, or with one file opened, or one line appended.
  abbrev Extended : TraceStore F → TraceStore F → Type 0
  Extended s s' =
      (s'.files ≡ s.files)
      ⊎ ((e : String) × (s'.files ≡ put s.files e (or_nil (get s.files e))))
      ⊎ ((e : String) × (t : ReasoningTrace F) × (s'.files
            ≡ put s.files e (or_nil (get s.files e) ++ trace_to_dict t ∷ [])))

  Extended-IsLog : (s s' : TraceStore F) → Extended s s' → IsLog s → IsLog s'
  Extended-IsLog s s' (inl e) l = record { dumps = subst Dumps (sym e) l.dumps }
  Extended-IsLog s s' (inr (inl (f, e))) l =
      let (ts, h) = or_nil-Dumps s.files f l.dumps in
      record {
        dumps = subst Dumps (sym (e ∙ ap (put s.files f) h)) (put-Dumps s.files f ts l.dumps);
      }
  Extended-IsLog s s' (inr (inr (f, t, e))) l =
      let (ts, h) = or_nil-Dumps s.files f l.dumps in
      let grown : or_nil (get s.files f) ++ trace_to_dict t ∷ []
          ≡ map trace_to_dict (ts ++ t ∷ []) =
        rw h (sym (map-append trace_to_dict ts (t ∷ []))) in
      record {
        dumps =
            subst Dumps (sym (e ∙ ap (put s.files f) grown))
              (put-Dumps s.files f (ts ++ t ∷ []) l.dumps);
      }

  start_episode-Extended :
      (disk : Disk) (e : String) (s : TraceStore F) → Extended s (start_episode disk e s)
  unfolding start_episode
  start_episode-Extended disk e s = elim (Bool-cases (s.log_to_file && disk.opens e)) [
    | inl opened ↦ inr (inl (e, ground arith))
    | inr shut ↦ inl (ground arith)
  ]

  finish_capture-Extended :
      (disk : Disk) (agent_id : String) (tick : ℕ) (s : TraceStore F)
      → Extended s (finish_capture disk agent_id tick s)
  unfolding finish_capture get_capture
  finish_capture-Extended disk agent_id tick s =
      elim (Option-cases (deref s (get s.traces (agent_id, tick)))) [
        | inl lost ↦ inl (ground arith)
        | inr (t, found) ↦ elim (Option-cases s.episode_file_handle) [
          | inl shut ↦ inl (ground arith)
          | inr (f, handle) ↦ elim (Bool-cases (s.enabled && (s.log_to_file && disk.writes))) [
            | inl written ↦ inr (inr (f, t, ground arith))
            | inr skipped ↦ inl (ground arith)
          ]
        ]
      ]

  start_capture-files :
      (agent_id : String) (tick : ℕ) (now : String) (s : TraceStore F)
      → (start_capture agent_id tick now s).1.files ≡ s.files
  unfolding start_capture
  start_capture-files agent_id tick now s = ground arith

  unwatch-files :
      (agent_id : String) (callback : ℕ) (s : TraceStore F)
      → (or_same s (unwatch agent_id callback s)).files ≡ s.files
  unfolding unwatch
  unwatch-files agent_id callback s = ground arith

  call-Extended : (s : TraceStore F) (c : Call F) → Extended s (call s c)
  unfolding call end_episode watch clear step_at
  call-Extended s (starts_episode disk e) = start_episode-Extended disk e s
  call-Extended s ends_episode = inl refl
  call-Extended s (starts_capture agent_id tick now) = inl (start_capture-files agent_id tick now s)
  call-Extended s (adds_step ref c) = inl refl
  call-Extended s (finishes_capture disk agent_id tick) =
      finish_capture-Extended disk agent_id tick s
  call-Extended s (watches agent_id callback) = inl refl
  call-Extended s (unwatches agent_id callback) = inl (unwatch-files agent_id callback s)
  call-Extended s clears = inl refl

  calls-IsLog : (cs : List (Call F)) (s : TraceStore F) → IsLog s → IsLog (foldl call s cs)
  calls-IsLog [] s l = l
  calls-IsLog (c ∷ cs) s l = calls-IsLog cs (call s c) (Extended-IsLog s _ (call-Extended s c) l)

  -- After any calls on a store whose files hold dumps of traces, an episode's file can be read back
  -- whole: `get_episode_traces` returns all the traces in it, none lost to an unreadable line, sorted by
  -- tick and within a tick by agent.
  pub calls-readable :
      (cs : List (Call F)) (s : TraceStore F) (e : String) (lines : List (Json F))
      → IsLog s
      → get (foldl call s cs).files e ≡ some lines
      → (ts : List (ReasoningTrace F)) × (lines ≡ map trace_to_dict ts)
        × IsSorted by_tick_agent (get_episode_traces (foldl call s cs) e)
        × Perm (get_episode_traces (foldl call s cs) e) ts
  calls-readable cs s e lines l h =
      let (ts, d) = (calls-IsLog cs s l).dumps e lines h in
      let (_, sorted, perm) = get_episode_traces_exact (foldl call s cs) e ts (h ∙ ap some d) in
      (ts, d, sorted, perm)
