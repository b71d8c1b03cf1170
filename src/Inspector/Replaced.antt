-- ===== src/Inspector/Replaced.antt =====
-- The doc string of `TraceStore` says that it replaces the `PromptInspector`: the two run side by side.
use mathlib.Core.List.{foldl, map-append}
use mathlib.Core.Option.{some-injective}
use mathlib.Core.Path.{subst₂}
use agent_arena.Prelude.{
  ℕ, String, true, false, ◌≡◌, refl, sym, ap, ◌∙◌, inl, inr, List, [], ◌∷◌, ◌++◌, map, Option, none,
  some, length, get_elem?, set, string_key, nat_key, pair_key, Bool-cases, arith,
}
use agent_arena.Prelude.Dict.{Dict, put}
use agent_arena.Prelude.Json.{Fields}
use agent_arena.Prelude.Maps.{map_option, length-map, get_elem?-map, map-set}
use agent_arena.Trace.{TraceStore, Disk, map_step, write_at}
use agent_arena.Trace.Backed.{started, start_capture_on, start_capture_off}
use agent_arena.Trace as Trace
use agent_arena.Trace.Calls.{Call, call}
use agent_arena.Trace.Evict.{Key, evict_oldest}
use agent_arena.Trace.Files.{TraceStep, ReasoningTrace, add_step}
use agent_arena.Inspector.{
  InspectorStage, InspectorEntry, DecisionCapture, PromptInspector, Writing, stage_value,
  new_capture, add_entry, start_capture, entry_at, entry_written, finish_capture, clear,
}

pub data InspectorCall (F : Type 0) : Type 0 where
  starts : String → ℕ → String → InspectorCall F
  adds : ℕ → String → InspectorStage → Fields F → InspectorCall F
  finishes : Writing → String → ℕ → InspectorCall F
  clears : InspectorCall F

module _ {F : Type 0} where
  unfoldable pub inspect : PromptInspector F → InspectorCall F → PromptInspector F
  inspect p (starts agent_id tick now) = (start_capture agent_id tick now p).1
  inspect p (adds ref now stage payload) = entry_at ref now stage payload p
  inspect p (finishes w agent_id tick) = finish_capture w agent_id tick p
  inspect p clears = clear p

  -- The call on a `TraceStore` that takes the place of a call on a `PromptInspector`.
  abbrev pub as_call : Disk → InspectorCall F → Call F
  as_call disk (starts agent_id tick now) = Call.starts_capture agent_id tick now
  as_call disk (adds ref now stage payload) =
      Call.adds_step ref
        (record { now = now; name = stage_value stage; payload = payload; duration_ms = none })
  as_call disk (finishes w agent_id tick) = Call.finishes_capture disk agent_id tick
  as_call disk clears = Call.clears

  -- an entry as a step, a capture as a trace of no episode, and a trace without its episode
  abbrev pub to_step : InspectorEntry F → TraceStep F
  to_step e = record {
    timestamp = e.timestamp;
    agent_id = e.agent_id;
    tick = e.tick;
    name = stage_value e.stage;
    payload = e.payload;
    duration_ms = none;
  }

  abbrev pub to_trace : DecisionCapture F → ReasoningTrace F
  to_trace c = record {
    agent_id = c.agent_id;
    tick = c.tick;
    episode_id = "";
    start_time = c.start_time;
    steps = map to_step c.entries;
  }

  abbrev pub forget : ReasoningTrace F → ReasoningTrace F
  forget t = record t { episode_id = "" }

  -- The two hold the same captures, under the same keys and references.
  pub record Replaces (p : PromptInspector F) (s : TraceStore F) : Type 0 where
    pub enabled : s.enabled ≡ p.enabled
    pub max_entries : s.max_entries ≡ p.max_entries
    pub captures : s.traces ≡ p.captures
    pub objects : map forget s.objects ≡ map to_trace p.objects

  Replaces-length :
      (p : PromptInspector F) (s : TraceStore F)
      → Replaces p s
      → length s.objects ≡ length p.objects
  Replaces-length p s r =
      sym (length-map forget s.objects)
      ∙ ap (λ (l : List (ReasoningTrace F)). length l) r.objects
      ∙ length-map to_trace p.objects

  -- The same reference stands for the same capture.
  pub Replaces-at :
      (p : PromptInspector F) (s : TraceStore F) (ref : ℕ)
      → Replaces p s
      → map_option forget (get_elem? s.objects ref) ≡ map_option to_trace (get_elem? p.objects ref)
  Replaces-at p s ref r =
      sym (get_elem?-map forget s.objects ref)
      ∙ ap (λ (l : List (ReasoningTrace F)). get_elem? l ref) r.objects
      ∙ get_elem?-map to_trace p.objects ref

  module _ (agent_id : String) (tick : ℕ) (now : String) (p : PromptInspector F)
      (s : TraceStore F) where
    -- The inspector after a capture has started in an enabled one.
    abbrev inspecting : PromptInspector F
    inspecting = record p {
      objects = p.objects ++ new_capture agent_id tick now ∷ [];
      captures = evict_oldest p.max_entries (put p.captures (agent_id, tick) (length p.objects));
    }

    inspecting_on : p.enabled ≡ true → (start_capture agent_id tick now p).1 ≡ inspecting
    unfolding start_capture
    inspecting_on h = simp h

    inspecting_off : p.enabled ≡ false → (start_capture agent_id tick now p).1 ≡ p
    unfolding start_capture
    inspecting_off h = simp h

    both_started : Replaces p s → Replaces inspecting (started agent_id tick now s)
    both_started r = record {
      enabled = r.enabled;
      max_entries = r.max_entries;
      captures =
          ap (λ (m : ℕ). evict_oldest m (put s.traces (agent_id, tick) (length s.objects)))
            r.max_entries
          ∙ ap
              (λ (d : Dict Key ℕ).
                evict_oldest p.max_entries (put d (agent_id, tick) (length s.objects)))
              r.captures
          ∙ ap (λ (n : ℕ). evict_oldest p.max_entries (put p.captures (agent_id, tick) n))
              (Replaces-length p s r);
      objects =
          map-append forget s.objects _
          ∙ ap (λ (l : List (ReasoningTrace F)). l ++ to_trace (new_capture agent_id tick now) ∷ [])
              r.objects
          ∙ sym (map-append to_trace p.objects _);
    }

    start-Replaces :
        Replaces p s
        → Replaces (start_capture agent_id tick now p).1 (Trace.start_capture agent_id tick now s).1
    start-Replaces r = elim (Bool-cases p.enabled) [
      | inl on ↦
          subst₂ Replaces (sym (inspecting_on on))
            (sym (
              ap (λ (x : Option ℕ × TraceStore F). x.1)
                (start_capture_on agent_id tick now s (r.enabled ∙ on))))
            (both_started r)
      | inr off ↦
          subst₂ Replaces (sym (inspecting_off off))
            (sym (
              ap (λ (x : Option ℕ × TraceStore F). x.1)
                (start_capture_off agent_id tick now s (r.enabled ∙ off))))
            r
    ]

  added :
      (now : String) (stage : InspectorStage) (payload : Fields F) (c : DecisionCapture F)
      (t : ReasoningTrace F)
      → forget t ≡ to_trace c
      → forget (add_step t now (stage_value stage) payload none)
        ≡ to_trace (add_entry c now stage payload)
  unfolding add_step add_entry
  added now stage payload c t h =
      ap (λ (u : ReasoningTrace F). add_step u now (stage_value stage) payload none) h
      ∙ ap (λ (l : List (TraceStep F)). record (to_trace c) { steps = l })
          (sym (map-append to_step c.entries _))

  both_added :
      (now : String) (stage : InspectorStage) (payload : Fields F) (cs : List (DecisionCapture F))
      (ts : List (ReasoningTrace F)) (ref : ℕ) (c : Option (DecisionCapture F))
      (t : Option (ReasoningTrace F))
      → map forget ts ≡ map to_trace cs
      → map_option forget t ≡ map_option to_trace c
      → map forget (write_at ts ref (map_step t now (stage_value stage) payload none))
        ≡ map to_trace (entry_written cs ref c now stage payload)
  both_added now stage payload cs ts ref none none h e = h
  both_added now stage payload cs ts ref none (some t) h e = absurd (cc e)
  both_added now stage payload cs ts ref (some c) none h e = absurd (cc e)
  both_added now stage payload cs ts ref (some c) (some t) h e =
      map-set forget ts ref _
      ∙ ap (λ (u : ReasoningTrace F). set (map forget ts) ref u)
          (added now stage payload c t (some-injective _ _ e))
      ∙ ap (λ (l : List (ReasoningTrace F)). set l ref (to_trace (add_entry c now stage payload))) h
      ∙ sym (map-set to_trace cs ref (add_entry c now stage payload))

  add-Replaces :
      (ref : ℕ) (now : String) (stage : InspectorStage) (payload : Fields F) (p : PromptInspector F)
      (s : TraceStore F)
      → Replaces p s
      → Replaces
          (entry_at ref now stage payload p)
          (Trace.step_at ref now (stage_value stage) payload none s)
  unfolding entry_at Trace.step_at
  add-Replaces ref now stage payload p s r = record {
    enabled = r.enabled;
    max_entries = r.max_entries;
    captures = r.captures;
    objects =
        both_added now stage payload p.objects s.objects ref _ _ r.objects (Replaces-at p s ref r);
  }

  -- What `Replaces` speaks of is left alone when a capture is finished.
  abbrev SameCaptures : PromptInspector F → PromptInspector F → Type 0
  SameCaptures p q =
      (q.enabled ≡ p.enabled)
      × (q.max_entries ≡ p.max_entries)
      × (q.captures ≡ p.captures)
      × (q.objects ≡ p.objects)

  abbrev SameTraces : TraceStore F → TraceStore F → Type 0
  SameTraces s u =
      (u.enabled ≡ s.enabled)
      × (u.max_entries ≡ s.max_entries)
      × (u.traces ≡ s.traces)
      × (u.objects ≡ s.objects)

  finish-SameCaptures :
      (w : Writing) (agent_id : String) (tick : ℕ) (p : PromptInspector F)
      → SameCaptures p (finish_capture w agent_id tick p)
  unfolding finish_capture
  finish-SameCaptures w agent_id tick p = ground arith

  finish-SameTraces :
      (disk : Disk) (agent_id : String) (tick : ℕ) (s : TraceStore F)
      → SameTraces s (Trace.finish_capture disk agent_id tick s)
  unfolding Trace.finish_capture
  finish-SameTraces disk agent_id tick s = ground arith

  finish-Replaces :
      (w : Writing) (disk : Disk) (agent_id : String) (tick : ℕ) (p : PromptInspector F)
      (s : TraceStore F)
      → Replaces p s
      → Replaces (finish_capture w agent_id tick p) (Trace.finish_capture disk agent_id tick s)
  finish-Replaces w disk agent_id tick p s r =
      let (pe, pm, pc, po) = finish-SameCaptures w agent_id tick p in
      let (se, sm, sc, so) = finish-SameTraces disk agent_id tick s in
      record {
        enabled = se ∙ r.enabled ∙ sym pe;
        max_entries = sm ∙ r.max_entries ∙ sym pm;
        captures = sc ∙ r.captures ∙ sym pc;
        objects = ap (map forget) so ∙ r.objects ∙ sym (ap (map to_trace) po);
      }

  inspect-Replaces :
      (disk : Disk) (c : InspectorCall F) (p : PromptInspector F) (s : TraceStore F)
      → Replaces p s
      → Replaces (inspect p c) (call s (as_call disk c))
  unfolding inspect call clear Trace.clear
  inspect-Replaces disk (starts agent_id tick now) p s r = start-Replaces agent_id tick now p s r
  inspect-Replaces disk (adds ref now stage payload) p s r =
      add-Replaces ref now stage payload p s r
  inspect-Replaces disk (finishes w agent_id tick) p s r =
      finish-Replaces w disk agent_id tick p s r
  inspect-Replaces disk clears p s r = record {
    enabled = r.enabled;
    max_entries = r.max_entries;
    captures = refl;
    objects = r.objects;
  }

  pub inspect_all-Replaces :
      (disk : Disk) (cs : List (InspectorCall F)) (p : PromptInspector F) (s : TraceStore F)
      → Replaces p s
      → Replaces (foldl inspect p cs) (foldl call s (map (as_call disk) cs))
  inspect_all-Replaces disk [] p s r = r
  inspect_all-Replaces disk (c ∷ cs) p s r =
      inspect_all-Replaces disk cs (inspect p c) (call s (as_call disk c))
        (inspect-Replaces disk c p s r)
