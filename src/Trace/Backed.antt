-- ===== src/Trace/Backed.antt =====
-- The invariant of the store of captures: its keys, its bound, and the trace behind each entry.
use mathlib.Core.Bool.{or-true}
use mathlib.Core.Option.{some-injective}
use mathlib.Core.Path.{subst}
use agent_arena.Prelude.{
  ℕ, ◌≤◌, ◌<◌, ◌≡◌, ◌⊎◌, inl, inr, refl, sym, ap, ◌∙◌, String, true, false, List, [], ◌∷◌, ◌++◌,
  Option, none, some, length, get_elem?, set, ◌==◌, string_key, nat_key, pair_key, nat_beq,
  nat_beq_iff, if◌then◌else◌, arith, Bool-cases, Option-cases, beq_self, get_elem?-append,
  get_elem?-set, get_elem?-append_old,
}
use agent_arena.Prelude.Dict.{get, put, has, IsDict, get-put, put-IsDict, length-put, has-put}
use agent_arena.Trace.{TraceStore, new_trace, start_capture, deref}
use agent_arena.Trace.Evict.{
  Key, evict_oldest, evict_oldest-IsDict, length-evict_oldest, get-evict_oldest,
}
use agent_arena.Trace.Files.{ReasoningTrace}

-- The trace behind an entry carries the key's agent and tick.
pub record Backs {F : Type 0} (objects : List (ReasoningTrace F)) (k : Key) (ref : ℕ) : Type 0 where
  pub trace : ReasoningTrace F
  pub found : get_elem? objects ref ≡ some trace
  pub agent : trace.agent_id ≡ k.0
  pub tick : trace.tick ≡ k.1

pub record IsValid {F : Type 0} (s : TraceStore F) : Type 0 where
  pub distinct : IsDict s.traces
  pub bounded : length s.traces ≤ s.max_entries
  pub backed : (k : Key) (ref : ℕ) → get s.traces k ≡ some ref → Backs s.objects k ref

module _ {F : Type 0} where
  Backs-append :
      (objects : List (ReasoningTrace F)) (t : ReasoningTrace F) (k : Key) (ref : ℕ)
      → Backs objects k ref
      → Backs (objects ++ t ∷ []) k ref
  Backs-append objects t k ref b = record {
    trace = b.trace;
    found = get_elem?-append_old objects (t ∷ []) ref b.trace b.found;
    agent = b.agent;
    tick = b.tick;
  }

  pub Backs-set :
      (objects : List (ReasoningTrace F)) (i : ℕ) (t u : ReasoningTrace F) (k : Key) (ref : ℕ)
      → get_elem? objects i ≡ some t
      → u.agent_id ≡ t.agent_id
      → u.tick ≡ t.tick
      → Backs objects k ref
      → Backs (set objects i u) k ref
  Backs-set objects i t u k ref h p q b = elim (Bool-cases (nat_beq i ref)) [
    | inl same ↦
        let e : i ≡ ref = (nat_beq_iff i ref).0 same in
        let f : get_elem? objects ref ≡ some t =
          subst (λ (j : ℕ). get_elem? objects j ≡ some t) e h in
        let g : t ≡ b.trace = some-injective _ _ (sym f ∙ b.found) in
        record {
          trace = u;
          found = get_elem?-set objects i ref u t h ∙ rw same;
          agent = p ∙ ap (λ (x : ReasoningTrace F). x.agent_id) g ∙ b.agent;
          tick = q ∙ ap (λ (x : ReasoningTrace F). x.tick) g ∙ b.tick;
        }
    | inr other ↦ record {
      trace = b.trace;
      found = get_elem?-set objects i ref u t h ∙ rw other b.found;
      agent = b.agent;
      tick = b.tick;
    }
  ]

  -- A key that survives the eviction after a put is the new one, or was there before.
  evict_put :
      (s : TraceStore F) (a k : Key) (ref new : ℕ)
      → get (evict_oldest s.max_entries (put s.traces a new)) k ≡ some ref
      → (if a == k then some new else get s.traces k) ≡ some ref
  evict_put s a k ref new h = elim (get-evict_oldest s.max_entries (put s.traces a new) k) [
    | inl e ↦ sym (get-put s.traces a k new) ∙ sym e ∙ h
    | inr (_, gone, _) ↦ absurd (cc (gone, h))
  ]

  module _ (agent_id : String) (tick : ℕ) (now : String) (s : TraceStore F) where
    -- The store after a capture has started in an enabled store.
    abbrev pub started : TraceStore F
    started = record s {
      objects = s.objects ++ new_trace s agent_id tick now ∷ [];
      traces = evict_oldest s.max_entries (put s.traces (agent_id, tick) (length s.objects));
    }

    pub start_capture_on :
        s.enabled ≡ true → start_capture agent_id tick now s ≡ (some (length s.objects), started)
    unfolding start_capture
    start_capture_on h = simp h

    pub start_capture_off : s.enabled ≡ false → start_capture agent_id tick now s ≡ (none, s)
    unfolding start_capture
    start_capture_off h = simp h

    pub new-Backs : Backs started.objects (agent_id, tick) (length s.objects)
    new-Backs = record {
      trace = new_trace s agent_id tick now;
      found = get_elem?-append s.objects (new_trace s agent_id tick now ∷ []);
      agent = refl;
      tick = refl;
    }

    started-Backs :
        IsValid s
        → (k : Key) (ref : ℕ) → get started.traces k ≡ some ref
        → Backs started.objects k ref
    started-Backs v k ref h =
        let e = evict_put s (agent_id, tick) k ref (length s.objects) h in
        elim (Bool-cases ((agent_id, tick) == k)) [
          | inl same ↦
              subst (λ (r : ℕ). Backs started.objects k r) (some-injective _ _ (rw same at e))
                (subst (λ (j : Key). Backs started.objects j (length s.objects))
                  ((pair_key.beq_iff _ k).0 same) new-Backs)
          | inr other ↦ Backs-append s.objects _ k ref (v.backed k ref (rw other at e))
        ]

    started-IsValid : IsValid s → IsValid started
    started-IsValid v = record {
      distinct = evict_oldest-IsDict s.max_entries _ (put-IsDict s.traces _ _ v.distinct);
      bounded =
          length-evict_oldest s.max_entries _ (put-IsDict s.traces _ _ v.distinct)
            (ground (arith, length-put s.traces (agent_id, tick) (length s.objects), v.bounded));
      backed = started-Backs v;
    }

    pub start_capture-IsValid : IsValid s → IsValid (start_capture agent_id tick now s).1
    start_capture-IsValid v = elim (Bool-cases s.enabled) [
      | inl on ↦
          subst (λ (r : Option ℕ × TraceStore F). IsValid r.1) (sym (start_capture_on on))
            (started-IsValid v)
      | inr off ↦
          subst (λ (r : Option ℕ × TraceStore F). IsValid r.1) (sym (start_capture_off off)) v
    ]

    -- the reference stored at a key, or the reason why there is none
    pub get-started :
        (k : Key)
        → (get started.traces k
            ≡ (if (agent_id, tick) == k then some (length s.objects) else get s.traces k))
          ⊎ ((s.max_entries < length (put s.traces (agent_id, tick) (length s.objects)))
              × (get started.traces k ≡ none)
              × (k.1 ≤ tick)
              × ((j : Key) → has s.traces j ≡ true → k.1 ≤ j.1))
    get-started k =
        let new = length s.objects in
        let d = put s.traces (agent_id, tick) new in
        elim (get-evict_oldest s.max_entries d k) [
          | inl e ↦ inl (e ∙ get-put s.traces (agent_id, tick) k new)
          | inr (over, gone, least) ↦ inr (
            over,
            gone,
            least (agent_id, tick)
                (has-put s.traces (agent_id, tick) (agent_id, tick) new
                  ∙ rw (beq_self {A = Key} (agent_id, tick))),
            λ j m. least j (has-put s.traces (agent_id, tick) j new ∙ rw m (or-true _)),
          )
        ]

    old-Backs : IsValid s → (k : Key) → deref started (get s.traces k) ≡ deref s (get s.traces k)
    old-Backs v k = elim (Option-cases (get s.traces k)) [
      | inl absent ↦ rw absent
      | inr (ref, stored) ↦
          let b = v.backed k ref stored in
          rw stored (get_elem?-append_old s.objects _ ref b.trace b.found ∙ sym b.found)
    ]

    pub deref-started :
        IsValid s
        → (k : Key)
        → deref started (if (agent_id, tick) == k then some (length s.objects) else get s.traces k)
          ≡ (if (agent_id, tick) == k
              then some (new_trace s agent_id tick now)
              else deref s (get s.traces k))
    deref-started v k = elim (Bool-cases ((agent_id, tick) == k)) [
      | inl same ↦ rw same (get_elem?-append s.objects (new_trace s agent_id tick now ∷ []))
      | inr other ↦ rw other (old-Backs v k)
    ]
