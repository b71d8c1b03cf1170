-- ===== src/Trace/Capture.antt =====
-- What a capture can be read back as.
use mathlib.Core.Bool.{or-true}
use mathlib.Core.Path.{subst}
use agent_arena.Prelude.{
  ℕ, ◌≤◌, ◌<◌, ◌≡◌, ◌⊎◌, inl, inr, refl, sym, ap, ◌∙◌, String, true, false, Option, none, some,
  length, ◌==◌, string_key, nat_key, pair_key, if◌then◌else◌, ltb, arith, Bool-cases, beq_self,
}
use agent_arena.Prelude.Dict.{Dict, get, put, has, get-del, get-put, length-put, has-put}
use agent_arena.Trace.{TraceStore, new_trace, start_capture, deref, get_capture}
use agent_arena.Trace.Evict.{
  Key, evict_oldest, evict_oldest_least, evict_oldest-cases, oldest_key-has, oldest_key-le,
}
use agent_arena.Trace.Files.{ReasoningTrace}
use agent_arena.Trace.Backed.{IsValid, started, start_capture_on, deref-started}

module _ {F : Type 0} (agent_id : String) (tick : ℕ) (now : String) (s : TraceStore F) where
  abbrev begun : TraceStore F
  begun = started agent_id tick now s

  -- what is looked up when the new trace stands beside the old ones
  abbrev with_new : Key → Option (ReasoningTrace F)
  with_new k =
      if (agent_id, tick) == k then some (new_trace s agent_id tick now) else get_capture s k.0 k.1

  -- the store after a start that evicts nothing
  abbrev pub Grown : TraceStore F → Type 0
  Grown s' = (k : Key) → get_capture s' k.0 k.1 ≡ with_new k

  -- the store after a start that evicts the entry at `o`
  abbrev pub Lost : Key → TraceStore F → Type 0
  Lost o s' =
      (get_capture s' o.0 o.1 ≡ none)
      × ((k : Key) → (o == k) ≡ false → get_capture s' k.0 k.1 ≡ with_new k)
      × (((agent_id, tick) ≡ o) ⊎ (has s.traces o ≡ true))
      × (o.1 ≤ tick)
      × ((j : Key) → has s.traces j ≡ true → o.1 ≤ j.1)

  abbrev pub HasRoom : Type 0
  HasRoom = (has s.traces (agent_id, tick) ≡ true) ⊎ (length s.traces < s.max_entries)

  abbrev put_new : Dict Key ℕ
  put_new = put s.traces (agent_id, tick) (length s.objects)

  length-put_new : IsValid s → HasRoom → length put_new ≤ s.max_entries
  length-put_new v room =
      ground (arith, length-put s.traces (agent_id, tick) (length s.objects), v.bounded, room)

  begun-with_new :
      IsValid s
      → (k : Key) → get begun.traces k ≡ get put_new k
      → get_capture begun k.0 k.1 ≡ with_new k
  unfolding get_capture
  begun-with_new v k e =
      ap (deref begun) (e ∙ get-put s.traces (agent_id, tick) k (length s.objects))
      ∙ deref-started agent_id tick now s v k

  begun-Grown : IsValid s → HasRoom → Grown begun
  begun-Grown v room k = elim (evict_oldest-cases s.max_entries put_new) [
    | inl (e, _) ↦ begun-with_new v k (ap (λ (d : Dict Key ℕ). get d k) e)
    | inr (_, _, _, over) ↦ absurd (omega (arith, over, length-put_new v room))
  ]

  was_put : (j : Key) → has put_new j ≡ true → ((agent_id, tick) ≡ j) ⊎ (has s.traces j ≡ true)
  was_put j m = elim (Bool-cases ((agent_id, tick) == j)) [
    | inl same ↦ inl ((pair_key.beq_iff _ j).0 same)
    | inr other ↦ inr (sym (has-put s.traces (agent_id, tick) j (length s.objects) ∙ rw other) ∙ m)
  ]

  begun-Lost :
      IsValid s
      → has s.traces (agent_id, tick) ≡ false
      → length s.traces ≡ s.max_entries
      → (o : Key) × Lost o begun
  unfolding get_capture
  begun-Lost v absent full = elim (evict_oldest-cases s.max_entries put_new) [
    | inl (_, within) ↦ absurd (
        ground
          (arith, length-put s.traces (agent_id, tick) (length s.objects), absent, full, within))
    | inr (o, oldest, e, _) ↦
        let gone : get begun.traces o ≡ none =
          rw (e, get-del put_new o o, beq_self {A = Key} o) refl in
        (
          o,
          (
            ap (deref begun) gone,
            λ k other. begun-with_new v k (rw (e, get-del put_new o k, other)),
            was_put o (oldest_key-has put_new o oldest),
            oldest_key-le put_new o (agent_id, tick) oldest
                (has-put s.traces (agent_id, tick) (agent_id, tick) (length s.objects)
                  ∙ rw (beq_self {A = Key} (agent_id, tick))),
            λ j m.
                oldest_key-le put_new o j oldest
                  (has-put s.traces (agent_id, tick) j (length s.objects) ∙ rw m (or-true _)),
          ),
        )
  ]

  -- the statement below, of any store
  abbrev pub Captured : TraceStore F → Type 0
  Captured s' =
      (HasRoom × Grown s')
      ⊎ ((has s.traces (agent_id, tick) ≡ false)
          × (length s.traces ≡ s.max_entries)
          × ((o : Key) × Lost o s'))

  begun-Captured : IsValid s → Captured begun
  begun-Captured v = elim (Bool-cases (has s.traces (agent_id, tick))) [
    | inl stored ↦ inl (inl stored, begun-Grown v (inl stored))
    | inr absent ↦ elim (Bool-cases (ltb (length s.traces) s.max_entries)) [
      | inl p ↦
          let below : length s.traces < s.max_entries = ground arith in
          inl (inr below, begun-Grown v (inr below))
      | inr p ↦
          let full : length s.traces ≡ s.max_entries = ground (arith, v.bounded) in
          inr (absent, full, begun-Lost v absent full)
    ]
  ]

  -- What can be looked up after a capture has started in a valid and enabled store. Either its key
  -- is stored already or the store has room, and then every key reads as the new trace at its own
  -- key and as before elsewhere. Or the key is new and the store full, and then one entry is gone:
  -- nothing is found at its key, and every other key reads as in the first case. That entry is the
  -- new one or was stored, and its tick is at most the new one and that of every stored entry.
  pub get_capture-start_capture :
      IsValid s → s.enabled ≡ true → Captured (start_capture agent_id tick now s).1
  get_capture-start_capture v on =
      subst (λ (r : Option ℕ × TraceStore F). Captured r.1)
        (sym (start_capture_on agent_id tick now s on)) (begun-Captured v)

  -- A comment in `start_capture` speaks of the oldest entry, but in an enabled and full store
  -- whose entries all have greater ticks, as after a tick reset, the trace just started is the
  -- one that is lost.
  pub start_capture_lost :
      s.enabled ≡ true
      → s.max_entries ≤ length s.traces
      → ((j : Key) → has s.traces j ≡ true → tick < j.1)
      → get_capture (start_capture agent_id tick now s).1 agent_id tick ≡ none
  unfolding get_capture
  start_capture_lost on full newer =
      let d = put s.traces (agent_id, tick) (length s.objects) in
      let lost : get (evict_oldest s.max_entries d) (agent_id, tick) ≡ none =
        evict_oldest_least s.max_entries d (agent_id, tick) begun_full
          (has-put s.traces (agent_id, tick) (agent_id, tick) (length s.objects)
            ∙ rw (beq_self {A = Key} (agent_id, tick)))
          (λ j m. begun_newer j m) in
      subst (λ (r : Option ℕ × TraceStore F). deref r.1 (get r.1.traces (agent_id, tick)) ≡ none)
        (sym (start_capture_on agent_id tick now s on)) (ap (deref begun) lost)
    where
      begun_newer :
          (j : Key)
          → has (put s.traces (agent_id, tick) (length s.objects)) j ≡ true
          → ((agent_id, tick) ≡ j) ⊎ (tick < j.1)
      begun_newer j m = elim (Bool-cases ((agent_id, tick) == j)) [
        | inl same ↦ inl ((pair_key.beq_iff _ j).0 same)
        | inr other ↦
            inr (
              newer j (sym (has-put s.traces (agent_id, tick) j (length s.objects) ∙ rw other) ∙ m))
      ]

      absent : has s.traces (agent_id, tick) ≡ false
      absent = elim (Bool-cases (has s.traces (agent_id, tick))) [
        | inl h ↦ absurd (omega (arith, newer (agent_id, tick) h))
        | inr h ↦ h
      ]

      begun_full : s.max_entries < length (put s.traces (agent_id, tick) (length s.objects))
      begun_full =
          rw (length-put s.traces (agent_id, tick) (length s.objects), absent) (omega arith)
