-- ===== src/Trace/Query.antt =====
-- `get_captures_for_agent` of the `TraceStore`.
use mathlib.Core.List.{filter_map, Memᴰ}
use mathlib.Core.Option.{some-injective}
use mathlib.Core.Path.{subst₂}
use agent_arena.Prelude.{
  ℕ, ◌≡◌, ◌↔◌, inl, inr, refl, sym, ap, ◌∙◌, String, Bool, true, false, ◌&&◌, List, Option, none,
  some, get_elem?, keep, ltb, leb, ◌==◌, string_key, nat_key, pair_key, nat_beq, if◌then◌else◌,
  arith, Option-cases, mem-keep,
}
use agent_arena.Prelude.Dict.{get, get_of_mem, mem_of_get}
use agent_arena.Prelude.Maps.{mem_of_mem-filter_map, mem-filter_map_of}
use agent_arena.Prelude.Sort.{
  sort_by, ascending, mem-sort_by, sort_by-IsSorted, IsOrder, ascending-IsOrder, IsSorted,
}
use agent_arena.Trace.{TraceStore, deref, get_capture}
use agent_arena.Trace.Evict.{Key}
use agent_arena.Trace.Files.{ReasoningTrace}
use agent_arena.Prelude.Text.{str_leb, str_leb_total, str_leb_trans}
use agent_arena.Trace.Backed.{IsValid}

-- `(tick_start is None or tick >= tick_start) and (tick_end is None or tick <= tick_end)`
abbrev pub from_tick : Option ℕ → ℕ → Bool
from_tick none tick = true
from_tick (some lo) tick = leb lo tick

abbrev pub to_tick : Option ℕ → ℕ → Bool
to_tick none tick = true
to_tick (some hi) tick = leb tick hi

abbrev pub in_range : Option ℕ → Option ℕ → Key × ℕ → Bool
in_range tick_start tick_end e = from_tick tick_start e.0.1 && to_tick tick_end e.0.1

and_left : (a b : Bool) → (a && b) ≡ true → a ≡ true
and_left a b h = ground arith

and_right : (a b : Bool) → (a && b) ≡ true → b ≡ true
and_right a b h = ground arith

for_agent_parts :
    (agent_id : String) (lo hi : Option ℕ) (k : Key) (ref : ℕ)
    → ((k.0 == agent_id && in_range lo hi (k, ref)) ≡ true)
      ↔ ((k.0 ≡ agent_id) × (from_tick lo k.1 ≡ true) × (to_tick hi k.1 ≡ true))
for_agent_parts agent_id lo hi k ref = (
  λ h. (
    (string_key.beq_iff k.0 agent_id).0 (and_left _ _ h),
    and_left _ _ (and_right _ _ h),
    and_right (from_tick lo k.1) _ (and_right _ _ h),
  ),
  λ (a, l, h). rw ((string_key.beq_iff k.0 agent_id).1 a, l, h),
)

module _ {F : Type 0} where
  -- the comprehension over `self.traces.items()`, as far as the trace behind each entry
  unfoldable pub select : TraceStore F → (Key × ℕ → Bool) → List (ReasoningTrace F)
  select s p = filter_map (λ e. get_elem? s.objects e.1) (keep p s.traces)

  abbrev pub by_tick : ReasoningTrace F → ReasoningTrace F → Bool
  by_tick = ascending (λ t. t.tick)

  -- the key `(t.tick, t.agent_id)`
  abbrev pub by_tick_agent : ReasoningTrace F → ReasoningTrace F → Bool
  by_tick_agent t u =
      if ltb t.tick u.tick
      then true
      else if nat_beq t.tick u.tick
      then str_leb t.agent_id u.agent_id
      else false

  unfoldable pub get_captures_for_agent :
      TraceStore F → String → Option ℕ → Option ℕ → List (ReasoningTrace F)
  unfolding select
  get_captures_for_agent s agent_id tick_start tick_end =
      sort_by by_tick (select s (λ e. e.0.0 == agent_id && in_range tick_start tick_end e))

  unfoldable pub get_all_captures : TraceStore F → Option ℕ → Option ℕ → List (ReasoningTrace F)
  unfolding select
  get_all_captures s tick_start tick_end =
      sort_by by_tick_agent (select s (in_range tick_start tick_end))

  pub by_tick_agent-IsOrder : IsOrder by_tick_agent
  by_tick_agent-IsOrder = record {
    total = λ t u. ground (arith, str_leb_total t.agent_id u.agent_id);
    trans = λ t u w h k. ground (arith, str_leb_trans t.agent_id u.agent_id w.agent_id);
  }

  module _ (s : TraceStore F) (v : IsValid s) (p : Key × ℕ → Bool) (t : ReasoningTrace F) where
    -- an entry that passes the test, and its trace
    abbrev Chosen : Type 0
    Chosen =
        (k : Key) × (ref : ℕ) × (get s.traces k ≡ some ref)
        × (p (k, ref) ≡ true)
        × (get_capture s k.0 k.1 ≡ some t)

    chosen_of_mem : Memᴰ t (select s p) → Chosen
    unfolding select get_capture
    chosen_of_mem m =
        let (e, kept, found) =
          mem_of_mem-filter_map (λ (e : Key × ℕ). get_elem? s.objects e.1) (keep p s.traces) t m in
        let (stored, passed) = (mem-keep p e s.traces).0 kept in
        let g = get_of_mem s.traces e.0 e.1 v.distinct stored in
        (e.0, e.1, g, passed, ap (deref s) g ∙ found)

    mem_of_chosen : Chosen → Memᴰ t (select s p)
    unfolding select get_capture
    mem_of_chosen (k, ref, g, passed, found) =
        mem-filter_map_of (λ (e : Key × ℕ). get_elem? s.objects e.1) (keep p s.traces) t (k, ref)
          ((mem-keep p (k, ref) s.traces).1 (mem_of_get s.traces k ref g, passed))
          (sym (ap (deref s) g) ∙ found)

  -- A stored trace carries its key.
  stored_key :
      (s : TraceStore F)
      → IsValid s
      → (k : Key) (t : ReasoningTrace F) → get_capture s k.0 k.1 ≡ some t
      → (t.agent_id ≡ k.0) × (t.tick ≡ k.1) × ((ref : ℕ) × (get s.traces k ≡ some ref))
  unfolding get_capture
  stored_key s v k t h = elim (Option-cases (get s.traces k)) [
    | inl absent ↦ absurd (cc (absent, h))
    | inr (ref, stored) ↦
        let b = v.backed k ref stored in
        let e : b.trace ≡ t = some-injective _ _ (sym b.found ∙ sym (ap (deref s) stored) ∙ h) in
        (
          ap (λ (x : ReasoningTrace F). x.agent_id) (sym e) ∙ b.agent,
          ap (λ (x : ReasoningTrace F). x.tick) (sym e) ∙ b.tick,
          (ref, stored),
        )
  ]

  -- `get_capture` finds the trace at a tick in the range.
  abbrev pub IsFound : TraceStore F → Option ℕ → Option ℕ → ReasoningTrace F → String → ℕ → Type 0
  IsFound s lo hi t agent_id tick =
      (get_capture s agent_id tick ≡ some t) × (from_tick lo tick ≡ true) × (to_tick hi tick ≡ true)

  -- In a valid store, `get_captures_for_agent` returns exactly the agent's captures in the range of
  -- ticks, each the one that `get_capture` finds, by ascending tick.
  pub get_captures_for_agent_exact :
      (s : TraceStore F) (agent_id : String) (lo hi : Option ℕ)
      → IsValid s
      → IsSorted by_tick (get_captures_for_agent s agent_id lo hi)
        × ((t : ReasoningTrace F)
            → Memᴰ t (get_captures_for_agent s agent_id lo hi) ↔ IsFound s lo hi t agent_id t.tick)
  unfolding get_captures_for_agent
  get_captures_for_agent_exact s agent_id lo hi v = (
    sort_by-IsSorted by_tick (ascending-IsOrder _) _,
    λ t. (
      λ m.
          let (k, ref, g, passed, found) = chosen_of_mem s v _ t ((mem-sort_by by_tick t _).0 m) in
          let (agent, tick, _) = stored_key s v k t found in
          let (a, l, h) = (for_agent_parts agent_id lo hi k ref).0 passed in
          subst₂ (IsFound s lo hi t) a (sym tick) (found, l, h),
      λ (found, l, h).
          let (_, _, (ref, g)) = stored_key s v (agent_id, t.tick) t found in
          (mem-sort_by by_tick t _).1 (
            mem_of_chosen s v _ t (
              (agent_id, t.tick),
              ref,
              g,
              (for_agent_parts agent_id lo hi _ ref).1 (refl, l, h),
              found,
            )),
    ),
  )

  -- In a valid store, `get_all_captures` returns exactly the captures in the range of ticks, by
  -- ascending tick and within a tick by agent.
  pub get_all_captures_exact :
      (s : TraceStore F) (lo hi : Option ℕ)
      → IsValid s
      → IsSorted by_tick_agent (get_all_captures s lo hi)
        × ((t : ReasoningTrace F)
            → Memᴰ t (get_all_captures s lo hi) ↔ IsFound s lo hi t t.agent_id t.tick)
  unfolding get_all_captures
  get_all_captures_exact s lo hi v = (
    sort_by-IsSorted by_tick_agent by_tick_agent-IsOrder _,
    λ t. (
      λ m.
          let (k, ref, g, passed, found) =
            chosen_of_mem s v _ t ((mem-sort_by by_tick_agent t _).0 m) in
          let (agent, tick, _) = stored_key s v k t found in
          subst₂ (IsFound s lo hi t) (sym agent) (sym tick)
            (found, and_left _ _ passed, and_right (from_tick lo k.1) _ passed),
      λ (found, l, h).
          let (_, _, (ref, g)) = stored_key s v (t.agent_id, t.tick) t found in
          (mem-sort_by by_tick_agent t _).1
            (mem_of_chosen s v _ t ((t.agent_id, t.tick), ref, g, rw (l, h), found)),
    ),
  )
