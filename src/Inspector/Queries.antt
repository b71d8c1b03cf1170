-- ===== src/Inspector/Queries.antt =====
-- The queries of the `PromptInspector` and of a `TraceStore` in its place.
use mathlib.Core.List.{foldl, filter_map}
use agent_arena.Prelude.{
  ℕ, String, Bool, ◌≡◌, refl, sym, ap, ◌∙◌, List, map, Option, none, some, get_elem?, keep,
  string_key, nat_key, pair_key,
}
use agent_arena.Prelude.Dict.{Dict, get}
use agent_arena.Prelude.Maps.{map_option, map-sort_by, map-filter_map}
use agent_arena.Prelude.Sort.{sort_by}
use agent_arena.Trace.{TraceStore, Disk, map_step, write_at}
use agent_arena.Trace as Trace
use agent_arena.Trace.Calls.{call}
use agent_arena.Trace.Evict.{Key}
use agent_arena.Trace.Files.{ReasoningTrace}
use agent_arena.Trace.Query as Query
use agent_arena.Trace.Query.{in_range}
use agent_arena.Inspector.{
  PromptInspector, deref, get_capture, select, by_tick, by_tick_agent, get_captures_for_agent,
  get_all_captures,
}
use agent_arena.Inspector.Replaced.{
  InspectorCall, inspect, as_call, to_trace, forget, Replaces, Replaces-at, inspect_all-Replaces,
}

module _ {F : Type 0} where
  -- `p` returns the captures that `s` returns, in the same order and with the same entries.
  abbrev pub Answers : PromptInspector F → TraceStore F → Type 0
  Answers p s =
      ((agent_id : String) (tick : ℕ)
        → map_option to_trace (get_capture p agent_id tick)
          ≡ map_option forget (Trace.get_capture s agent_id tick))
      × ((agent_id : String) (lo hi : Option ℕ)
          → map to_trace (get_captures_for_agent p agent_id lo hi)
            ≡ map forget (Query.get_captures_for_agent s agent_id lo hi))
      × ((lo hi : Option ℕ)
          → map to_trace (get_all_captures p lo hi) ≡ map forget (Query.get_all_captures s lo hi))

  deref-Replaces :
      (p : PromptInspector F) (s : TraceStore F) (o : Option ℕ)
      → Replaces p s
      → map_option to_trace (deref p o) ≡ map_option forget (Trace.deref s o)
  deref-Replaces p s none r = refl
  deref-Replaces p s (some ref) r = sym (Replaces-at p s ref r)

  answer_one :
      (p : PromptInspector F) (s : TraceStore F)
      → Replaces p s
      → (agent_id : String) (tick : ℕ)
      → map_option to_trace (get_capture p agent_id tick)
        ≡ map_option forget (Trace.get_capture s agent_id tick)
  unfolding get_capture Trace.get_capture
  answer_one p s r agent_id tick =
      deref-Replaces p s (get p.captures (agent_id, tick)) r
      ∙ ap (λ (d : Dict Key ℕ). map_option forget (Trace.deref s (get d (agent_id, tick))))
          (sym r.captures)

  answer_select :
      (p : PromptInspector F) (s : TraceStore F)
      → Replaces p s
      → (test : Key × ℕ → Bool) → map to_trace (select p test) ≡ map forget (Query.select s test)
  unfolding select Query.select
  answer_select p s r test =
      let seen : Key × ℕ → Option (ReasoningTrace F) =
        λ e. map_option forget (get_elem? s.objects e.1) in
      map-filter_map to_trace (λ e. get_elem? p.objects e.1) seen (λ e. Replaces-at p s e.1 r)
        (keep test p.captures)
      ∙ ap (λ (d : Dict Key ℕ). filter_map seen (keep test d)) (sym r.captures)
      ∙ sym (
          map-filter_map forget (λ e. get_elem? s.objects e.1) seen (λ e. refl)
            (keep test s.traces))

  answer_agent :
      (p : PromptInspector F) (s : TraceStore F)
      → Replaces p s
      → (agent_id : String) (lo hi : Option ℕ)
      → map to_trace (get_captures_for_agent p agent_id lo hi)
        ≡ map forget (Query.get_captures_for_agent s agent_id lo hi)
  unfolding get_captures_for_agent Query.get_captures_for_agent
  answer_agent p s r agent_id lo hi =
      map-sort_by to_trace by_tick Query.by_tick (λ a b. refl) _
      ∙ ap (sort_by Query.by_tick) (answer_select p s r _)
      ∙ sym (map-sort_by forget Query.by_tick Query.by_tick (λ a b. refl) _)

  answer_all :
      (p : PromptInspector F) (s : TraceStore F)
      → Replaces p s
      → (lo hi : Option ℕ)
      → map to_trace (get_all_captures p lo hi) ≡ map forget (Query.get_all_captures s lo hi)
  unfolding get_all_captures Query.get_all_captures
  answer_all p s r lo hi =
      map-sort_by to_trace by_tick_agent Query.by_tick_agent (λ a b. refl) _
      ∙ ap (sort_by Query.by_tick_agent) (answer_select p s r _)
      ∙ sym (map-sort_by forget Query.by_tick_agent Query.by_tick_agent (λ a b. refl) _)

  -- Whatever is called on a `PromptInspector`, a `TraceStore` that starts with the same captures
  -- and bound and takes its place answers every query with the same captures, apart from the
  -- episode that it adds.
  pub inspect-Answers :
      (disk : Disk) (cs : List (InspectorCall F)) (p : PromptInspector F) (s : TraceStore F)
      → Replaces p s
      → Answers (foldl inspect p cs) (foldl call s (map (as_call disk) cs))
  inspect-Answers disk cs p s r =
      let r' = inspect_all-Replaces disk cs p s r in
      let p' = foldl inspect p cs in
      let s' = foldl call s (map (as_call disk) cs) in
      (answer_one p' s' r', answer_agent p' s' r', answer_all p' s' r')
