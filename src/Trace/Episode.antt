-- ===== src/Trace/Episode.antt =====
-- `get_episode_traces`: reading an episode's file back.
use mathlib.Core.List.{Perm}
use mathlib.Core.Path.{subst}
use agent_arena.Prelude.{
  ◌≡◌, refl, sym, ap, ◌∙◌, String, List, [], ◌∷◌, Option, none, some, map, string_key, nat_key,
  pair_key,
}
use agent_arena.Prelude.Dict.{get}
use agent_arena.Prelude.Json.{Json}
use agent_arena.Prelude.Result.{ok, raise}
use agent_arena.Prelude.Sort.{sort_by, sort_by-IsSorted, sort_by-perm, IsSorted}
use agent_arena.Trace.{TraceStore}
use agent_arena.Trace.Files.{
  ReasoningTrace, trace_to_dict, trace_from_dict, trace_from_dict-trace_to_dict,
}
use agent_arena.Trace.Query.{by_tick_agent, by_tick_agent-IsOrder}

module _ {F : Type 0} where
  -- The loop over the lines stops at the first one that cannot be read; what was read is kept.
  unfoldable pub read_lines : List (Json F) → List (ReasoningTrace F)
  read_lines [] = []
  read_lines (line ∷ lines) = elim (trace_from_dict line) [
    | ok t ↦ t ∷ read_lines lines
    | raise e ↦ []
  ]

  abbrev read_file : Option (List (Json F)) → List (ReasoningTrace F)
  read_file none = []
  read_file (some lines) = sort_by by_tick_agent (read_lines lines)

  unfoldable pub get_episode_traces : TraceStore F → String → List (ReasoningTrace F)
  unfolding read_lines
  get_episode_traces s episode_id = read_file (get s.files episode_id)

  read_lines-trace_to_dict : (ts : List (ReasoningTrace F)) → read_lines (map trace_to_dict ts) ≡ ts
  unfolding read_lines
  read_lines-trace_to_dict [] = refl
  read_lines-trace_to_dict (t ∷ ts) =
      rw (trace_from_dict-trace_to_dict t, read_lines) (ap (◌∷◌ t) (read_lines-trace_to_dict ts))

  -- If a file holds the dumps of some traces, `get_episode_traces` returns these traces, sorted by
  -- tick and within a tick by agent, each as often as it was written.
  pub get_episode_traces_exact :
      (s : TraceStore F) (episode_id : String) (ts : List (ReasoningTrace F))
      → get s.files episode_id ≡ some (map trace_to_dict ts)
      → (get_episode_traces s episode_id ≡ sort_by by_tick_agent ts)
        × IsSorted by_tick_agent (get_episode_traces s episode_id)
        × Perm (get_episode_traces s episode_id) ts
  unfolding get_episode_traces
  get_episode_traces_exact s episode_id ts h =
      let e : get_episode_traces s episode_id ≡ sort_by by_tick_agent ts =
        ap read_file h ∙ ap (sort_by by_tick_agent) (read_lines-trace_to_dict ts) in
      (
        e,
        subst (IsSorted by_tick_agent) (sym e)
            (sort_by-IsSorted by_tick_agent by_tick_agent-IsOrder ts),
        subst (λ (l : List (ReasoningTrace F)). Perm l ts) (sym e) (sort_by-perm by_tick_agent ts),
      )
