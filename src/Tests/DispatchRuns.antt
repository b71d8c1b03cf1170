-- ===== src/Tests/DispatchRuns.antt =====
-- A dispatcher with one tool, and an inspector beside a trace store.
use mathlib.Core.List.{foldl}
use agent_arena.Prelude.{
  ℕ, true, false, ◌≡◌, ◌↔◌, refl, List, [], ◌∷◌, map, some, string_key, pair_key, nat_key,
}
use agent_arena.Prelude.Dict.{get, put}
use agent_arena.Prelude.Json.{Fields, bool, str, arr, done, field, get_field}
use agent_arena.Prelude.Result.{ok, raise, Exn}
use agent_arena.Dispatch.{
  Tool, ToolDispatcher, init, register_tool, execute_tool, items_given, all_given,
}
use agent_arena.Dispatch.Laws.{
  IsSynced, registers, unregisters, Reaches, changes-IsSynced, text_items, Ran, execute_tool-Ran,
}
use agent_arena.Inspector.{InspectorStage, PromptInspector, Writing}
use agent_arena.Inspector.Replaced.{
  InspectorCall, starts, adds, finishes, inspect, as_call, Replaces,
}
use agent_arena.Inspector.Queries.{Answers, inspect-Answers}
use agent_arena.Trace.Calls.{call}
use agent_arena.Tests.TraceRuns.{fresh, good}

-- move_to(target): raises unless the target is a text
abbrev move_to : Tool ℕ
move_to parameters = elim (get_field parameters "target") [
  | some (str s) ↦ ok (str s)
  | _ ↦ raise (Exn.value_error "bad target")
]

abbrev needs_target : Fields ℕ
needs_target = field "required" (arr (text_items ("target" ∷ []))) done

abbrev to_berry : Fields ℕ
to_berry = field "target" (str "berry") done

abbrev moving : ToolDispatcher ℕ
moving = record {
  tools = ("move_to", move_to) ∷ [];
  schemas =
      (
        "move_to",
        record {
          name = "move_to";
          description = "Move";
          parameters = needs_target;
          returns = done;
        },
      )
      ∷ [];
}

moving-IsSynced : IsSynced moving
moving-IsSynced = record { same_names = refl; named = (refl, tt) }

registered : register_tool "move_to" move_to "Move" needs_target done init ≡ moving
unfolding register_tool init put
registered = refl

changes-IsSynced_example :
    Reaches
      (registers "idle" move_to "Wait" done done ∷ unregisters "move_to" ∷ unregisters "jump" ∷ [])
      moving
changes-IsSynced_example =
    changes-IsSynced
      (registers "idle" move_to "Wait" done done ∷ unregisters "move_to" ∷ unregisters "jump" ∷ [])
      moving moving-IsSynced

execute_tool-Ran_example :
    (get_field (execute_tool moving "move_to" to_berry) "success" ≡ some (bool true))
    ↔ Ran moving "move_to" to_berry (execute_tool moving "move_to" to_berry)
execute_tool-Ran_example = execute_tool-Ran moving "move_to" to_berry

moved : get_field (execute_tool moving "move_to" to_berry) "success" ≡ some (bool true)
unfolding execute_tool get get_field items_given all_given
moved = refl

not_moved : get_field (execute_tool moving "move_to" done) "success" ≡ some (bool false)
unfolding execute_tool get get_field items_given all_given
not_moved = refl

abbrev inspector : PromptInspector ℕ
inspector = record {
  enabled = true;
  max_entries = 1;
  log_to_file = true;
  objects = [];
  captures = [];
  files = [];
}

inspector-Replaces : Replaces inspector fresh
inspector-Replaces = record { enabled = refl; max_entries = refl; captures = refl; objects = refl }

abbrev inspections : List (InspectorCall ℕ)
inspections =
    starts "a" 1 "t0"
    ∷ adds 0 "t1" InspectorStage.decision done
    ∷ finishes Writing.written "a" 1
    ∷ starts "b" 2 "t2"
    ∷ []

inspect-Answers_example :
    Answers
      (foldl inspect inspector inspections)
      (foldl call fresh (map (as_call good) inspections))
inspect-Answers_example = inspect-Answers good inspections inspector fresh inspector-Replaces
