-- ===== src/Behavior/Response.antt =====
-- python/agent_runtime/schemas.py: `AgentDecision`, and how the answer of a language model is read.
-- A text is the list of its characters. `re`, `json.loads` (`none` for a `JSONDecodeError`) and
-- `float` are arguments: a pattern is a function to what its group matches.
pub mod Embedded
pub mod Decided
use Prim.Native.Char.{Char, code}
use agent_arena.Prelude.{
  ℕ, zero, suc, String, Bool, true, false, ◌&&◌, not, List, [], ◌∷◌, ◌++◌, Option, none, some,
  nat_beq, string_key, if◌then◌else◌,
}
use agent_arena.Prelude.Floats.{Floats}
use agent_arena.Prelude.Int.{ℤ, pos, negsuc}
use agent_arena.Prelude.Json.{
  Json, Items, Fields, null, bool, int, float, str, arr, obj, end, item, done, field, get_field,
  as_obj,
}
use agent_arena.Prelude.Result.{Result, ok, raise, Exn, ◌>>=◌}
use agent_arena.Schemas.{to_items}

pub record AgentDecision (F : Type 0) : Type 0 where
  pub tool : Json F
  pub params : Json F
  pub reasoning : Option (Json F)

abbrev pub Text : Type 0
Text = List Char

pub record Patterns (F : Type 0) : Type 0 where
  pub loads : Text → Option (Json F)
  -- `THINKING:\s*(.*?)(?=ACTION:|$)`, stripped
  pub thinking : Text → Option String
  -- `ACTION:\s*(\{.*)`
  pub action : Text → Option Text
  -- the body of a block between three backquotes, and `\{[^{}]*"tool"[^{}]*\}`
  pub code_block : Text → Option Text
  pub tool_object : Text → Option Text
  -- `(\{"tool".*)`
  pub tool_start : Text → Option Text
  -- `"tool"\s*:\s*"([^"]+)"`, `"params"\s*:\s*(\{[^{}]*\})` and `"target"\s*:\s*"([^"]+)"`
  pub tool_name : Text → Option String
  pub params_text : Text → Option Text
  pub target : Text → Option String
  -- the numbers in `"target_position"\s*:\s*\[([-\d.,\s]+)\]`, if all are numbers
  pub target_position : Text → Option (List F)

abbrev pub is_open : Char → Bool
is_open c = nat_beq (code c) b'{'

abbrev pub is_close : Char → Bool
is_close c = nat_beq (code c) b'}'

abbrev pub up : ℤ → ℤ
up (pos n) = pos (suc n)
up (negsuc zero) = pos 0
up (negsuc (suc n)) = negsuc n

abbrev pub down : ℤ → ℤ
down (pos (suc n)) = pos n
down (pos zero) = negsuc 0
down (negsuc n) = negsuc (suc n)

abbrev pub is_zero : ℤ → Bool
is_zero (pos zero) = true
is_zero _ = false

-- `find("{")`: the text from the first brace on
unfoldable pub from_brace : Text → Option Text
from_brace [] = none
from_brace (c ∷ s) = if is_open c then some (c ∷ s) else from_brace s

-- The loops' variables: the depth, and the text from `brace_start` up to here, if it lies before.
pub record Scan : Type 0 where
  pub depth : ℤ
  pub taken : Option Text

abbrev pub depth_after : Char → ℤ → ℤ
depth_after c d = if is_open c then up d else if is_close c then down d else d

abbrev pub taken_after : Char → Option Text → Option Text
taken_after c (some t) = some (t ++ c ∷ [])
taken_after c none = if is_open c then some (c ∷ []) else none

abbrev pub closes : Char → Scan → Bool
closes c x = not (is_open c) && is_close c && is_zero (down x.depth)

abbrev pub object_text : Option Text → Text
object_text none = []
object_text (some t) = t

abbrev pub or_try {ℓ} : {A : Type ℓ} → Option A → Option A → Option A
or_try (some a) next = some a
or_try none next = next

abbrev pub next_scan : Char → Scan → Scan
next_scan c x =
    if closes c x
    then record { depth = pos 0; taken = none }
    else record { depth = depth_after c x.depth; taken = taken_after c x.taken }

abbrev pub at_start : Scan
at_start = record { depth = pos 0; taken = none }

module _ {F : Type 0} where
  abbrev stopped : Bool → Option Text → Option (Json F) → Option (Json F)
  stopped true none rest = none
  stopped _ _ rest = rest

  abbrev pub scan_from : (Text → Scan → Option (Json F)) → Option Text → Option (Json F)
  scan_from scan none = none
  scan_from scan (some s) = scan s at_start

  -- `data is None`, which also a parsed `null` is
  abbrev pub not_null : Option (Json F) → Option (Json F)
  not_null (some null) = none
  not_null j = j

module _ {F : Type 0} (p : Patterns F) where
  -- `json.loads` where an object closes
  abbrev pub tried : Char → Scan → Option (Json F)
  tried c x = if closes c x then p.loads (object_text (taken_after c x.taken)) else none

  -- the loop over the text after "ACTION:": a text that does not parse grows on
  unfoldable pub scan_action : Text → Scan → Option (Json F)
  scan_action [] x = none
  scan_action (c ∷ s) x =
      or_try (tried c x)
        (scan_action s (record { depth = depth_after c x.depth; taken = taken_after c x.taken }))

  -- the loop over the whole answer: after a text that does not parse, it goes on for an object that
  -- starts at the next brace, if there is one
  unfoldable pub scan_objects : Text → Scan → Option (Json F)
  unfolding from_brace
  scan_objects [] x = none
  scan_objects (c ∷ s) x =
      or_try (tried c x) (stopped (closes c x) (from_brace s) (scan_objects s (next_scan c x)))

  abbrev pub loaded : Option Text → Option (Json F)
  loaded none = none
  loaded (some t) = not_null (p.loads t)

  abbrev of_action : Option Text → Option (Json F)
  of_action none = none
  of_action (some t) = scan_from scan_action (from_brace t)

  abbrev position_param : Option (List F) → Fields F → Fields F
  position_param none d = d
  position_param (some xs) d = field "target_position" (arr (to_items (λ (x : F). float x) xs)) d

  abbrev target_param : Option String → Fields F
  target_param none = done
  target_param (some t) = field "target" (str t) done

  abbrev params_or : Text → Option (Json F) → Json F
  params_or fragment (some j) = j
  params_or fragment none =
      obj (position_param (p.target_position fragment) (target_param (p.target fragment)))

  abbrev params_in : Text → Option Text → Json F
  params_in fragment none = obj done
  params_in fragment (some t) = params_or fragment (p.loads t)

  abbrev named : Text → Option String → Option (Json F)
  named fragment none = none
  named fragment (some tool) = some (
      obj (
        field "tool" (str tool)
          (field "params" (params_in fragment (p.params_text fragment)) done)))

  abbrev in_fragment : Option Text → Option (Json F)
  in_fragment none = none
  in_fragment (some fragment) = named fragment (p.tool_name fragment)

  -- `_recover_truncated_json`
  unfoldable pub recover_truncated : Text → Option (Json F)
  recover_truncated response = in_fragment (or_try (p.action response) (p.tool_start response))

  -- the attempts to find the data, in their order
  unfoldable pub find_data : Text → Option (Json F)
  unfolding from_brace scan_action scan_objects recover_truncated
  find_data response = or_try (not_null (of_action (p.action response))) (
      or_try (loaded (some response)) (
        or_try (loaded (p.code_block response)) (
          or_try (loaded (p.tool_object response)) (
            or_try (not_null (scan_from scan_objects (from_brace response)))
              (recover_truncated response)))))
