-- ===== src/Tests/ResponseRuns.antt =====
-- The reading of a model's answer, with `{w}` for an object that parses.
use Prim.Native.Char.{code}
use agent_arena.Prelude.{
  ◌≡◌, refl, String, Bool, true, false, ◌&&◌, [], ◌∷◌, none, some, nat_beq, if◌then◌else◌,
  string_key,
}
use agent_arena.Prelude.Int.{ℤ}
use agent_arena.Prelude.Json.{Fields, str, obj, done, field}
use agent_arena.Behavior.Response.{Text, Patterns, find_data}
use agent_arena.Tests.Ints.{int_floats}

abbrev chars : String → Text
chars String.[] = []
chars (String.◌∷◌ c s) = c ∷ chars s

abbrev same : Text → Text → Bool
same [] [] = true
same (c ∷ s) (d ∷ t) = nat_beq (code c) (code d) && same s t
same _ _ = false

abbrev waits : Fields ℤ
waits = field "tool" (str "wait") done

abbrev patterns : Patterns ℤ
patterns = record {
  loads = λ t. if same t (chars "{w}") then some (obj waits) else none;
  thinking = λ t. none;
  action = λ t. none;
  code_block = λ t. none;
  tool_object = λ t. none;
  tool_start = λ t. none;
  tool_name = λ t. none;
  params_text = λ t. none;
  target = λ t. none;
  target_position = λ t. none;
}

-- An object after one that does not parse is found, unless a brace too many stands between them.
second_object : find_data patterns (chars "{x} or {w}") ≡ some (obj waits)
unfolding find_data
second_object = refl

stray_brace : find_data patterns (chars "{x}} or {w}") ≡ none
unfolding find_data
stray_brace = refl
