-- ===== src/Dispatch.antt =====
-- python/agent_runtime/tool_dispatcher.py: `ToolDispatcher`. A tool is any function of its
-- parameters that returns a JSON value or raises. The list `required` of a schema may be any JSON
-- value; `for param in required` takes it as Python does. The text of a `KeyError` is the key's
-- `repr` in Python and the bare key here.
pub mod Laws
use agent_arena.Prelude.{
  String, ◌++ₛ◌, Bool, true, false, List, [], ◌∷◌, Option, none, some, map, ◌==◌, string_key,
  if◌then◌else◌,
}
use agent_arena.Prelude.Dict.{Dict, get, put, del, has, values, is_some}
use agent_arena.Prelude.Json.{
  Json, Items, Fields, null, bool, int, float, str, arr, obj, end, item, done, field, get_field,
}
use agent_arena.Prelude.Result.{Result, ok, raise, Exn, message, ◌>>=◌}

pub record ToolSchema (F : Type 0) : Type 0 where
  pub name : String
  pub description : String
  pub parameters : Fields F
  pub returns : Fields F

abbrev pub Tool : Type 0 → Type 0
Tool F = Fields F → Result (Json F)

pub record ToolDispatcher (F : Type 0) : Type 0 where
  pub tools : Dict String (Tool F)
  pub schemas : Dict String (ToolSchema F)

abbrev and_then : Bool → Result Bool → Result Bool
and_then true r = r
and_then false r = ok false

module _ {F : Type 0} where
  unfoldable pub init : ToolDispatcher F
  init = record { tools = []; schemas = [] }

  unfoldable pub register_tool :
      String → Tool F → String → Fields F → Fields F → ToolDispatcher F → ToolDispatcher F
  register_tool name function description parameters returns d = record {
    tools = put d.tools name function;
    schemas = put d.schemas name (record {
      name = name;
      description = description;
      parameters = parameters;
      returns = returns;
    });
  }

  -- The second `del` raises if the name has no schema.
  unfoldable pub unregister_tool : String → ToolDispatcher F → Result (ToolDispatcher F)
  unregister_tool name d =
      if has d.tools name
      then (if has d.schemas name
          then ok (record { tools = del d.tools name; schemas = del d.schemas name })
          else raise (Exn.key_error name))
      else ok d

  -- Is one item of `required` among the parameters? An item that cannot be hashed raises.
  abbrev pub is_given : Fields F → Json F → Result Bool
  is_given parameters (str k) = ok (is_some (get_field parameters k))
  is_given parameters (arr xs) = raise (Exn.other_error "unhashable type: 'list'")
  is_given parameters (obj d) = raise (Exn.other_error "unhashable type: 'dict'")
  is_given parameters _ = ok false

  unfoldable pub items_given : Fields F → Items F → Result Bool
  items_given parameters end = ok true
  items_given parameters (item j js) = do
    given ← is_given parameters j
    and_then given (items_given parameters js)

  unfoldable pub keys_given : Fields F → Fields F → Result Bool
  keys_given parameters done = ok true
  keys_given parameters (field k v d) =
      and_then (is_some (get_field parameters k)) (keys_given parameters d)

  unfoldable pub chars_given : Fields F → String → Result Bool
  chars_given parameters String.[] = ok true
  chars_given parameters (String.◌∷◌ c s) =
      and_then (is_some (get_field parameters (String.◌∷◌ c String.[]))) (chars_given parameters s)

  -- `for param in required: if param not in parameters: return False`
  unfoldable pub all_given : Fields F → Option (Json F) → Result Bool
  all_given parameters none = ok true
  all_given parameters (some (arr js)) = items_given parameters js
  all_given parameters (some (obj d)) = keys_given parameters d
  all_given parameters (some (str s)) = chars_given parameters s
  all_given parameters (some null) = raise (Exn.other_error "'NoneType' object is not iterable")
  all_given parameters (some (bool b)) = raise (Exn.other_error "'bool' object is not iterable")
  all_given parameters (some (int n)) = raise (Exn.other_error "'int' object is not iterable")
  all_given parameters (some (float x)) = raise (Exn.other_error "'float' object is not iterable")

  abbrev validate_against : Fields F → String → Option (ToolSchema F) → Result Bool
  validate_against parameters name none = raise (Exn.key_error name)
  validate_against parameters name (some schema) =
      all_given parameters (get_field schema.parameters "required")

  unfoldable pub validate_parameters : ToolDispatcher F → String → Fields F → Result Bool
  validate_parameters d name parameters = validate_against parameters name (get d.schemas name)

  abbrev pub failure : String → Fields F
  failure error = field "success" (bool false) (field "error" (str error) done)

  abbrev pub success : Json F → Fields F
  success result = field "success" (bool true) (field "result" result done)

  -- the `try` block: the tool is run on valid parameters
  abbrev attempt : Tool F → String → Fields F → Bool → Result (Fields F)
  attempt tool name parameters false =
      ok (failure ("Invalid parameters for tool '" ++ₛ (name ++ₛ "'")))
  attempt tool name parameters true = tool parameters >>= λ result. ok (success result)

  abbrev caught : Result (Fields F) → Fields F
  caught (ok reply) = reply
  caught (raise e) = failure (message e)

  abbrev execute_found : ToolDispatcher F → String → Fields F → Option (Tool F) → Fields F
  execute_found d name parameters none = failure ("Tool '" ++ₛ (name ++ₛ "' not found"))
  execute_found d name parameters (some tool) =
      caught (validate_parameters d name parameters >>= attempt tool name parameters)

  unfoldable pub execute_tool : ToolDispatcher F → String → Fields F → Fields F
  unfolding validate_parameters
  execute_tool d name parameters = execute_found d name parameters (get d.tools name)

  unfoldable pub get_tool_schema : ToolDispatcher F → String → Option (ToolSchema F)
  get_tool_schema d name = get d.schemas name

  abbrev schema_to_dict : ToolSchema F → Json F
  schema_to_dict s = obj (
      field "name" (str s.name) (
        field "description" (str s.description)
          (field "parameters" (obj s.parameters) (field "returns" (obj s.returns) done))))

  -- The value that `export_schemas_json` dumps.
  unfoldable pub export_schemas : ToolDispatcher F → List (Json F)
  export_schemas d = map schema_to_dict (values d.schemas)
