-- ===== src/Server.antt =====
-- python/sdk/agent_arena_sdk/server/ipc_server.py: `MinimalIPCServer`, its endpoints for the game.
-- The agent behind `decide_callback` has a state of its own, which it may change and then raise. A
-- request body is the JSON object that it holds; the values of a request are read at their declared
-- types. FastAPI's part is what it documents of a handler: what the handler returns is the answer,
-- and an `HTTPException` is its status and its detail.
pub mod Tracker
pub mod Traces
pub mod Handlers
pub mod Served
pub mod Spoiled
pub mod Isolated
pub mod Debugging
use agent_arena.Prelude.{
  ℕ, ◌+◌, String, Bool, true, false, List, [], ◌∷◌, ◌++ₛ◌, Option, none, some, length, ◌==◌,
  string_key, if◌then◌else◌,
}
use agent_arena.Prelude.Floats.{Floats}
use agent_arena.Prelude.Int.{ℤ, pos}
use agent_arena.Prelude.Json.{
  Json, Items, Fields, null, bool, int, float, str, arr, obj, end, item, done, field, get_field,
  as_str, as_obj,
}
use agent_arena.Prelude.Result.{Result, ok, raise, Exn, ◌>>=◌}
use agent_arena.Debug as Debug
use agent_arena.Debug.{DebugStore, DebugTrace, record_trace, add_debug_step}
use agent_arena.Schemas.{or_default, null_or, items_of, position_to_list}
use agent_arena.Schemas.Decision.{Decision, idle, decision_to_dict}
use agent_arena.Schemas.Observation.{Observation, observation_from_dict}
use agent_arena.Server.Tracker as Tracker
use agent_arena.Server.Tracker.{ObservationEntry, ObservationTracker, track_observation}

-- What a request meets outside the server: the callback, the agent's `last_trace` if it has one,
-- `str`, and the readings of the clocks.
pub record Outside (A F : Type 0) : Type 0 where
  pub decide_callback : A → Observation F → Result (Decision F) × A
  pub last_trace : A → Option (Fields F)
  pub show : Json F → String
  pub now : String
  pub start_time : F
  pub step_time : String → F
  pub trace_id : String

pub record Server (A F : Type 0) : Type 0 where
  -- the object that `decide_callback` belongs to
  pub agent : A
  pub enable_debug : Bool
  pub total_ticks : ℕ
  pub total_observations : ℕ
  pub observation_tracker : Option (ObservationTracker F)
  pub debug_store : Option (DebugStore F)

pub data Response (F : Type 0) : Type 0 where
  replies : Json F → Response F
  http_error : ℕ → String → Response F

-- `str(e)`: the one of a `KeyError` quotes the key
abbrev pub str_of : Exn → String
str_of (Exn.value_error s) = s
str_of (Exn.key_error s) = "'" ++ₛ s ++ₛ "'"
str_of (Exn.other_error s) = s

-- `x or default`
abbrev pub text_or : Option String → String → String
text_or none default = default
text_or (some s) default = if s == "" then default else s

module _ {F : Type 0} where
  abbrev debug_tracker : Bool → Option (ObservationTracker F)
  debug_tracker true = some (Tracker.init 1000)
  debug_tracker false = none

  abbrev debug_traces : Bool → Option (DebugStore F)
  debug_traces true = some (Debug.init 1000)
  debug_traces false = none

module _ {A F : Type 0} where
  -- `MinimalIPCServer(decide_callback, enable_debug)`, with what `create_app` sets up
  unfoldable pub init : A → Bool → Server A F
  unfolding Tracker.init Debug.init
  init agent enable_debug = record {
    agent = agent;
    enable_debug = enable_debug;
    total_ticks = 0;
    total_observations = 0;
    observation_tracker = debug_tracker enable_debug;
    debug_store = debug_traces enable_debug;
  }

  -- `GET /`
  unfoldable pub root : Server A F → Json F
  root s = obj (
      field "status" (str "running") (
        field "debug" (bool s.enable_debug) (
          field "metrics"
            (obj (
              field "total_ticks" (int (pos s.total_ticks))
                (field "total_observations" (int (pos s.total_observations)) done)))
            done)))

  abbrev pub count : ℕ → Server A F → Server A F
  count observations s = record s {
    total_ticks = s.total_ticks + 1;
    total_observations = s.total_observations + observations;
  }

module _ {F : Type 0} where
  -- `GET /health`
  unfoldable pub health : Json F
  health = obj (field "status" (str "ok") done)

  -- `POST /tools/execute`
  unfoldable pub execute_tool : Fields F → Json F
  execute_tool request =
      obj (field "success" (bool true) (field "result" null (field "error" (str "") done)))

  -- `POST /experience`
  unfoldable pub receive_experience : Fields F → Json F
  receive_experience request = obj (field "success" (bool true) done)

  abbrev pub or_else : Json F → Option (Json F) → Json F
  or_else default none = default
  or_else default (some j) = j

  -- `if key not in d: d[key] = value`
  unfoldable pub set_default : String → Json F → Fields F → Fields F
  set_default k v done = field k v done
  set_default k v (field j w d) = if j == k then field j w d else field j w (set_default k v d)

  abbrev pub fallback : Result (Decision F) → Decision F
  fallback (ok d) = d
  fallback (raise e) = idle (some ("Error: " ++ₛ str_of e))

module _ {A F : Type 0} (out : Outside A F) where
  abbrev tracked :
      Result (ObservationEntry F × ObservationTracker F)
      → Server A F
      → Result (Unit {0}) × Server A F
  tracked (raise e) s = (raise e, s)
  tracked (ok (entry, t)) s = (ok tt, record s { observation_tracker = some t })

  abbrev track_with :
      Option (ObservationTracker F) → Fields F → Server A F → Result (Unit {0}) × Server A F
  track_with none observation s = (ok tt, s)
  track_with (some t) observation s = tracked (track_observation out.show out.now observation t) s

  -- `_track_observation`
  unfoldable pub track : Fields F → Server A F → Result (Unit {0}) × Server A F
  unfolding track_observation
  track observation s = track_with s.observation_tracker observation s

  abbrev asked : Result (Decision F) × A → Server A F → Result (Decision F) × Server A F
  asked (r, a) s = (r, record s { agent = a })

  -- `decide_callback` on what `from_dict` gave
  abbrev pub consult : Result (Observation F) → Server A F → Result (Decision F) × Server A F
  consult (raise e) s = (raise e, s)
  consult (ok o) s = asked (out.decide_callback s.agent o) s
