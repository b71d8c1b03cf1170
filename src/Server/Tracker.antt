-- ===== src/Server/Tracker.antt =====
-- python/sdk/agent_arena_sdk/server/debug_middleware.py: `ObservationTracker`. A set of names is a
-- list of which only the membership is used, as the program sorts what it shows. `show` stands for
-- `str`, and the clock is an argument.

pub mod Visible
use agent_arena.Prelude.{
  String, Bool, true, false, not, ◌||◌, ℕ, List, [], ◌∷◌, ◌++◌, map, Option, none, some, keep, ◌==◌,
  string_key, if◌then◌else◌,
}
use agent_arena.Prelude.Bounded.{append_pop}
use agent_arena.Prelude.Dict.{Dict, get, put}
use agent_arena.Prelude.DictKeys.{contains, add_key}
use agent_arena.Prelude.Int.{ℤ, pos}
use agent_arena.Prelude.Json.{
  Json, Items, Fields, int, str, arr, obj, end, item, done, field, get_field, as_int, as_str,
}
use agent_arena.Prelude.Result.{Result, ok, raise, Exn, ◌>>=◌}
use agent_arena.Prelude.Sort.{sort_by}
use agent_arena.Prelude.Text.{str_leb}
use agent_arena.Schemas.{or_default, items_of, to_items}
use agent_arena.Window.{slice_from_end}

pub record ObservationEntry (F : Type 0) : Type 0 where
  pub tick : ℤ
  pub agent_id : String
  pub timestamp : String
  pub position : Json F
  pub visible_resources : List String
  pub visible_hazards : List String
  pub gained_resources : List String
  pub lost_resources : List String
  pub gained_hazards : List String
  pub lost_hazards : List String
  pub raw_observation : Fields F

pub record ObservationTracker (F : Type 0) : Type 0 where
  pub max_entries : ℕ
  pub observations : List (ObservationEntry F)
  pub last_visible : Dict String (List String × List String)

abbrev is_filled : List String → Bool
is_filled [] = false
is_filled (x ∷ xs) = true

-- `xs - ys`
unfoldable pub minus : List String → List String → List String
minus xs ys = keep (λ x. not (contains ys x)) xs

-- `sorted(xs)`
unfoldable pub sorted : List String → List String
sorted xs = sort_by str_leb xs

abbrev pub seen_before : Option (List String × List String) → List String × List String
seen_before none = ([], [])
seen_before (some v) = v

module _ {F : Type 0} where
  abbrev texts : List String → Json F
  texts xs = arr (to_items (λ (x : String). str x) xs)

  -- `ObservationEntry.to_dict`
  unfoldable pub entry_to_dict : ObservationEntry F → Json F
  entry_to_dict e = obj (
      field "tick" (int e.tick) (
        field "agent_id" (str e.agent_id) (
          field "timestamp" (str e.timestamp) (
            field "position" e.position (
              field "visible_resources" (texts e.visible_resources) (
                field "visible_hazards" (texts e.visible_hazards) (
                  field "gained_resources" (texts e.gained_resources) (
                    field "lost_resources" (texts e.lost_resources) (
                      field "gained_hazards" (texts e.gained_hazards) (
                        field "lost_hazards" (texts e.lost_hazards)
                          (field "raw_observation" (obj e.raw_observation) done)))))))))))

  -- `ObservationEntry.has_changes`
  unfoldable pub has_changes : ObservationEntry F → Bool
  has_changes e =
      is_filled e.gained_resources
      || is_filled e.lost_resources
      || is_filled e.gained_hazards
      || is_filled e.lost_hazards

  -- `ObservationTracker(max_entries)`
  unfoldable pub init : ℕ → ObservationTracker F
  init max_entries = record { max_entries = max_entries; observations = []; last_visible = [] }

  -- `r.get("name", str(r))`
  abbrev pub name_of : (Json F → String) → Json F → Result String
  name_of show (obj d) = or_default as_str (show (obj d)) (get_field d "name")
  name_of show _ = raise (Exn.other_error "object has no attribute 'get'")

  -- `{r.get("name", str(r)) for r in items}`
  unfoldable pub names_in : (Json F → String) → Items F → Result (List String)
  names_in show end = ok []
  names_in show (item j js) = do n ← name_of show j; ns ← names_in show js; ok (add_key ns n)

  abbrev pub default_position : Option (Json F) → Json F
  default_position (some j) = j
  default_position none = arr (item (int (pos 0)) (item (int (pos 0)) (item (int (pos 0)) end)))

  -- the part of `track_observation` under the lock
  unfoldable pub note_visible :
      String
      → ℤ
      → String
      → Json F
      → List String
      → List String
      → Fields F
      → ObservationTracker F
      → ObservationEntry F × ObservationTracker F
  unfolding minus sorted get put
  note_visible now tick agent_id position resources hazards observation t =
      let (last_resources, last_hazards) = seen_before (get t.last_visible agent_id) in
      let entry : ObservationEntry F = record {
        tick = tick;
        agent_id = agent_id;
        timestamp = now;
        position = position;
        visible_resources = sorted resources;
        visible_hazards = sorted hazards;
        gained_resources = sorted (minus resources last_resources);
        lost_resources = sorted (minus last_resources resources);
        gained_hazards = sorted (minus hazards last_hazards);
        lost_hazards = sorted (minus last_hazards hazards);
        raw_observation = observation;
      } in
      (
        entry,
        record t {
          last_visible = put t.last_visible agent_id (resources, hazards);
          observations = append_pop t.max_entries t.observations entry;
        },
      )

  -- `track_observation`: what it raises is raised before the tracker changes
  unfoldable pub track_observation :
      (Json F → String)
      → String
      → Fields F
      → ObservationTracker F
      → Result (ObservationEntry F × ObservationTracker F)
  unfolding names_in note_visible
  track_observation show now observation t = do
    agent_id ← or_default as_str "unknown" (get_field observation "agent_id")
    tick ← or_default as_int (pos 0) (get_field observation "tick")
    let position = default_position (get_field observation "position")
    resources ← items_of (get_field observation "nearby_resources") >>= names_in show
    hazards ← items_of (get_field observation "nearby_hazards") >>= names_in show
    ok (note_visible now tick agent_id position resources hazards observation t)

  -- `if agent_id:` lets an empty text pass
  abbrev pub of_agent : Option String → ObservationEntry F → Bool
  of_agent none e = true
  of_agent (some agent_id) e = if agent_id == "" then true else e.agent_id == agent_id

  unfoldable pub get_recent : ObservationTracker F → ℤ → Option String → List (Json F)
  unfolding entry_to_dict slice_from_end
  get_recent t limit agent_id =
      map entry_to_dict (slice_from_end limit (keep (of_agent agent_id) t.observations))

  unfoldable pub get_changes : ObservationTracker F → ℤ → Option String → List (Json F)
  unfolding entry_to_dict slice_from_end has_changes
  get_changes t limit agent_id =
      map entry_to_dict
        (slice_from_end limit (keep has_changes (keep (of_agent agent_id) t.observations)))

  unfoldable pub clear : ObservationTracker F → ObservationTracker F
  clear t = record t { observations = []; last_visible = [] }
