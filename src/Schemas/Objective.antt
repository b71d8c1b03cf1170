-- ===== src/Schemas/Objective.antt =====
-- schemas/objective.py: `MetricDefinition` and `Objective`.
use mathlib.Core.List.{append-nil}
use mathlib.Core.Path.{subst}
use agent_arena.Prelude.{String, Bool, false, [], ◌∷◌, ◌++◌, ◌≡◌, refl, sym, ap, ◌∙◌, string_key}
use agent_arena.Prelude.Dict.{Dict, put, IsDict}
use agent_arena.Prelude.DictKeys.{put-append}
use agent_arena.Prelude.Floats.{Floats}
use agent_arena.Prelude.Int.{ℤ, pos}
use agent_arena.Prelude.Json.{
  Json, Fields, bool, int, float, str, obj, done, field, get_field, at_field, as_int, as_str,
  as_obj,
}
use agent_arena.Prelude.Result.{Result, ok, ◌>>=◌}
use agent_arena.Schemas.{as_bool, as_number, or_default}

pub record MetricDefinition (F : Type 0) : Type 0 where
  pub target : F
  pub weight : F
  pub lower_is_better : Bool
  pub required : Bool

pub record Objective (F : Type 0) : Type 0 where
  pub description : String
  pub success_metrics : Dict String (MetricDefinition F)
  pub time_limit : ℤ

module _ {F : Type 0} where
  -- `MetricDefinition.to_dict`
  unfoldable pub metric_to_dict : MetricDefinition F → Json F
  metric_to_dict m = obj (
      field "target" (float m.target) (
        field "weight" (float m.weight) (
          field "lower_is_better" (bool m.lower_is_better)
            (field "required" (bool m.required) done))))

  unfoldable pub metrics_to_fields : Dict String (MetricDefinition F) → Fields F
  metrics_to_fields [] = done
  metrics_to_fields ((name, m) ∷ d) = field name (metric_to_dict m) (metrics_to_fields d)

  -- `Objective.to_dict`
  unfoldable pub objective_to_dict : Objective F → Json F
  objective_to_dict o = obj (
      field "description" (str o.description) (
        field "success_metrics" (obj (metrics_to_fields o.success_metrics))
          (field "time_limit" (int o.time_limit) done)))

module _ {F : Type 0} ⦃fl : Floats F⦄ where
  -- `MetricDefinition.from_dict`
  unfoldable pub metric_from_dict : Json F → Result (MetricDefinition F)
  metric_from_dict j = do
    data_ ← as_obj j
    target ← at_field data_ "target" >>= as_number
    weight ← or_default as_number (fl.of_int (pos 1)) (get_field data_ "weight")
    lower_is_better ← or_default as_bool false (get_field data_ "lower_is_better")
    required ← or_default as_bool false (get_field data_ "required")
    ok (record {
      target = target;
      weight = weight;
      lower_is_better = lower_is_better;
      required = required;
    })

  -- the loop over `data.get("success_metrics", {}).items()`, with the metrics read before it
  unfoldable pub read_metrics :
      Dict String (MetricDefinition F) → Fields F → Result (Dict String (MetricDefinition F))
  read_metrics d done = ok d
  read_metrics d (field name j rest) = do m ← metric_from_dict j; read_metrics (put d name m) rest

  -- `Objective.from_dict`
  unfoldable pub objective_from_dict : Json F → Result (Objective F)
  unfolding read_metrics
  objective_from_dict j = do
    data_ ← as_obj j
    metrics ← or_default as_obj done (get_field data_ "success_metrics")
    success_metrics ← read_metrics [] metrics
    description ← at_field data_ "description" >>= as_str
    time_limit ← or_default as_int (pos 0) (get_field data_ "time_limit")
    ok (record {
      description = description;
      success_metrics = success_metrics;
      time_limit = time_limit;
    })

  metric-roundtrip : (m : MetricDefinition F) → metric_from_dict (metric_to_dict m) ≡ ok m
  unfolding metric_from_dict metric_to_dict at_field get_field
  metric-roundtrip m = refl

  metrics-roundtrip :
      (d e : Dict String (MetricDefinition F))
      → IsDict (d ++ e)
      → read_metrics d (metrics_to_fields e) ≡ ok (d ++ e)
  unfolding read_metrics metrics_to_fields
  metrics-roundtrip d [] h = rw append-nil refl
  metrics-roundtrip d ((name, m) ∷ e) h =
      let same = put-append d e name m h in
      rw (metric-roundtrip m)
        (metrics-roundtrip (put d name m) e (subst IsDict (sym same) h) ∙ ap ok same)

  -- An objective whose metrics have distinct names is unchanged when it is written and read back,
  -- its metrics in their order.
  pub objective_from_dict-objective_to_dict :
      (o : Objective F)
      → IsDict o.success_metrics
      → objective_from_dict (objective_to_dict o) ≡ ok o
  unfolding objective_from_dict objective_to_dict at_field get_field
  objective_from_dict-objective_to_dict o h = rw (metrics-roundtrip [] o.success_metrics h) refl
