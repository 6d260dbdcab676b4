-- ===== src/Runtime/Metrics.antt =====
-- The flags and the history that the engine keeps in the JSON object `metrics`.
use mathlib.Core.Option
use a2ex.Base.{
  String, Bool, false, none, some, List, [], ◌∷◌, ◌++◌, map, get_or, keep, if◌then◌else◌,
}
use a2ex.Runtime.Platform.{Json}
use a2ex.Runtime.Timestamp.{within_last_hour}

module _ (json : Json) where
  open json use {V}

  -- a key is written into an object, and anything else is replaced by a new object
  unfoldable pub set_metric : V → String → V → V
  set_metric metrics key value =
      if json.is_object metrics then json.insert metrics key value else json.singleton key value

  unfoldable pub set_metric_bool : V → String → Bool → V
  set_metric_bool metrics key value = set_metric metrics key (json.of_bool value)

  unfoldable pub metric_flag : V → String → Bool
  metric_flag metrics key = get_or (Option.bind (json.get metrics key) json.as_bool) false

  -- `filter_map(Value::as_str)`
  unfoldable pub strings : List V → List String
  strings [] = []
  strings (v ∷ vs) = elim (json.as_str v) [ none ↦ strings vs | some s ↦ s ∷ strings vs ]

  unfoldable pub rebalance_history : V → List String
  rebalance_history metrics =
      strings (get_or (Option.bind (json.get metrics "rebalance_history") json.as_array) [])

  unfoldable pub record_rebalance : V → String → V
  record_rebalance metrics now = set_metric metrics "rebalance_history" (
      json.of_array (
        map json.of_str (
          keep (λ fired_at. within_last_hour fired_at now)
            (rebalance_history metrics ++ now ∷ []))))
