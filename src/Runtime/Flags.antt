-- ===== src/Runtime/Flags.antt =====
-- What the engine reads back of the metrics that it writes.
use mathlib.Core.Option
use a2ex.Base.{
  String, ◌≡◌, refl, Bool, false, some, inl, inr, List, [], ◌∷◌, map, arith, ◌==◌, if◌then◌else◌,
  Bool-cases, keep, ◌++◌,
}
use a2ex.Runtime.Platform.{Json}
use a2ex.Runtime.Timestamp.{within_last_hour}
use a2ex.Runtime.Metrics.{
  set_metric, set_metric_bool, metric_flag, strings, rebalance_history, record_rebalance,
}

module _ (json : Json) where
  open json use {V}

  -- A lookup after a write finds what was written under the key, and what was there under another.
  get-set_metric :
      (metrics value : V) (key other : String)
      → json.get (set_metric json metrics key value) other
        ≡ (if key == other then some value else json.get metrics other)
  unfolding set_metric
  get-set_metric metrics value key other = elim (Bool-cases (json.is_object metrics)) [
    | inl yes' ↦ rw yes' (json.get-insert metrics key other value yes')
    | inr not' ↦ rw (not', json.get-singleton, json.get_non_object metrics other not')
  ]

  pub flag-set :
      (metrics : V) (key other : String) (b : Bool)
      → metric_flag json (set_metric_bool json metrics key b) other
        ≡ (if key == other then b else metric_flag json metrics other)
  unfolding metric_flag set_metric_bool Option.bind
  flag-set metrics key other b = rw get-set_metric (ground (arith, json.as_bool-of_bool b))

  strings-of_str : (ss : List String) → strings json (map json.of_str ss) ≡ ss
  unfolding strings
  strings-of_str [] = refl
  strings-of_str (s ∷ ss) = rw (json.as_str-of_str s) (rw (strings-of_str ss))

  -- The history after a rebalance holds the earlier ones and this one, so far as they lie in the
  -- hour up to now.
  pub history-record :
      (metrics : V) (now : String)
      → rebalance_history json (record_rebalance json metrics now)
        ≡ keep
            (λ fired_at. within_last_hour fired_at now)
            (rebalance_history json metrics ++ now ∷ [])
  unfolding rebalance_history record_rebalance Option.bind
  history-record metrics now = rw (get-set_metric, json.as_array-of_array) (strings-of_str _)

  -- A write of a flag leaves the history alone.
  pub history-set_flag :
      (metrics : V) (key : String) (b : Bool)
      → (key == "rebalance_history") ≡ false
      → rebalance_history json (set_metric_bool json metrics key b) ≡ rebalance_history json metrics
  unfolding rebalance_history set_metric_bool
  history-set_flag metrics key b h = rw (get-set_metric, h)
