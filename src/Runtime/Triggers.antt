-- ===== src/Runtime/Triggers.antt =====
-- What the engine asks of one trigger: its memory, cooldown, hysteresis, test and rate limit, and
-- the command it gives.
use Prim.Native.Nat.{Ordering}
use Prim.Native.String.{◌++◌, compare}
use mathlib.Core.Option
use a2ex.Base.{
  ℕ, String, Bool, true, false, ◌||◌, Option, none, some, List, [], ◌∷◌, find?, get_or, get_elem?,
  length, keep, leb, eqb, max, ◌==◌, if◌then◌else◌,
}
use a2ex.Base.Text.{decimal}
use a2ex.Base.Int.{pos}
use a2ex.Compiler.Types.{CompiledTriggerRule}
use a2ex.Runtime.Platform.{Float, Json}
use a2ex.Runtime.Timestamp.{within_last_hour, add_seconds, as_i64}
use a2ex.Runtime.Types.{
  RuntimeWatcherState, RuntimeTriggerMemory, StrategyRuntimeSnapshot, HedgeCommand,
}
use a2ex.Runtime.Metrics.{rebalance_history}

unfoldable pub trigger_key : ℕ → String
trigger_key index = "trigger-" ++ decimal index

-- `a < b` on strings
abbrev str_lt : String → String → Bool
str_lt a b = elim (compare a b) [ Ordering.lt ↦ true | _ ↦ false ]

unfoldable pub find_memory : String → List RuntimeTriggerMemory → Option RuntimeTriggerMemory
find_memory key memories = find? (λ memory. memory.trigger_key == key) memories

abbrev fresh_memory : ℕ → RuntimeTriggerMemory
fresh_memory index = record {
  trigger_key = trigger_key index;
  cooldown_until = none;
  last_fired_at = none;
  hysteresis_armed = true;
}

-- `trigger_memory(snapshot, trigger_index)`, on the snapshot's list
unfoldable pub memory_of : List RuntimeTriggerMemory → ℕ → RuntimeTriggerMemory
memory_of memories index = get_or (find_memory (trigger_key index) memories) (fresh_memory index)

-- the first memory with the key is replaced; without one the memory is pushed
unfoldable pub upsert_memory :
    RuntimeTriggerMemory → List RuntimeTriggerMemory → List RuntimeTriggerMemory
upsert_memory memory [] = memory ∷ []
upsert_memory memory (existing ∷ rest) =
    if existing.trigger_key == memory.trigger_key
    then memory ∷ rest
    else existing ∷ upsert_memory memory rest

unfoldable pub cooldown_active : RuntimeTriggerMemory → String → Bool
cooldown_active memory now = elim memory.cooldown_until [
  | none ↦ false
  | some cooldown_until ↦ str_lt now cooldown_until
]

-- the memory of a trigger that fires now; `cooldown_sec as i64` wraps
unfoldable pub fired_memory : ℕ → ℕ → String → RuntimeTriggerMemory
fired_memory index cooldown_sec now = record {
  trigger_key = trigger_key index;
  cooldown_until = add_seconds now (as_i64 (pos cooldown_sec));
  last_fired_at = some now;
  hysteresis_armed = false;
}

-- `arm_trigger`: of the memory with the key all fields but the key are written
unfoldable pub arm_trigger : List RuntimeTriggerMemory → ℕ → ℕ → String → List RuntimeTriggerMemory
arm_trigger memories index cooldown_sec now =
    upsert_memory (fired_memory index cooldown_sec now) memories

module _ (float : Float) where
  open float use {F, mul, lt, le}

  -- `a.abs() * 10_000` dollars, at least the strategy's minimum
  unfoldable hedge_notional : List (RuntimeWatcherState F) → ℕ → ℕ
  hedge_notional watcher_states min_order_usd =
      let drift =
        get_or
          (Option.map (λ sample. float.abs sample.value)
            (find? (λ sample. sample.metric == "delta_exposure_pct") watcher_states))
          float.zero in
      max (float.to_u64 (mul drift float.ten_thousand)) min_order_usd

  -- `hedge_command`; `none` is the panic of `action_templates[0]` on an empty list
  unfoldable pub hedge_command :
      {V : Type 0} → StrategyRuntimeSnapshot F V → Bool → String → Option HedgeCommand
  unfolding hedge_notional
  hedge_command snapshot reduce_only reason =
      Option.map
        (λ action. record {
          strategy_id = snapshot.strategy.strategy_id;
          venue = action.venue;
          instrument = get_or action.instrument "unknown";
          notional_usd =
              hedge_notional snapshot.watcher_states snapshot.strategy.constraints.min_order_usd;
          reduce_only = reduce_only;
          reason = reason;
        })
        (get_elem? snapshot.strategy.action_templates 0)

  unfoldable pub should_rearm : CompiledTriggerRule F → F → Bool
  should_rearm trigger value =
      let rearm_threshold = mul trigger.threshold float.three_quarters in
      if trigger.operator == ">" || trigger.operator == ">="
      then le value rearm_threshold
      else if trigger.operator == "<" || trigger.operator == "<="
      then le rearm_threshold value
      else false

  unfoldable pub trigger_matches : CompiledTriggerRule F → F → Bool
  trigger_matches trigger value =
      if trigger.operator == ">"
      then lt trigger.threshold value
      else if trigger.operator == ">="
      then le trigger.threshold value
      else if trigger.operator == "<"
      then lt value trigger.threshold
      else if trigger.operator == "<="
      then le value trigger.threshold
      else false

  unfoldable pub reason_of : CompiledTriggerRule F → String
  reason_of trigger =
      trigger.metric ++ (" " ++ (trigger.operator ++ (" " ++ float.show trigger.threshold)))

-- how many of the rebalances in the history lie within the last hour
unfoldable pub recent : List String → String → ℕ
recent history now = length (keep (λ fired_at. within_last_hour fired_at now) history)

module _ (json : Json) where
  unfoldable pub rate_limit_active : {F : Type 0} → StrategyRuntimeSnapshot F json.V → String → Bool
  unfolding recent
  rate_limit_active snapshot now =
      let limit = snapshot.strategy.constraints.max_rebalances_per_hour in
      if eqb limit 0
      then false
      else leb limit (recent (rebalance_history json snapshot.metrics) now)
