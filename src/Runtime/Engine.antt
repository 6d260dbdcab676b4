-- ===== src/Runtime/Engine.antt =====
-- `StrategyRuntimeEngine`: `restore` after a restart, and `evaluate` on the samples of one event.
-- The result `none` is a panic, that of `hedge_command` on a strategy without action templates.
use a2ex.Base.{
  ℕ, suc, String, Bool, true, false, not, ◌&&◌, ◌||◌, Option, none, some, List, [], ◌∷◌, find?, any,
  get_last?, ◌==◌, if◌then◌else◌,
}
use mathlib.Core.Option
use a2ex.Compiler.Types.{CompiledTriggerRule}
use a2ex.Runtime.Platform.{Float, Json}
use a2ex.Runtime.Types.{
  RuntimeWatcherState, StrategyRuntimeSnapshot, rebalance, unwind, HedgeCommand, EvaluationResult,
  manual_stop_metric, manual_stop_runtime_state,
}
use a2ex.Runtime.Metrics.{set_metric_bool, metric_flag, record_rebalance}
use a2ex.Runtime.Triggers.{
  memory_of, upsert_memory, arm_trigger, cooldown_active, should_rearm, trigger_matches,
  rate_limit_active, hedge_command, reason_of,
}

-- the states that `restore` turns into "recovering"
unfoldable pub restored_state : String → String
restored_state state =
    if state == "active"
      || state == "rebalancing"
      || state == "syncing_hedge"
      || state == "recovering"
    then "recovering"
    else state

module _ (float : Float) (json : Json) where
  open float use {F, lt}
  open json use {V}

  abbrev pub Snapshot : Type 0
  Snapshot = StrategyRuntimeSnapshot F V

  unfoldable pub restore : Snapshot → String → Snapshot
  restore snapshot recovered_at = record snapshot {
    runtime_state = restored_state snapshot.runtime_state;
    next_tick_at = some recovered_at;
    metrics =
        set_metric_bool json (set_metric_bool json snapshot.metrics "warm" true)
          "venue_sync_required" true;
  }

  -- what the loop does with one trigger: it goes on, or it breaks after a command
  pub data Outcome : Type 0 where
    next : Snapshot → Outcome
    fired : Snapshot → HedgeCommand → Outcome

  -- the snapshot after the trigger at `index` has fired
  unfoldable pub fire : Snapshot → ℕ → ℕ → String → Snapshot
  fire snapshot index cooldown_sec now = record snapshot {
    runtime_state = "rebalancing";
    trigger_memory = arm_trigger snapshot.trigger_memory index cooldown_sec now;
    metrics = record_rebalance json snapshot.metrics now;
  }

  -- the body of the loop, for a trigger whose metric has a sample of this value
  unfoldable pub consider : CompiledTriggerRule F → ℕ → F → String → Snapshot → Option Outcome
  consider trigger index value now snapshot =
      let memory = memory_of snapshot.trigger_memory index in
      if not memory.hysteresis_armed && should_rearm float trigger value
      then some (
          next (record snapshot {
            trigger_memory =
                upsert_memory (record memory { hysteresis_armed = true }) snapshot.trigger_memory;
          }))
      else if cooldown_active memory now || not memory.hysteresis_armed
      then some (next snapshot)
      else if trigger_matches float trigger value && not (rate_limit_active json snapshot now)
      then Option.map (fired (fire snapshot index trigger.cooldown_sec now))
          (hedge_command float snapshot false (reason_of float trigger))
      else some (next snapshot)

  -- the loop over the triggers from `index` on
  unfoldable pub scan :
      List (RuntimeWatcherState F)
      → String
      → List (CompiledTriggerRule F)
      → ℕ
      → Snapshot
      → Option (EvaluationResult F V)
  scan samples now [] index snapshot = some (record { snapshot = snapshot; commands = [] })
  scan samples now (trigger ∷ triggers) index snapshot =
      elim (find? (λ sample. sample.metric == trigger.metric) samples) [
        | none ↦ scan samples now triggers (suc index) snapshot
        | some sample ↦ elim (consider trigger index sample.value now snapshot) [
          | none ↦ none
          | some (next s) ↦ scan samples now triggers (suc index) s
          | some (fired s command) ↦
              some (record { snapshot = s; commands = rebalance command ∷ [] })
        ]
      ]

  -- the first three lines of `evaluate`
  unfoldable pub observe : Snapshot → List (RuntimeWatcherState F) → String → Snapshot
  observe snapshot samples now = record snapshot {
    watcher_states = samples;
    last_event_id = Option.map (λ sample. sample.cursor) (get_last? samples);
    next_tick_at = some now;
  }

  abbrev pub is_manual_stop : RuntimeWatcherState F → Bool
  is_manual_stop sample = sample.metric == manual_stop_metric && lt float.zero sample.value

  -- `evaluate` once neither flag holds it back
  unfoldable pub evaluate_live :
      Snapshot → List (RuntimeWatcherState F) → String → Option (EvaluationResult F V)
  evaluate_live snapshot samples now =
      if any is_manual_stop samples
      then Option.map
          (λ command. record {
            snapshot = record snapshot { runtime_state = manual_stop_runtime_state };
            commands = unwind command ∷ [];
          })
          (hedge_command float snapshot true manual_stop_metric)
      else scan samples now snapshot.strategy.trigger_rules 0 snapshot

  unfoldable pub evaluate :
      Snapshot → List (RuntimeWatcherState F) → String → Option (EvaluationResult F V)
  evaluate snapshot samples now =
      let s = observe snapshot samples now in
      if metric_flag json s.metrics "warm"
      then (let metrics = set_metric_bool json s.metrics "warm" false in
          some (record {
            snapshot = record s {
              metrics = metrics;
              runtime_state =
                  if metric_flag json metrics "venue_sync_required"
                  then "syncing_hedge"
                  else "active";
            };
            commands = [];
          }))
      else if metric_flag json s.metrics "venue_sync_required"
      then some (record { snapshot = record s { runtime_state = "syncing_hedge" }; commands = [] })
      else evaluate_live s samples now
