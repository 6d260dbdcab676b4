-- ===== src/Runtime/Types.antt =====
-- The state of a strategy's runtime, its events and its commands. `F` is `f64` and `V` is
-- `serde_json::Value`.
use a2ex.Base.{ℕ, String, Bool, Option, List}
use a2ex.Compiler.Types.{CompiledStrategy}

abbrev pub manual_stop_metric : String
manual_stop_metric = "manual_stop"

abbrev pub manual_stop_runtime_state : String
manual_stop_runtime_state = "unwinding"

pub record RuntimeWatcherState (F : Type 0) : Type 0 where
  pub watcher_key : String
  pub metric : String
  pub value : F
  pub cursor : String
  pub sampled_at : String

pub record RuntimeTriggerMemory : Type 0 where
  pub trigger_key : String
  pub cooldown_until : Option String
  pub last_fired_at : Option String
  pub hysteresis_armed : Bool

pub record RuntimePendingHedge : Type 0 where
  pub venue : String
  pub instrument : String
  pub client_order_id : String
  pub signer_address : String
  pub account_address : String
  pub order_id : Option ℕ  -- u64
  pub nonce : ℕ  -- u64
  pub status : String
  pub last_synced_at : Option String

pub record StrategyRuntimeSnapshot (F V : Type 0) : Type 0 where
  pub strategy : CompiledStrategy F
  pub runtime_state : String
  pub next_tick_at : Option String
  pub last_event_id : Option String
  pub metrics : V
  pub watcher_states : List (RuntimeWatcherState F)
  pub trigger_memory : List RuntimeTriggerMemory
  pub pending_hedge : Option RuntimePendingHedge

pub data RuntimeEvent (F : Type 0) : Type 0 where
  watcher_sample : RuntimeWatcherState F → RuntimeEvent F
  tick : String → RuntimeEvent F

pub record HedgeCommand : Type 0 where
  pub strategy_id : String
  pub venue : String
  pub instrument : String
  pub notional_usd : ℕ  -- u64
  pub reduce_only : Bool
  pub reason : String

pub data RuntimeCommand : Type 0 where
  rebalance unwind : HedgeCommand → RuntimeCommand

pub record EvaluationResult (F V : Type 0) : Type 0 where
  pub snapshot : StrategyRuntimeSnapshot F V
  pub commands : List RuntimeCommand

pub record SupervisorOutput (F V : Type 0) : Type 0 where
  pub event : RuntimeEvent F
  pub snapshot : StrategyRuntimeSnapshot F V
  pub commands : List RuntimeCommand

pub data SupervisorError : Type 0 where
  output_closed : SupervisorError
