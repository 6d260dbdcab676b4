-- ===== src/Tests/Runtimes.antt =====
-- The theorems of the strategy runtime on one strategy that watches its drift.
use a2ex.Base.{
  ℕ, true, false, Bool, some, none, List, [], ◌∷◌, refl, ◌≡◌, ◌⊎◌, inr, All, arith, Result, ok,
  get_or, length,
}
use a2ex.Base.Text.{decimal}
use a2ex.Compiler.Types.{CompiledStrategy}
use a2ex.Runtime.Types.{
  RuntimeWatcherState, EvaluationResult, RuntimeEvent, watcher_sample, tick, SupervisorOutput,
  SupervisorError, HedgeCommand,
}
use a2ex.Runtime.Timestamp.{add_seconds, parse_rfc3339_utc}
use mathlib.Core.Option
use a2ex.Runtime.Metrics.{metric_flag, set_metric, record_rebalance, strings, rebalance_history}
use a2ex.Runtime.Triggers.{
  trigger_key, arm_trigger, upsert_memory, should_rearm, memory_of, find_memory, cooldown_active,
  trigger_matches, hedge_command, rate_limit_active, fired_memory,
}
use a2ex.Runtime.Engine.{Snapshot, restore, fire, observe, consider, scan, evaluate_live, evaluate}
use a2ex.Runtime.Supervisor.{StrategySupervisor, new, receive, handle, run}
use a2ex.Runtime.Commands.{IsLive, LiveResult, evaluate_commands}
use a2ex.Runtime.Recovery.{IsQuiet, restored_supervisor-IsQuiet}
use a2ex.Runtime.RateLimit.{IsLimited, run-IsLimited}
use a2ex.Runtime.Unparsed.{unparsed_now}
use a2ex.Tests.Numbers.{hundredths}
use a2ex.Tests.Documents.{documents, no_metrics}

abbrev strategy : CompiledStrategy ℕ
strategy = record {
  audit = record {
    request_id = "req-1";
    source_agent_id = "agent-1";
    submitted_at = "2026-03-11T00:00:00Z";
    rationale_summary = "keep the position neutral";
    preview_only = false;
    client_request_label = none;
  };
  strategy_id = "strategy-1";
  strategy_type = "hedged_lp";
  watchers = [];
  trigger_rules =
      record {
        trigger_type = "drift";
        metric = "delta_exposure_pct";
        operator = ">";
        threshold = 2;
        cooldown_sec = 300;
      }
      ∷ [];
  calculation_model = record { model_type = "delta_neutral"; inputs = [] };
  action_templates =
      record {
        action_type = "adjust_hedge";
        venue = "hyperliquid";
        instrument = some "ETH-PERP";
        target = none;
      }
      ∷ [];
  constraints = record { min_order_usd = 100; max_slippage_bps = 40; max_rebalances_per_hour = 2 };
  unwind_conditions = "manual_stop" ∷ [];
}

abbrev start : Snapshot hundredths documents
start = record {
  strategy = strategy;
  runtime_state = "active";
  next_tick_at = none;
  last_event_id = none;
  metrics = no_metrics;
  watcher_states = [];
  trigger_memory = [];
  pending_hedge = none;
}

-- a drift of five hundredths
abbrev drift : RuntimeWatcherState ℕ
drift = record {
  watcher_key = "lp";
  metric = "delta_exposure_pct";
  value = 5;
  cursor = "c-1";
  sampled_at = "2026-03-11T00:10:00Z";
}

abbrev events : List (RuntimeEvent ℕ × Bool)
events =
    (watcher_sample drift, true)
    ∷ (tick "2026-03-11T00:20:00Z", true)
    ∷ (tick "2026-03-11T00:30:00Z", false)
    ∷ []

abbrev quiet_result : EvaluationResult ℕ documents.V
quiet_result = record { snapshot = start; commands = [] }

abbrev result : EvaluationResult ℕ documents.V
result =
    get_or (evaluate hundredths documents start (drift ∷ []) "2026-03-11T00:10:00Z") quiet_result

evaluate-start :
    evaluate hundredths documents start (drift ∷ []) "2026-03-11T00:10:00Z" ≡ some result
unfolding evaluate observe evaluate_live scan consider metric_flag Option.bind memory_of find_memory
    cooldown_active trigger_matches rate_limit_active rebalance_history strings hedge_command
evaluate-start = refl

-- the rule fires: the drift is above its threshold
gives_a_command : length result.commands ≡ 1
unfolding evaluate observe evaluate_live scan consider metric_flag Option.bind memory_of find_memory
    cooldown_active trigger_matches rate_limit_active rebalance_history strings hedge_command
gives_a_command = refl

evaluate_commands_example :
    (result.commands ≡ [])
    ⊎ ((command : HedgeCommand) × IsLive hundredths documents start
        × LiveResult hundredths documents start (drift ∷ []) "2026-03-11T00:10:00Z" result command)
evaluate_commands_example =
    evaluate_commands hundredths documents start (drift ∷ []) "2026-03-11T00:10:00Z" result
      evaluate-start

restored_supervisor-IsQuiet_example :
    (outputs : List (SupervisorOutput ℕ documents.V)) × (last : StrategySupervisor hundredths
      documents)
    × (end : Result SupervisorError (Unit {0})) × (run hundredths documents
          (new hundredths documents (restore hundredths documents start "2026-03-11T00:00:00Z"))
          events
        ≡ some (outputs, last, end))
    × All (IsQuiet hundredths documents) outputs
restored_supervisor-IsQuiet_example =
    restored_supervisor-IsQuiet hundredths documents start "2026-03-11T00:00:00Z" events

abbrev Ran : Type 0
Ran =
    List (SupervisorOutput ℕ documents.V)
    × StrategySupervisor hundredths documents
    × Result SupervisorError (Unit {0})

abbrev supervisor : StrategySupervisor hundredths documents
supervisor = record { snapshot = start; latest_samples = [] }

abbrev nothing : Ran
nothing = ([], supervisor, ok tt)

abbrev ran : Ran
ran = get_or (run hundredths documents supervisor events) nothing

run-supervisor : run hundredths documents supervisor events ≡ some (ran.0, ran.1, ran.2)
unfolding evaluate observe evaluate_live scan consider metric_flag Option.bind memory_of find_memory
    cooldown_active trigger_matches rate_limit_active rebalance_history strings hedge_command run
    handle receive fire record_rebalance set_metric arm_trigger upsert_memory fired_memory
    trigger_key decimal should_rearm add_seconds
run-supervisor = refl

start-IsLimited : IsLimited hundredths documents start
unfolding rebalance_history strings Option.bind
start-IsLimited = inr (omega arith)

run-IsLimited_example : All (λ output. IsLimited hundredths documents output.snapshot) ran.0
run-IsLimited_example =
    run-IsLimited hundredths documents supervisor events ran.0 ran.1 ran.2 start-IsLimited
      run-supervisor

not_a_time : parse_rfc3339_utc "2026-03-11T00:10:00.250Z" ≡ none
unfolding parse_rfc3339_utc Option.bind
not_a_time = refl

unparsed_now_example :
    (rate_limit_active documents start "2026-03-11T00:10:00.250Z" ≡ false)
    × (rebalance_history documents
          (fire hundredths documents start 0 300 "2026-03-11T00:10:00.250Z").metrics
        ≡ [])
    × ((fired_memory 0 300 "2026-03-11T00:10:00.250Z").cooldown_until ≡ none)
unparsed_now_example =
    unparsed_now hundredths documents start 0 300 "2026-03-11T00:10:00.250Z" not_a_time
