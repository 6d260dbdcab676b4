-- ===== src/Tests/Executions.antt =====
-- The theorems of the execution of plans on the plan of one intent.
use mathlib.Core.Option
use a2ex.Base.{String, ◌≡◌, refl, true, some, none, [], ◌∷◌, All, arith, ok, err, get_or, length}
use a2ex.Planner.Types.{PlanStep, PlanStepParams, FailureMode}
use a2ex.Planner.Plan.{build_plan, bridge_target, destination_chain, hedge_notional}
use a2ex.Planner.Matrix.{venue}
use a2ex.Ipc.{unix_domain_socket}
use a2ex.Signer.{approval}
use a2ex.Reservation.Types.{StoredReservation, as_str}
use a2ex.Reservation.Manager.{require_held, release}
use a2ex.Reservation.Table.{select}
use a2ex.Daemon.Types.{DaemonError, World}
use a2ex.Daemon.Steps.{
  Attempt, StepAnswers, Documents, call_adapter, done, fallback_status, synced_status, try_step,
  is_terminal_step_status,
}
use a2ex.Daemon.Rounds.{StepReply, round, execute_plan_step}
use a2ex.Daemon.Execution.{Repository, PlannedExecutionReport, Report, execute_planned_intent}
use a2ex.Daemon.Termination.{execute_plan_step_ends}
use a2ex.Daemon.Adapters.{call_adapter_ends}
use a2ex.Daemon.Holds.{IsHeld}
use a2ex.Daemon.Reports.{IsBounded, HasEnded}
use a2ex.Daemon.Plans.{
  execute_planned_intent_ends, execute_planned_intent-IsHeld, execute_planned_intent-HasEnded,
}
use a2ex.Tests.Requests.{plan}
use a2ex.Tests.Reservations.{answers}

-- metadata as text
abbrev texts : Documents String
texts = record {
  of_attempt = λ adapter n. adapter;
  with_fallback = λ text venue. text;
  of_error = λ text. text;
  replayed = "replayed";
  show = λ text. text;
  parse = λ text. some text;
  show_error = λ e. "error";
}

-- an attempt at which the bridge is still pending, the order filled, and the hedge's order open
abbrev attempt : Attempt String
attempt = record {
  approval = ok (record {
    approved = true;
    audit = approval (record {
      action_id = "act-1";
      action_kind = "bridge_asset";
      reservation_id = "req-1";
      notional_usd = 3000;
      origin_transport = unix_domain_socket;
    });
  });
  requires = answers;
  releases = answers;
  persists = true;
  bridges = some ("pending", "deposit");
  places = some ("filled", "order");
  hedges = some "resting";
  syncs = some (
    record {
      order_status = some "filled";
      open_orders = [];
      has_fills = true;
      has_positions = true;
    },
    "hedge",
  );
}

abbrev env : PlanStep → StepAnswers String
env step = record { reads = true; attempt = λ n. attempt }

abbrev row : StoredReservation
row = record {
  reservation_id = "req-1";
  execution_id = "exec-1";
  asset = "USDC";
  amount = 3000;
  state = "held";
  updated_at = "2026-03-11 00:00:00";
}

abbrev world : World
world = record {
  store = record { reservations = row ∷ []; journal = [] };
  handoffs = [];
  executions = [];
  steps = [];
  plans = [];
}

abbrev database : Repository
database = record { loads = true; plan = some plan; starts = true; ends = true; completes = true }

abbrev started_at : String
started_at = "2026-03-11T00:00:00Z"

world-IsHeld : IsHeld plan.request_id world.store
unfolding select build_plan
world-IsHeld = (row, refl, refl)

plan-IsBounded : All IsBounded plan.steps
unfolding build_plan bridge_target destination_chain Option.bind venue
plan-IsBounded = (omega arith, (omega arith, (omega arith, tt)))

abbrev nothing : Report texts
nothing = (err DaemonError.state, world)

abbrev reply : Report texts
reply = get_or (execute_planned_intent texts database env "plan-intent-1" started_at world) nothing

abbrev no_report : PlannedExecutionReport String
no_report = record { plan_id = ""; status = ""; step_outcomes = [] }

abbrev report_of : Report texts → PlannedExecutionReport String
report_of (ok report, w) = report
report_of (err e, w) = no_report

executed :
    execute_planned_intent texts database env "plan-intent-1" started_at world
    ≡ some (ok (report_of reply), reply.1)
unfolding execute_planned_intent build_plan bridge_target destination_chain Option.bind venue
    execute_plan_step round try_step require_held select as_str is_terminal_step_status
    fallback_status release hedge_notional synced_status
executed = refl

completed : (report_of reply).status ≡ "completed"
unfolding execute_planned_intent build_plan bridge_target destination_chain Option.bind venue
    execute_plan_step round try_step require_held select as_str is_terminal_step_status
    fallback_status release hedge_notional synced_status
completed = refl

execute_planned_intent_ends_example :
    (r : Report texts) × (execute_planned_intent texts database env "plan-intent-1" started_at world
      ≡ some r)
execute_planned_intent_ends_example =
    execute_planned_intent_ends texts database env "plan-intent-1" started_at world plan refl
      plan-IsBounded

execute_planned_intent-IsHeld_example : reply.1.store ≡ world.store
execute_planned_intent-IsHeld_example =
    execute_planned_intent-IsHeld texts database env "plan-intent-1" started_at world plan refl
      (ok (report_of reply), reply.1) executed world-IsHeld

execute_planned_intent-HasEnded_example :
    All HasEnded (report_of reply).step_outcomes
    × (length (report_of reply).step_outcomes ≡ length plan.steps)
execute_planned_intent-HasEnded_example =
    execute_planned_intent-HasEnded texts database env "plan-intent-1" started_at world plan refl
      (report_of reply) reply.1 executed completed

abbrev bridge_step : PlanStep
bridge_step = record {
  step_id = "plan-intent-1:bridge";
  sequence = 1;
  step_type = "bridge_asset";
  adapter = "across";
  approval_required = true;
  idempotency_key = "req-1:bridge";
  failure_policy = record {
    mode = FailureMode.retry;
    retry = record { max_attempts = 2; backoff_ms = 250 };
    fallback_venue = none;
  };
  params = PlanStepParams.bridge (record {
    asset = "USDC";
    amount_usd = 3000;
    source_chain = "base";
    destination_chain = "polygon";
  });
}

execute_plan_step_ends_example :
    (r : StepReply String) × (execute_plan_step texts
        (env bridge_step)
        bridge_step
        plan
        started_at
        world
      ≡ some r)
execute_plan_step_ends_example =
    execute_plan_step_ends texts (env bridge_step) bridge_step plan started_at world (omega arith)

pending_settles : call_adapter attempt bridge_step "across" ≡ done "settled" "deposit"
unfolding call_adapter fallback_status
pending_settles = refl

call_adapter_ends_example : is_terminal_step_status "settled" ≡ true
call_adapter_ends_example =
    call_adapter_ends attempt bridge_step "across" "settled" "deposit" (λ h. h) pending_settles
