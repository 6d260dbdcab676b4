-- ===== src/Daemon/Steps.antt =====
-- `execute_plan_step`: one step of a plan, tried until it ends, with a retry and a fallback venue.
-- `V` is `serde_json::Value`, and Documents holds what the step makes of it.
use Prim.Native.String.{◌++◌}
use a2ex.Base.{
  ℕ, String, Bool, false, ◌||◌, ◌&&◌, Option, none, some, List, [], ◌∷◌, Result, ok, err, find?,
  ◌==◌, if◌then◌else◌,
}
use a2ex.Base.{◌++◌ as append}
use a2ex.Planner.Types.{ExecutionPlan, PlanStep, PlanStepParams}
use a2ex.Signer.{ApprovalResult, SignerBridgeError}
use a2ex.Reservation.Table.{Calls}
use a2ex.Reservation.Manager.{require_held}
use a2ex.Daemon.Types.{ExecutionRequest, DaemonError, PersistedStep, World}

unfoldable pub is_terminal_step_status : String → Bool
is_terminal_step_status status = status == "settled" || status == "filled" || status == "confirmed"

-- `result_with_fallback_status`, on the status of a result that is `Ok`
unfoldable pub fallback_status : String → String → String
unfolding is_terminal_step_status
fallback_status status terminal_status =
    if is_terminal_step_status status then status else terminal_status

-- what `synced_status` reads of a `HyperliquidSyncSnapshot`: the order's status, the client order
-- id and the status of each open order, and whether there are fills and positions
pub record SyncSnapshot : Type 0 where
  pub order_status : Option String
  pub open_orders : List (Option String × String)
  pub has_fills : Bool
  pub has_positions : Bool

abbrev has_id : String → Option String × String → Bool
has_id client_order_id (none, status) = false
has_id client_order_id (some id, status) = id == client_order_id

unfoldable pub synced_status : String → String → SyncSnapshot → String
synced_status client_order_id fallback sync = elim sync.order_status [
  | some status ↦ status
  | none ↦ elim (find? (has_id client_order_id) sync.open_orders) [
    | some (_, status) ↦ status
    | none ↦ if sync.has_fills || sync.has_positions then "filled" else fallback
  ]
]

-- How the world answers one attempt of a step. An adapter's `none` is an error; its answer is the
-- status and the metadata that the daemon makes of it.
pub record Attempt (V : Type 0) : Type 0 where
  pub approval : Result SignerBridgeError ApprovalResult
  pub requires : Calls
  pub releases : Calls
  pub persists : Bool
  pub bridges : Option (String × V)
  pub places : Option (String × V)
  pub hedges : Option String
  pub syncs : Option (SyncSnapshot × V)

-- How the world answers one step: whether the database opens and gives the rows of the plan, and
-- each attempt.
pub record StepAnswers (V : Type 0) : Type 0 where
  pub reads : Bool
  pub attempt : ℕ → Attempt V

pub record Documents (V : Type 0) : Type 0 where
  pub of_attempt : String → ℕ → V  -- `json!({"adapter": …, "attempt": …})`
  pub with_fallback : V → String → V  -- `metadata["fallback_venue"] = …`
  pub of_error : String → V  -- `json!({"error": …})`
  pub replayed : V  -- `json!({"replayed": true})`
  pub show : V → String  -- `to_string`
  pub parse : String → Option V  -- `serde_json::from_str(…).ok()`
  pub show_error : DaemonError → String  -- `error.to_string()`

pub record PlannedStepOutcome (V : Type 0) : Type 0 where
  pub step_id : String
  pub adapter : String
  pub status : String
  pub attempts : ℕ  -- u32
  pub fallback_activated : Bool
  pub metadata : V

-- what one attempt comes to: `?` leaves the step, or there is a result to look at
pub data Tried (V : Type 0) : Type 0 where
  stopped : DaemonError → Tried V
  done : String → V → Tried V
  failed : DaemonError → Tried V

abbrev pub known_venue : String → Bool
known_venue adapter = adapter == "polymarket" || adapter == "kalshi"

-- the request that `request_step_approval` hands to the signer
abbrev step_request : PlanStep → ℕ → String → ExecutionRequest
step_request step notional_usd started_at = record {
  action_id = step.idempotency_key;
  action_kind = step.step_type;
  notional_usd = notional_usd;
  reservation_id = step.step_id ++ (":" ++ started_at);
}

-- what a step's parameters ask to be reserved
abbrev asked : PlanStepParams → ℕ
asked (PlanStepParams.bridge p) = p.amount_usd
asked (PlanStepParams.entry p) = p.notional_usd
asked (PlanStepParams.hedge p) = p.notional_usd

-- `seed_plan_step`
abbrev pub seed_plan_step :
    String → PlanStep → String → ℕ → Option String → Option String → String → PersistedStep
seed_plan_step plan_id step status attempts last_error metadata_json updated_at = record {
  plan_id = plan_id;
  step_id = step.step_id;
  sequence_no = step.sequence;
  step_type = step.step_type;
  adapter = step.adapter;
  idempotency_key = step.idempotency_key;
  status = status;
  attempts = attempts;
  last_error = last_error;
  metadata_json = metadata_json;
  updated_at = updated_at;
}

abbrev same_step : PersistedStep → PersistedStep → Bool
same_step a b = a.plan_id == b.plan_id && a.step_id == b.step_id

-- `INSERT … ON CONFLICT(plan_id, step_id) DO UPDATE SET …`: five columns are given anew
unfoldable pub upsert_step : PersistedStep → List PersistedStep → List PersistedStep
upsert_step row [] = row ∷ []
upsert_step row (r ∷ rows) =
    if same_step r row
    then record r {
      status = row.status;
      attempts = row.attempts;
      last_error = row.last_error;
      metadata_json = row.metadata_json;
      updated_at = row.updated_at;
    }
      ∷ rows
    else r ∷ upsert_step row rows

abbrev pub with_step : PersistedStep → World → World
with_step row world = record world { steps = upsert_step row world.steps }

-- `request_step_approval`: the world after it, or the error that it returns
unfoldable pub request_step_approval :
    Result SignerBridgeError ApprovalResult
    → PlanStep
    → ℕ
    → String
    → World
    → Result DaemonError (Unit {0}) × World
request_step_approval approval step notional_usd started_at world =
    if step.approval_required
    then elim approval [
      | err e ↦ (err (DaemonError.signer_bridge e), world)
      | ok _ ↦ (
        ok tt,
        record world {
          handoffs = append world.handoffs (step_request step notional_usd started_at ∷ []);
        },
      )
    ]
    else (ok tt, world)

module _ {V : Type 0} where
  abbrev pub of_answer : DaemonError → String → Option (String × V) → Tried V
  of_answer error terminal_status none = failed error
  of_answer error terminal_status (some (status, metadata)) =
      done (fallback_status status terminal_status) metadata

  -- the adapter's part of an attempt; an error of the hedge's adapter leaves the step at once
  unfoldable pub call_adapter : Attempt V → PlanStep → String → Tried V
  call_adapter answers step active_adapter = elim step.params [
    | PlanStepParams.bridge p ↦ of_answer DaemonError.across_adapter "settled" answers.bridges
    | PlanStepParams.entry p ↦
        if known_venue active_adapter
        then of_answer DaemonError.prediction_market_adapter "filled" answers.places
        else stopped
            (DaemonError.plan_execution ("unsupported prediction venue " ++ active_adapter))
    | PlanStepParams.hedge p ↦ elim answers.hedges [
      | none ↦ stopped DaemonError.hyperliquid_adapter
      | some status ↦ elim answers.syncs [
        | none ↦ stopped DaemonError.hyperliquid_adapter
        | some (sync, metadata) ↦ done (synced_status step.step_id status sync) metadata
      ]
    ]
  ]

  -- one attempt: the signer's approval, the hold of the plan's reservation, the adapter
  unfoldable pub try_step :
      Attempt V → PlanStep → ExecutionPlan → String → String → World → Tried V × World
  unfolding request_step_approval call_adapter
  try_step answers step plan started_at active_adapter world =
      let (approved, after) =
        request_step_approval answers.approval step (asked step.params) started_at world in
      elim approved [
        | err e ↦ (stopped e, after)
        | ok _ ↦
            elim (require_held answers.requires plan.request_id (asked step.params) after.store) [
              | err e ↦ (stopped (DaemonError.reservation e), after)
              | ok _ ↦ (call_adapter answers step active_adapter, after)
            ]
      ]
