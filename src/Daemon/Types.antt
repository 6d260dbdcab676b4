-- ===== src/Daemon/Types.antt =====
-- What the handlers of the daemon exchange, and the state that they work on.
use Prim.Native.String.{◌++◌}
use a2ex.Base.{ℕ, String, List, Option}
use a2ex.Base.Text.{decimal}
use a2ex.Reservation.Types.{
  ReservationError, open_failed, initialize_failed, persist, not_found, invalid_state,
  amount_exceeded, Store,
}
use a2ex.Planner.Types.{ExecutionPlan}
use a2ex.Signer.{SignerBridgeError}

pub record ExecutionRequest : Type 0 where
  pub action_id : String
  pub action_kind : String
  pub notional_usd : ℕ  -- u64
  pub reservation_id : String

-- The modifications are a `BTreeMap`, in the order of its keys; `V` is `serde_json::Value`.
pub data AuthorizationVerdict (V : Type 0) : Type 0 where
  allow : AuthorizationVerdict V
  allow_with_modifications : List (String × V) → AuthorizationVerdict V
  hold : String → AuthorizationVerdict V

pub record AuthorizationResult (V : Type 0) : Type 0 where
  pub action_id : String
  pub verdict : AuthorizationVerdict V

-- The errors that the modelled handlers return; the sources of the database's and the adapters'
-- errors are left out.
pub data DaemonError : Type 0 where
  state across_adapter prediction_market_adapter hyperliquid_adapter evm_adapter : DaemonError
  unsupported_control_method plan_execution authorization : String → DaemonError
  signer_bridge : SignerBridgeError → DaemonError
  reservation : ReservationError → DaemonError

-- the `Display` of a reservation error, with the path of the database
abbrev pub show_reservation_error : String → ReservationError → String
show_reservation_error path open_failed = "failed to open reservation database at " ++ path
show_reservation_error path initialize_failed =
    "failed to initialize reservation database at " ++ path
show_reservation_error path persist = "failed to update reservation state at " ++ path
show_reservation_error path (not_found id) = "reservation " ++ (id ++ " not found")
show_reservation_error path (invalid_state id expected) =
    "reservation " ++ (id ++ (" is not in state " ++ expected))
show_reservation_error path (amount_exceeded id requested available) =
    "reservation amount "
    ++ (decimal requested ++ (" exceeds held amount " ++ (decimal available ++ (" for " ++ id))))

-- a call of `persist_execution_state`
pub record ExecutionState : Type 0 where
  pub execution_id : String
  pub plan_id : String
  pub status : String

-- a row of `execution_plan_steps`, `PersistedExecutionPlanStep`
pub record PersistedStep : Type 0 where
  pub plan_id : String
  pub step_id : String
  pub sequence_no : ℕ  -- u32
  pub step_type : String
  pub adapter : String
  pub idempotency_key : String
  pub status : String
  pub attempts : ℕ  -- u32
  pub last_error : Option String
  pub metadata_json : Option String
  pub updated_at : String

-- What the handlers change: the reservations, the requests that the signer was handed and the
-- execution states that were persisted, both in their order, the rows of the plans' steps, and the
-- plans that were persisted with their statuses, in their order. The journal of the state database
-- is left out.
pub record World : Type 0 where
  pub store : Store
  pub handoffs : List ExecutionRequest
  pub executions : List ExecutionState
  pub steps : List PersistedStep
  pub plans : List (ExecutionPlan × String)
