-- ===== src/Daemon/FastAction.antt =====
-- `execute_fast_path_action`: a prepared action is approved, signed, submitted and, once confirmed,
-- paid from its reservation.
use Prim.Native.String.{String, [], ◌∷◌, ◌++◌}
use Prim.Native.Char.{code}
use a2ex.Base.{
  ℕ, suc, ◌+◌, ◌/◌, ◌%◌, Bool, true, false, Option, none, some, List, Result, ok, err, ltb,
  if◌then◌else◌,
}
use a2ex.Base.{[] as nil, ◌∷◌ as cons, ◌++◌ as append}
use a2ex.Base.Text.{decimal}
use a2ex.Base.Int.{show_ℤ}
use a2ex.Evm.{
  PreparedEvmTransaction, TxLifecycleStatus, TxLifecycleEvent, TxLifecycleReport, terminal_status,
}
use a2ex.FastPath.{PreparedFastAction, PreparedVenueAction}
use a2ex.Ipc.{LocalTransport}
use a2ex.Signer.{ApprovalRequest, LocalPeerIdentity, ValidatedSignerBridge}
use a2ex.Reservation.Table.{Calls}
use a2ex.Reservation.Manager.{require_held, consume, release}
use a2ex.Daemon.Types.{ExecutionRequest, DaemonError, World}

-- the UTF-8 bytes of a character
abbrev utf8 : ℕ → List ℕ → List ℕ
utf8 c rest =
    if ltb c 0x80
    then cons c rest
    else if ltb c 0x800
    then cons (0xc0 + c / 0x40) (cons (0x80 + c % 0x40) rest)
    else if ltb c 0x10000
    then cons (0xe0 + c / 0x1000) (cons (0x80 + c / 0x40 % 0x40) (cons (0x80 + c % 0x40) rest))
    else cons (0xf0 + c / 0x40000) (
        cons (0x80 + c / 0x1000 % 0x40)
          (cons (0x80 + c / 0x40 % 0x40) (cons (0x80 + c % 0x40) rest)))

-- `into_bytes`
unfoldable into_bytes : String → List ℕ
into_bytes [] = nil
into_bytes (c ∷ s) = utf8 (code c) (into_bytes s)

unfoldable pub action_notional_usd : PreparedFastAction → ℕ
action_notional_usd action = elim action.payload [
  | PreparedVenueAction.generic_contract_call chain_id to value_wei calldata reserved ↦ reserved
  | PreparedVenueAction.simple_entry venue market side notional_usd ↦ notional_usd
  | PreparedVenueAction.hedge_adjust_precomputed venue instrument target notional_usd ↦ notional_usd
]

unfoldable pub prepared_action_into_evm_transaction : PreparedFastAction → PreparedEvmTransaction
unfolding into_bytes
prepared_action_into_evm_transaction action = elim action.payload [
  | PreparedVenueAction.generic_contract_call chain_id to value_wei calldata reserved ↦ record {
    chain_id = chain_id;
    to = to;
    value_wei = value_wei;
    calldata = calldata;
  }
  | PreparedVenueAction.simple_entry venue market side notional_usd ↦ record {
    chain_id = 8453;
    to = "entry://" ++ (venue ++ ("/" ++ market));
    value_wei = "0";
    calldata = into_bytes ("simple_entry:" ++ (side ++ (":" ++ decimal notional_usd)));
  }
  | PreparedVenueAction.hedge_adjust_precomputed venue instrument target_delta_bps notional_usd ↦
      record {
        chain_id = 8453;
        to = "hedge://" ++ (venue ++ ("/" ++ instrument));
        value_wei = "0";
        calldata =
            into_bytes
              ("hedge_adjust:" ++ (show_ℤ target_delta_bps ++ (":" ++ decimal notional_usd)));
      }
]

unfoldable tx_status_label : TxLifecycleStatus → String
tx_status_label TxLifecycleStatus.prepared = "prepared"
tx_status_label TxLifecycleStatus.submitted = "submitted"
tx_status_label TxLifecycleStatus.pending = "pending"
tx_status_label TxLifecycleStatus.confirmed = "confirmed"
tx_status_label TxLifecycleStatus.failed = "failed"

-- `matches!(status, Some(TxLifecycleStatus::Confirmed))`
abbrev pub is_confirmed : Option TxLifecycleStatus → Bool
is_confirmed (some TxLifecycleStatus.confirmed) = true
is_confirmed _ = false

-- How the world answers one action: the database's calls, the adapter (`none` is an error), and
-- the state database, at the beginning and at each event of the report.
pub record ActionAnswers : Type 0 where
  pub requires : Calls
  pub consumes : Calls
  pub releases : Calls
  pub submits : Option TxLifecycleReport
  pub opens : Bool
  pub persists : ℕ → Bool

abbrev pub action_approval : LocalTransport → PreparedFastAction → ApprovalRequest
action_approval transport action = record {
  action_id = action.action_id;
  action_kind = action.action_kind;
  reservation_id = action.reservation_id;
  notional_usd = action_notional_usd action;
  origin_transport = transport;
}

abbrev pub action_request : PreparedFastAction → ExecutionRequest
action_request action = record {
  action_id = action.action_id;
  action_kind = action.action_kind;
  notional_usd = action_notional_usd action;
  reservation_id = action.reservation_id;
}

-- `persist_execution_state_with_metadata`, but for the metadata
abbrev pub with_state : PreparedFastAction → String → World → World
with_state action status world = record world {
  executions = append world.executions (
      cons
        (record { execution_id = action.action_id; plan_id = action.action_kind; status = status })
        nil);
}

-- the loop over the report's events: whether all were persisted, and the world
unfoldable pub persist_events :
    PreparedFastAction → (ℕ → Bool) → ℕ → List TxLifecycleEvent → World → Bool × World
unfolding tx_status_label
persist_events action persists index nil world = (true, world)
persist_events action persists index (cons event events) world = elim (persists index) [
  | false ↦ (false, world)
  | true ↦
      persist_events action persists (suc index) events
        (with_state action (tx_status_label event.status) world)
]

abbrev pub ActionReply : Type 0
ActionReply = Result DaemonError TxLifecycleReport × World

-- what follows the report: `consume` and `release` if it ends confirmed
unfoldable pub pay : ActionAnswers → PreparedFastAction → TxLifecycleReport → World → ActionReply
unfolding terminal_status action_notional_usd
pay answers action report world =
    if is_confirmed (terminal_status report)
    then (let paid =
          consume answers.consumes action.reservation_id (action_notional_usd action) world.store in
        elim paid.0 [
          | err e ↦ (err (DaemonError.reservation e), record world { store = paid.1 })
          | ok _ ↦
              let freed =
                release answers.releases action.reservation_id (some (action_notional_usd action))
                  paid.1 in
              elim freed.0 [
                | err e ↦ (err (DaemonError.reservation e), record world { store = freed.1 })
                | ok _ ↦ (ok report, record world { store = freed.1 })
              ]
        ])
    else (ok report, world)

-- what follows the hand-off
unfoldable pub submit : ActionAnswers → PreparedFastAction → World → ActionReply
unfolding persist_events pay
submit answers action world =
    if answers.opens
    then (elim answers.submits [
      | none ↦ (err DaemonError.evm_adapter, with_state action "prepared" world)
      | some report ↦
          let (all, after) =
            persist_events action answers.persists 0 report.events
              (with_state action "prepared" world) in
          elim all [
            | false ↦ (err DaemonError.state, after)
            | true ↦ pay answers action report after
          ]
    ])
    else (err DaemonError.state, world)

module _ (transport : LocalTransport) (bridge : ValidatedSignerBridge) where
  -- The projection of the analytics, whose error is only logged, is left out.
  unfoldable pub execute_fast_path_action :
      ActionAnswers → PreparedFastAction → LocalPeerIdentity → World → ActionReply
  unfolding prepared_action_into_evm_transaction
  execute_fast_path_action answers action peer world =
      elim (require_held answers.requires action.reservation_id (action_notional_usd action)
        world.store) [
          | err e ↦ (err (DaemonError.reservation e), world)
          | ok _ ↦
              elim (bridge.request_approval_from_peer peer (action_approval transport action)) [
                | err e ↦ (err (DaemonError.signer_bridge e), world)
                | ok _ ↦
                    elim (bridge.sign_transaction_from_peer peer (record {
                      payload = (prepared_action_into_evm_transaction action).calldata;
                    })) [
                      | err e ↦ (err (DaemonError.signer_bridge e), world)
                      | ok _ ↦ submit answers action (record world {
                        handoffs = append world.handoffs (cons (action_request action) nil);
                      })
                    ]
              ]
        ]
