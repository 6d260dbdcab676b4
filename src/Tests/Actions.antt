-- ===== src/Tests/Actions.antt =====
-- The theorem of the fast path's payment on one action.
use a2ex.Base.{true, some, [], ◌∷◌, ◌≡◌, refl, ok}
use a2ex.Evm.{TxLifecycleStatus, TxLifecycleReport}
use a2ex.FastPath.{PreparedFastAction, PreparedVenueAction}
use a2ex.Ipc.{unix_domain_socket}
use a2ex.Signer.{client}
use a2ex.Reservation.Types.{as_str}
use a2ex.Reservation.Table.{select, append_journal_entry, update_state}
use a2ex.Reservation.Manager.{require_held, consume, release}
use a2ex.Daemon.FastAction.{ActionAnswers, submit, action_notional_usd, execute_fast_path_action}
use a2ex.Daemon.Payments.{IsSettled, execute_fast_path_action-IsSettled}
use a2ex.Tests.Reservations.{answers}
use a2ex.Tests.Dispatches.{local_client, peer, world}

abbrev action : PreparedFastAction
action = record {
  action_id = "fp-1";
  request_id = "req-1";
  reservation_id = "res-1";
  action_kind = "simple_entry";
  venue = "kalshi";
  payload = PreparedVenueAction.simple_entry "kalshi" "us-election-2028" "yes" 20;
}

abbrev report : TxLifecycleReport
report = record {
  prepared = record {
    chain_id = 8453;
    to = "entry://kalshi/us-election-2028";
    value_wei = "0";
    calldata = [];
  };
  events =
      record { status = TxLifecycleStatus.submitted }
      ∷ record { status = TxLifecycleStatus.confirmed }
      ∷ [];
}

abbrev confirms : ActionAnswers
confirms = record {
  requires = answers;
  consumes = answers;
  releases = answers;
  submits = some report;
  opens = true;
  persists = λ index. true;
}

-- the action of the example is confirmed and paid
returns_report :
    (execute_fast_path_action unix_domain_socket (local_client true) confirms action peer world).0
    ≡ ok report
unfolding execute_fast_path_action require_held select as_str action_notional_usd client submit
    consume release append_journal_entry update_state
returns_report = refl

execute_fast_path_action-IsSettled_example :
    IsSettled action world.store
      (execute_fast_path_action unix_domain_socket (local_client true) confirms action peer world)
execute_fast_path_action-IsSettled_example =
    execute_fast_path_action-IsSettled unix_domain_socket (local_client true) confirms action peer
      world
