-- ===== src/Evm.antt =====
-- The values that daemon/crates/a2ex-evm-adapter/src/lib.rs exchanges with the daemon.
use a2ex.Base.{ℕ, String, Option, List, get_last?}
use mathlib.Core.Option

pub record PreparedEvmTransaction : Type 0 where
  pub chain_id : ℕ  -- u64
  pub to : String
  pub value_wei : String
  pub calldata : List ℕ  -- bytes

pub data TxLifecycleStatus : Type 0 where
  prepared submitted pending confirmed failed : TxLifecycleStatus

-- An event; the receipt's metadata, which the daemon only stores, is left out.
pub record TxLifecycleEvent : Type 0 where
  pub status : TxLifecycleStatus

pub record TxLifecycleReport : Type 0 where
  pub prepared : PreparedEvmTransaction
  pub events : List TxLifecycleEvent

unfoldable pub terminal_status : TxLifecycleReport → Option TxLifecycleStatus
terminal_status report =
    Option.map (λ (event : TxLifecycleEvent). event.status) (get_last? report.events)
