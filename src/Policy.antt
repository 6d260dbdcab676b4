-- ===== src/Policy.antt =====
-- The baseline policy of daemon/crates/a2ex-policy/src/lib.rs. `V` is `serde_json::Value`, which
-- the baseline policy never makes.
pub mod Verdicts
use Prim.Native.String.{◌++◌}
use a2ex.Base.{ℕ, String, List, ltb, ◌==◌, if◌then◌else◌}
use a2ex.Base.Text.{decimal}

pub record PolicyInput : Type 0 where
  pub action_id : String
  pub action_kind : String
  pub notional_usd : ℕ  -- u64

pub data PolicyDecision (V : Type 0) : Type 0 where
  allow : PolicyDecision V
  allow_with_modifications : List (String × V) → PolicyDecision V
  hold : String → PolicyDecision V
  reject : String → PolicyDecision V

pub record BaselinePolicy : Type 0 where
  pub auto_hold_notional_usd : ℕ  -- u64

-- `BaselinePolicy::default`
abbrev pub default : BaselinePolicy
default = record { auto_hold_notional_usd = 100000 }

-- the two reasons that `evaluate` gives
abbrev pub blocked_reason : PolicyInput → String
blocked_reason input =
    "action " ++ (input.action_kind ++ " is blocked by the baseline local policy gate")

abbrev pub over_limit_reason : BaselinePolicy → PolicyInput → String
over_limit_reason policy input =
    "action requires reservation review because notional "
    ++ (decimal input.notional_usd
        ++ (" exceeds auto-allow limit " ++ decimal policy.auto_hold_notional_usd))

unfoldable pub evaluate : {V : Type 0} → BaselinePolicy → PolicyInput → PolicyDecision V
evaluate policy input =
    if input.action_kind == "blocked_by_policy"
    then reject (blocked_reason input)
    else if ltb policy.auto_hold_notional_usd input.notional_usd
    then hold (over_limit_reason policy input)
    else allow
