-- ===== src/Policy/Verdicts.antt =====
-- When the baseline policy allows an action, holds it or rejects it.
use a2ex.Base.{String, ◌≤◌, ◌<◌, ◌≡◌, ◌≢◌, ◌↔◌, arith, eq_iff}
use a2ex.Policy.{
  PolicyInput, BaselinePolicy, allow, hold, reject, blocked_reason, over_limit_reason, evaluate,
}

-- The baseline policy rejects exactly the kind "blocked_by_policy", holds exactly what else is
-- above the limit, and allows exactly the rest; it never asks for modifications.
pub evaluate_iff :
    {V : Type 0} (policy : BaselinePolicy) (input : PolicyInput)
    → (((reason : String) × (evaluate {V = V} policy input ≡ reject reason))
        ↔ (input.action_kind ≡ "blocked_by_policy"))
      × (((reason : String) × (evaluate {V = V} policy input ≡ hold reason)) ↔ (
          (input.action_kind ≢ "blocked_by_policy")
          × (policy.auto_hold_notional_usd < input.notional_usd)))
      × ((evaluate {V = V} policy input ≡ allow) ↔ (
          (input.action_kind ≢ "blocked_by_policy")
          × (input.notional_usd ≤ policy.auto_hold_notional_usd)))
unfolding evaluate
evaluate_iff policy input =
    let kind = eq_iff input.action_kind "blocked_by_policy" in
    (
      (λ (reason, h). ground (arith, kind), λ h. (blocked_reason input, ground (arith, kind))),
      (
        λ (reason, h). ((λ e. ground (arith, kind)), ground (arith, kind)),
        λ (other, above). (over_limit_reason policy input, ground (arith, kind)),
      ),
      (
        λ h. ((λ e. ground (arith, kind)), ground (arith, kind)),
        λ (other, below). ground (arith, kind),
      ),
    )
