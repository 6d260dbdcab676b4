-- ===== src/Gateway/Routes.antt =====
-- Which requests the gateway sends where.
use a2ex.Base.{true, false, none, some, refl, [], ◌∷◌, ◌≡◌, ◌↔◌, arith, if◌then◌else◌}
use a2ex.Control.{RouteTarget}
use a2ex.Compiler.Types.{
  CompiledAgentRequest, CompiledIntent, CompiledStrategy, CompileAuditContext,
}
use a2ex.Gateway.{FastPathRoute, fast_path, fast_route, classify_intent, classify, route_decision}

abbrev pub audit_of : {F : Type 0} → CompiledAgentRequest F → CompileAuditContext
audit_of (CompiledAgentRequest.intent intent) = intent.audit
audit_of (CompiledAgentRequest.strategy strategy) = strategy.audit

-- An intent takes the fast path exactly when it is no preview, names one venue, and has neither a
-- hedge ratio nor post actions; the route then carries that venue and the intent's own ids.
pub fast_path_iff :
    (intent : CompiledIntent) (route : FastPathRoute)
    → (classify_intent intent ≡ fast_path route) ↔ (
        (intent.audit.preview_only ≡ false)
        × (intent.constraints.allowed_venues ≡ route.venue ∷ [])
        × (intent.constraints.hedge_ratio_bps ≡ 0)
        × (intent.post_actions ≡ [])
        × (route ≡ fast_route intent route.venue))
unfolding classify_intent
fast_path_iff intent route = (
  λ h. (ground arith, ground arith, ground arith, ground arith, ground arith),
  λ (live, venues, ratio, actions, same). ground arith,
)

-- A preview is held with the reason "preview_only", a strategy that is no preview goes to the
-- stateful runtime, and nothing but a preview carries a reason to hold.
pub route_decision-classify :
    {F : Type 0} (request : CompiledAgentRequest F)
    → ((route_decision (classify request)).hold_reason
        ≡ (if (audit_of request).preview_only then some "preview_only" else none))
      × (((route_decision (classify request)).route ≡ RouteTarget.hold)
          ↔ ((audit_of request).preview_only ≡ true))
      × (((route_decision (classify request)).route ≡ RouteTarget.stateful_runtime) ↔ (
          (s : CompiledStrategy F) × (request ≡ CompiledAgentRequest.strategy s)
          × (s.audit.preview_only ≡ false)))
unfolding route_decision classify
route_decision-classify (CompiledAgentRequest.intent intent) =
    (ground arith, (λ h. ground arith, λ h. ground arith), (λ h. ground arith, λ (s, e, live). cc))
route_decision-classify (CompiledAgentRequest.strategy s) = (
  ground arith,
  (λ h. ground arith, λ h. ground arith),
  (λ h. (s, refl, ground arith), λ h. ground arith),
)
