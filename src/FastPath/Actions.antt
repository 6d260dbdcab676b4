-- ===== src/FastPath/Actions.antt =====
-- When an intent and its route make a template.
use a2ex.Base.{String, ℕ, List, ◌≡◌, ◌↔◌, false, err, arith, eq_iff}
use a2ex.Compiler.Types.{CompiledIntent}
use a2ex.Gateway.{FastPathRoute}
use a2ex.FastPath.{FastPathError, missing_venue, contains, template_from_compiled_intent}

-- A template is refused exactly when neither the intent's type nor its domain speaks of a contract
-- and the route names no venue, and always as a missing venue.
pub template_fails_iff :
    (sha256 : String → List ℕ) (hex_encode : List ℕ → String) (intent : CompiledIntent)
    (route : FastPathRoute) (e : FastPathError)
    → (template_from_compiled_intent sha256 hex_encode intent route ≡ err e) ↔ (
        (contains intent.intent_type "contract" ≡ false)
        × (contains intent.objective.domain "contract" ≡ false)
        × (route.venue ≡ "")
        × (e ≡ missing_venue intent.audit.request_id))
unfolding template_from_compiled_intent
template_fails_iff sha256 hex_encode intent route e =
    let named = eq_iff route.venue "" in
    (
      λ h. (ground arith, ground arith, ground (arith, named), ground arith),
      λ (kind, domain, venue, missing). rw (kind, domain, venue, missing),
    )
