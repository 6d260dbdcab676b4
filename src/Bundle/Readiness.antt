-- ===== src/Bundle/Readiness.antt =====
-- When a proposal is ready, and what it leaves to the owner.
use a2ex.Base.{List, [], ◌∷◌, map, Option, none, some, ◌≡◌, ◌≢◌, refl, ◌↔◌, arith}
use a2ex.Bundle.Drift.{append-ne-nil_right}
use a2ex.Bundle.Model.{BundleLoadOutcome, SkillBundle, BundleDiagnostic}
use a2ex.Bundle.Reading.{
  InterpretationPlanSummary, InterpretationOwnerDecision, InterpretationSetupRequirement,
  InterpretationAutomationBoundary, InterpretationRisk, InterpretationAmbiguity,
  InterpretationBlocker, ProposalReadiness,
}
use a2ex.Bundle.Interpret.{
  interpret_blocker, interpret_owner_decisions, interpret_setup_requirements, interpret_ambiguities,
  derive_status, interpretation, interpret_skill_bundle, merge_interpretation_blockers,
  interpret_bundle_load_outcome,
}
use a2ex.Bundle.Proposal.{derive_proposal_readiness, generate_proposal_packet}

-- Nothing in a bundle asks for setup or for a decision, and no section is left uninterpreted.
abbrev pub AsksNothing : Option SkillBundle → Type 0
AsksNothing none = Unit
AsksNothing (some bundle) =
    (interpret_ambiguities bundle ≡ [])
    × (interpret_setup_requirements bundle ≡ [])
    × (interpret_owner_decisions bundle ≡ [])

status_of :
    (bundle : SkillBundle)
    → (let readiness = derive_proposal_readiness (interpret_skill_bundle bundle).status in
        ((readiness ≡ ProposalReadiness.ready) ↔ AsksNothing (some bundle))
        × (readiness ≢ ProposalReadiness.blocked))
unfolding interpret_skill_bundle interpretation derive_status derive_proposal_readiness
status_of bundle = (
  (λ h. (ground arith, ground arith, ground arith), λ h. rw (h.0, h.1, h.2) refl),
  λ h. ground arith,
)

-- a blocker blocks, whatever else is read
blocked_of_blockers :
    (summary : Option InterpretationPlanSummary) (decisions : List InterpretationOwnerDecision)
    (requirements : List InterpretationSetupRequirement)
    (boundaries : List InterpretationAutomationBoundary) (risks : List InterpretationRisk)
    (ambiguities : List InterpretationAmbiguity) (blockers : List InterpretationBlocker)
    → blockers ≢ []
    → derive_proposal_readiness
        (interpretation summary decisions requirements boundaries risks ambiguities blockers).status
      ≡ ProposalReadiness.blocked
unfolding interpretation derive_status derive_proposal_readiness
blocked_of_blockers summary decisions requirements boundaries risks ambiguities [] h =
    absurd (h refl)
blocked_of_blockers summary decisions requirements boundaries risks ambiguities (b ∷ bs) h = refl

blocked_iff :
    (d : BundleDiagnostic) (ds : List BundleDiagnostic) {P : Type 0} (readiness : ProposalReadiness)
    → readiness ≡ ProposalReadiness.blocked
    → ((readiness ≡ ProposalReadiness.ready) ↔ ((d ∷ ds ≡ []) × P))
      × ((readiness ≡ ProposalReadiness.blocked) ↔ (d ∷ ds ≢ []))
blocked_iff d ds readiness h = ((λ r. cc, λ r. cc (r.0)), (λ b e. cc e, λ n. h))

readiness_iff :
    (bundle : Option SkillBundle) (diagnostics : List BundleDiagnostic)
    → (let outcome : BundleLoadOutcome = record { bundle = bundle; diagnostics = diagnostics } in
        let readiness = derive_proposal_readiness (interpret_bundle_load_outcome outcome).status in
        ((readiness ≡ ProposalReadiness.ready) ↔ ((diagnostics ≡ []) × AsksNothing bundle))
        × ((readiness ≡ ProposalReadiness.blocked) ↔ (diagnostics ≢ [])))
unfolding interpret_bundle_load_outcome merge_interpretation_blockers
readiness_iff (some bundle) [] =
    let (ready, free) = status_of bundle in
    ((λ h. (refl, ready.0 h), λ h. ready.1 h.1), (λ h. absurd (free h), λ h. absurd (h refl)))
readiness_iff none [] =
    unfold interpretation derive_status derive_proposal_readiness in
    ((λ h. (refl, tt), λ h. refl), (λ h. cc, λ h. absurd (h refl)))
readiness_iff none (d ∷ ds) = blocked_iff _ _ _ (blocked_of_blockers _ _ _ _ _ _ _ (λ e. cc e))
readiness_iff (some bundle) (d ∷ ds) = blocked_iff _ _ _ (
    blocked_of_blockers _ _ _ _ _ _ _ (
      append-ne-nil_right (interpret_skill_bundle bundle).blockers
        (interpret_blocker d ∷ map interpret_blocker ds) (λ e. cc e)))

-- A proposal is ready exactly when the loader reported nothing and the bundle, if one was loaded,
-- leaves no section ambiguous and asks for no secret and no decision; and it is blocked exactly when
-- the loader reported anything.
pub packet_readiness :
    (outcome : BundleLoadOutcome)
    → (let packet = generate_proposal_packet outcome (interpret_bundle_load_outcome outcome) in
        ((packet.proposal_readiness ≡ ProposalReadiness.ready)
          ↔ ((outcome.diagnostics ≡ []) × AsksNothing outcome.bundle))
        × ((packet.proposal_readiness ≡ ProposalReadiness.blocked) ↔ (outcome.diagnostics ≢ [])))
unfolding generate_proposal_packet
packet_readiness outcome = readiness_iff outcome.bundle outcome.diagnostics
