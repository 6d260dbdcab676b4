-- ===== src/Planner/Steps.antt =====
-- The steps of a plan: their order and numbers, the venues they go to, and what each one spends.
use a2ex.Base.{
  ℕ, suc, ◌+◌, ◌-◌, ◌*◌, ◌/◌, ◌^◌, ◌≤◌, ◌<◌, String, ◌≡◌, refl, Option, none, some, List, [], ◌∷◌,
  ◌++◌, map, arith, ok, Result-cases, Option-cases, get_or, get_elem?, inl, inr, is_some,
  if◌then◌else◌,
}
use mathlib.Core.Path.{subst}
use a2ex.Compiler.Types.{CompiledIntent}
use a2ex.Planner.Types.{CapabilityMatrix, ExecutionPlan, PlanStep, PlanStepParams}
use a2ex.Planner.Plan.{
  prediction_candidates, hedge_venue, hedge_notional, destination_chain, bridge_target, build_plan,
  plan_intent, plan_steps,
}

-- The plan is built from the first two candidates and the hedge venue.
pub plan_value :
    (intent : CompiledIntent) (matrix : CapabilityMatrix) (plan : ExecutionPlan)
    → plan_intent intent matrix ≡ ok plan
    → (names : List String) × (hedge : Option String) × (prediction_candidates intent matrix
        ≡ ok names)
      × (hedge_venue intent matrix ≡ ok hedge)
      × (build_plan intent matrix (get_or (get_elem? names 0) "") (get_elem? names 1) hedge ≡ plan)
unfolding plan_intent
plan_value intent matrix plan h = elim (Result-cases (prediction_candidates intent matrix)) [
  | inr (x, e) ↦ ground arith
  | inl (names, e) ↦ elim (Result-cases (hedge_venue intent matrix)) [
    | inr (x, f) ↦ ground arith
    | inl (hedge, f) ↦ (names, hedge, e, f, ground arith)
  ]
]

-- The steps are numbered from `n` on.
abbrev Numbered : ℕ → List PlanStep → Type 0
Numbered n [] = Unit
Numbered n (step ∷ steps) = (step.sequence ≡ n) × Numbered (suc n) steps

abbrev to_list : Option String → List String
to_list none = []
to_list (some name) = name ∷ []

-- what a step spends
abbrev spends : PlanStep → ℕ
spends step = elim step.params [
  | PlanStepParams.bridge p ↦ p.amount_usd
  | PlanStepParams.entry p ↦ p.notional_usd
  | PlanStepParams.hedge p ↦ p.notional_usd
]

abbrev pub IsOrdered : ExecutionPlan → Type 0
IsOrdered plan =
    Numbered 1 plan.steps
    × (map (λ (step : PlanStep). step.adapter) plan.steps
        ≡ to_list plan.route.bridge_venue
          ++ (plan.route.entry_venue ∷ to_list plan.route.hedge_venue))

steps-Numbered :
    (intent : CompiledIntent) (primary : String) (fallback target hedge : Option String)
    → Numbered 1 (plan_steps intent primary fallback target hedge)
unfolding plan_steps
steps-Numbered intent primary fallback none none = (refl, tt)
steps-Numbered intent primary fallback none (some h) = (refl, (refl, tt))
steps-Numbered intent primary fallback (some t) none = (refl, (refl, tt))
steps-Numbered intent primary fallback (some t) (some h) = (refl, (refl, (refl, tt)))

steps_adapters :
    (intent : CompiledIntent) (primary : String) (fallback target hedge : Option String)
    → map (λ (step : PlanStep). step.adapter) (plan_steps intent primary fallback target hedge)
      ≡ to_list (if is_some target then some "across" else none) ++ (primary ∷ to_list hedge)
unfolding plan_steps
steps_adapters intent primary fallback none none = refl
steps_adapters intent primary fallback none (some h) = refl
steps_adapters intent primary fallback (some t) none = refl
steps_adapters intent primary fallback (some t) (some h) = refl

-- The steps of a plan are numbered from one without a gap, and they go, in this order, to the
-- bridge, the entry venue and the hedge venue of the plan's route.
pub plan_intent-IsOrdered :
    (intent : CompiledIntent) (matrix : CapabilityMatrix) (plan : ExecutionPlan)
    → plan_intent intent matrix ≡ ok plan
    → IsOrdered plan
unfolding build_plan
plan_intent-IsOrdered intent matrix plan h =
    let (names, hedge, _, _, same) = plan_value intent matrix plan h in
    let primary = get_or (get_elem? names 0) "" in
    let target = bridge_target intent (destination_chain matrix primary) in
    subst IsOrdered same (
      steps-Numbered intent primary (get_elem? names 1) target hedge,
      steps_adapters intent primary (get_elem? names 1) target hedge,
    )

-- what the steps after the bridge spend together
abbrev pub traded : List PlanStep → ℕ
traded [] = 0
traded (step ∷ steps) =
    (elim step.params [
      | PlanStepParams.bridge p ↦ 0
      | PlanStepParams.entry p ↦ p.notional_usd
      | PlanStepParams.hedge p ↦ p.notional_usd
    ])
    + traded steps

-- what the orders on prediction markets spend together
abbrev pub entered : List PlanStep → ℕ
entered [] = 0
entered (step ∷ steps) =
    (elim step.params [ PlanStepParams.entry p ↦ p.notional_usd | _ ↦ 0 ]) + entered steps

-- what the hedge orders spend together
abbrev pub hedged : List PlanStep → ℕ
hedged [] = 0
hedged (step ∷ steps) =
    (elim step.params [ PlanStepParams.hedge p ↦ p.notional_usd | _ ↦ 0 ]) + hedged steps

steps_shares :
    (intent : CompiledIntent) (primary name : String) (fallback target : Option String)
    → (let steps = plan_steps intent primary fallback target (some name) in
        (entered steps ≡ intent.objective.target_notional_usd - hedge_notional intent)
        × (hedged steps ≡ hedge_notional intent))
unfolding plan_steps
steps_shares intent primary name fallback none = (omega arith, omega arith)
steps_shares intent primary name fallback (some t) = (omega arith, omega arith)

-- the hedge's share is exact while the product fits in 64 bits
hedge_notional_exact :
    (intent : CompiledIntent)
    → intent.objective.target_notional_usd * intent.constraints.hedge_ratio_bps < 2 ^ 64
    → hedge_notional intent
      ≡ intent.objective.target_notional_usd * intent.constraints.hedge_ratio_bps / 10000
unfolding hedge_notional
hedge_notional_exact intent fits = omega arith

share_le : (t r : ℕ) → r ≤ 10000 → t * r / 10000 ≤ t
share_le t r h = grind arith

-- the ratio's share of the target, rounded down
abbrev pub share : CompiledIntent → ℕ
share intent = intent.objective.target_notional_usd * intent.constraints.hedge_ratio_bps / 10000

-- the hedge takes the ratio's share, and the entry the rest, which is reported as unhedged
abbrev pub TradesTarget : CompiledIntent → ExecutionPlan → Type 0
TradesTarget intent plan =
    (hedged plan.steps ≡ share intent)
    × (entered plan.steps + share intent ≡ intent.objective.target_notional_usd)
    × (traded plan.steps ≡ intent.objective.target_notional_usd)
    × (plan.risk_summary.residual_unhedged_exposure_usd ≡ entered plan.steps)

traded_split : (steps : List PlanStep) → traded steps ≡ entered steps + hedged steps
traded_split [] = omega arith
traded_split (step ∷ steps) = let rest = traded_split steps in ground arith

build_plan-TradesTarget :
    (intent : CompiledIntent) (matrix : CapabilityMatrix) (primary name : String)
    (fallback hedge : Option String)
    → intent.constraints.hedge_ratio_bps ≤ 10000
    → intent.objective.target_notional_usd * intent.constraints.hedge_ratio_bps < 2 ^ 64
    → hedge ≡ some name
    → TradesTarget intent (build_plan intent matrix primary fallback hedge)
unfolding build_plan
build_plan-TradesTarget intent matrix primary name fallback hedge ratio fits planned =
    let target = bridge_target intent (destination_chain matrix primary) in
    let steps = plan_steps intent primary fallback target (some name) in
    let part =
      share_le intent.objective.target_notional_usd intent.constraints.hedge_ratio_bps ratio in
    let exact = hedge_notional_exact intent fits in
    let (entry, hedging) = steps_shares intent primary name fallback target in
    let split = traded_split steps in
    rw planned (omega arith, omega arith, omega arith, omega arith)

-- A plan with a hedge trades the whole target where the ratio is at most 10000 basis points and its
-- product with the target fits in 64 bits: the hedge orders take the ratio's share, rounded down,
-- and the rest, which the plan reports as unhedged, is what the entry orders spend.
pub plan-TradesTarget :
    (intent : CompiledIntent) (matrix : CapabilityMatrix) (plan : ExecutionPlan) (name : String)
    → plan_intent intent matrix ≡ ok plan
    → plan.route.hedge_venue ≡ some name
    → intent.constraints.hedge_ratio_bps ≤ 10000
    → intent.objective.target_notional_usd * intent.constraints.hedge_ratio_bps < 2 ^ 64
    → TradesTarget intent plan
unfolding build_plan
plan-TradesTarget intent matrix plan name h planned ratio fits =
    let (names, hedge, _, _, same) = plan_value intent matrix plan h in
    subst (λ (p : ExecutionPlan). p.route.hedge_venue ≡ some name → TradesTarget intent p) same
      (build_plan-TradesTarget intent matrix (get_or (get_elem? names 0) "") name
        (get_elem? names 1) hedge ratio fits)
      planned

build_plan-unhedged :
    (intent : CompiledIntent) (matrix : CapabilityMatrix) (primary : String)
    (fallback hedge : Option String)
    → hedge ≡ none
    → traded (build_plan intent matrix primary fallback hedge).steps
      ≡ intent.objective.target_notional_usd - hedge_notional intent
unfolding build_plan plan_steps
build_plan-unhedged intent matrix primary fallback hedge unhedged =
    rw unhedged (elim (Option-cases (bridge_target intent (destination_chain matrix primary))) [
      | inl stays ↦ rw stays (omega arith)
      | inr (chain, moves) ↦ rw moves (omega arith)
    ])

-- A plan without a hedge venue still leaves the hedge's share out: what it trades is the target
-- less the hedge notional of the intent's ratio.
pub plan_intent-unhedged :
    (intent : CompiledIntent) (matrix : CapabilityMatrix) (plan : ExecutionPlan)
    → plan_intent intent matrix ≡ ok plan
    → plan.route.hedge_venue ≡ none
    → traded plan.steps ≡ intent.objective.target_notional_usd - hedge_notional intent
unfolding build_plan
plan_intent-unhedged intent matrix plan h unhedged =
    let (names, hedge, _, _, same) = plan_value intent matrix plan h in
    subst
      (λ (p : ExecutionPlan).
        p.route.hedge_venue ≡ none
        → traded p.steps ≡ intent.objective.target_notional_usd - hedge_notional intent)
      same
      (build_plan-unhedged intent matrix (get_or (get_elem? names 0) "") (get_elem? names 1) hedge)
      unhedged

-- Where the product of the target and the hedge ratio does not fit in 64 bits, the hedge is
-- smaller than the ratio asks for.
pub hedge_notional_overflow :
    (intent : CompiledIntent)
    → 2 ^ 64 ≤ intent.objective.target_notional_usd * intent.constraints.hedge_ratio_bps
    → hedge_notional intent
      < intent.objective.target_notional_usd * intent.constraints.hedge_ratio_bps / 10000
unfolding hedge_notional
hedge_notional_overflow intent large = omega arith
