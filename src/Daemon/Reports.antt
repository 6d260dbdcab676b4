-- ===== src/Daemon/Reports.antt =====
-- What the execution of a plan reports, and what it leaves of the plan's reservation.
use mathlib.Core.Path.{subst}
use a2ex.Base.{
  ◌^◌, ◌<◌, String, ◌≡◌, refl, sym, ◌∙◌, inl, inr, Bool, true, false, Option, some, List, [], ◌∷◌,
  All, arith, Result, ok, err, Bool-cases, Option-cases, Result-cases, length, find?, ◌==◌,
}
use a2ex.Planner.Types.{ExecutionPlan, PlanStep}
use a2ex.Daemon.Types.{DaemonError, PersistedStep, World}
use a2ex.Daemon.Steps.{StepAnswers, Documents, PlannedStepOutcome, is_terminal_step_status}
use a2ex.Daemon.Rounds.{execute_plan_step}
use a2ex.Daemon.Execution.{after_step, replayed_outcome, ended_before, execute_steps}
use a2ex.Daemon.Termination.{execute_plan_step_ends}
use a2ex.Daemon.Holds.{IsHeld, execute_plan_step_store}

-- every step's limit of attempts is a `u8`
abbrev pub IsBounded : PlanStep → Type 0
IsBounded step = step.failure_policy.retry.max_attempts < 2 ^ 8

ended_before_status :
    (existing : List PersistedStep) (step : PlanStep) (row : PersistedStep)
    → ended_before existing step ≡ some row
    → is_terminal_step_status row.status ≡ true
unfolding ended_before
ended_before_status existing step row h =
    elim (Option-cases (find? (λ (r : PersistedStep). r.step_id == step.step_id) existing)) [
      | inl missing ↦ let bad = rw (missing, ended_before) at h in ground arith
      | inr (found, f) ↦ elim (Bool-cases (is_terminal_step_status found.status)) [
        | inl ended ↦
            let same : some found ≡ some row = rw (f, ended_before, ended) at h in
            let same' : found ≡ row = ground arith in
            subst (λ (r : PersistedStep). is_terminal_step_status r.status ≡ true) same' ended
        | inr waits ↦ let bad = rw (f, ended_before, waits) at h in ground arith
      ]
    ]

-- the outcome's status is one of the three that end a step
abbrev pub HasEnded : {V : Type 0} → PlannedStepOutcome V → Type 0
HasEnded outcome = is_terminal_step_status outcome.status ≡ true

module _ {V : Type 0} (documents : Documents V) (env : PlanStep → StepAnswers V)
    (existing : List PersistedStep) (plan : ExecutionPlan) (started_at : String) where
  abbrev pub Steps : Type 0
  Steps = Result DaemonError (List (PlannedStepOutcome V) × Bool) × World

  abbrev go : List PlanStep → World → Option Steps
  go steps world = execute_steps documents env existing plan started_at steps world

  pub steps_end :
      (steps : List PlanStep) (world : World)
      → All IsBounded steps
      → (r : Steps) × (go steps world ≡ some r)
  unfolding execute_steps
  steps_end [] world h = (_, refl)
  steps_end (step ∷ steps) world (small, rest) = elim (Option-cases (ended_before existing step)) [
    | inr (row, f) ↦
        let (r, e) = steps_end steps world rest in
        (after_step documents (replayed_outcome documents row) r, rw (f, execute_steps) (rw e))
    | inl fresh ↦
        let (reply, f) =
          execute_plan_step_ends documents (env step) step plan started_at world small in
        elim (Result-cases reply.0) [
          | inr (x, g) ↦ ((err x, reply.1), rw (fresh, execute_steps) (rw (f, g)))
          | inl (outcome, g) ↦ elim (Bool-cases (is_terminal_step_status outcome.status)) [
            | inr waits ↦ (
              (ok (outcome ∷ [], false), reply.1),
              rw (fresh, execute_steps) (rw (f, g) (rw waits)),
            )
            | inl ended ↦
                let (r, e) = steps_end steps reply.1 rest in
                (
                  after_step documents outcome r,
                  rw (fresh, execute_steps) (rw (f, g) (rw ended (rw e))),
                )
          ]
        ]
  ]

  inside : {x y : Steps} → some x ≡ some y → x ≡ y
  inside e = ground arith

  -- an outcome in front changes nothing of the world
  left_behind :
      (outcome : PlannedStepOutcome V) (rest r : Steps)
      → some (after_step documents outcome rest) ≡ some r
      → r.1.store ≡ rest.1.store
  left_behind outcome (ok (outcomes, all_ended), world) r e =
      subst (λ (x : Steps). x.1.store ≡ world.store) (inside e) refl
  left_behind outcome (err x, world) r e =
      subst (λ (x : Steps). x.1.store ≡ world.store) (inside e) refl

  pub steps_store :
      (steps : List PlanStep) (world : World) (r : Steps)
      → IsHeld plan.request_id world.store
      → go steps world ≡ some r
      → r.1.store ≡ world.store
  unfolding execute_steps
  steps_store [] world r h e = subst (λ (x : Steps). x.1.store ≡ world.store) (inside e) refl
  steps_store (step ∷ steps) world r h e = elim (Option-cases (ended_before existing step)) [
    | inr (row, f) ↦ elim (Option-cases (go steps world)) [
      | inl stuck ↦ let bad = rw (f, execute_steps, stuck) at e in ground arith
      | inr (rest, g) ↦
          let found = rw (f, execute_steps, g) at e in
          left_behind (replayed_outcome documents row) rest r found
          ∙ steps_store steps world rest h g
    ]
    | inl fresh ↦
        elim (Option-cases (execute_plan_step documents (env step) step plan started_at world)) [
          | inl stuck ↦ let bad = rw (fresh, execute_steps, stuck) at e in ground arith
          | inr (reply, f) ↦
              let kept =
                execute_plan_step_store documents (env step) step plan started_at world reply h f in
              elim (Result-cases reply.0) [
                | inr (x, g) ↦
                    let found = rw (fresh, execute_steps, f, g) at e in
                    subst (λ (y : Steps). y.1.store ≡ world.store) (inside found) kept
                | inl (outcome, g) ↦ elim (Bool-cases (is_terminal_step_status outcome.status)) [
                  | inr waits ↦
                      let found = rw (fresh, execute_steps, f, g, waits) at e in
                      subst (λ (y : Steps). y.1.store ≡ world.store) (inside found) kept
                  | inl ended ↦ elim (Option-cases (go steps reply.1)) [
                    | inl stuck ↦
                        let bad = rw (fresh, execute_steps, f, g, ended, stuck) at e in ground arith
                    | inr (rest, k) ↦
                        left_behind outcome rest r (rw (fresh, execute_steps, f, g, ended, k) at e)
                        ∙ steps_store steps reply.1 rest
                            (subst (IsHeld plan.request_id) (sym kept) h) k
                        ∙ kept
                  ]
                ]
              ]
        ]
  ]

  -- the outcomes of a list of steps that have all ended
  abbrev pub IsComplete : List PlanStep → Steps → Type 0
  IsComplete steps (ok (outcomes, true), world) =
      All HasEnded outcomes × (length outcomes ≡ length steps)
  IsComplete steps r = Unit

  after_step-IsComplete :
      (outcome : PlannedStepOutcome V) (step : PlanStep) (steps : List PlanStep) (r : Steps)
      → HasEnded outcome
      → IsComplete steps r
      → IsComplete (step ∷ steps) (after_step documents outcome r)
  after_step-IsComplete outcome step steps (ok (outcomes, true), world) h (all, count) =
      ((h, all), omega arith)
  after_step-IsComplete outcome step steps (ok (outcomes, false), world) h k = tt
  after_step-IsComplete outcome step steps (err e, world) h k = tt

  pub steps-IsComplete :
      (steps : List PlanStep) (world : World) (r : Steps)
      → go steps world ≡ some r
      → IsComplete steps r
  unfolding execute_steps
  steps-IsComplete [] world r e = subst (IsComplete []) (inside e) (tt, refl)
  steps-IsComplete (step ∷ steps) world r e = elim (Option-cases (ended_before existing step)) [
    | inr (row, f) ↦ elim (Option-cases (go steps world)) [
      | inl stuck ↦ let bad = rw (f, execute_steps, stuck) at e in ground arith
      | inr (rest, g) ↦ subst (IsComplete (step ∷ steps)) (inside (rw (f, execute_steps, g) at e)) (
          after_step-IsComplete (replayed_outcome documents row) step steps rest
            (ended_before_status existing step row f) (steps-IsComplete steps world rest g))
    ]
    | inl fresh ↦
        elim (Option-cases (execute_plan_step documents (env step) step plan started_at world)) [
          | inl stuck ↦ let bad = rw (fresh, execute_steps, stuck) at e in ground arith
          | inr (reply, f) ↦ elim (Result-cases reply.0) [
            | inr (x, g) ↦
                subst (IsComplete (step ∷ steps)) (inside (rw (fresh, execute_steps, f, g) at e)) tt
            | inl (outcome, g) ↦ elim (Bool-cases (is_terminal_step_status outcome.status)) [
              | inr waits ↦
                  subst (IsComplete (step ∷ steps))
                    (inside (rw (fresh, execute_steps, f, g, waits) at e)) tt
              | inl ended ↦ elim (Option-cases (go steps reply.1)) [
                | inl stuck ↦
                    let bad = rw (fresh, execute_steps, f, g, ended, stuck) at e in ground arith
                | inr (rest, k) ↦
                    subst (IsComplete (step ∷ steps))
                      (inside (rw (fresh, execute_steps, f, g, ended, k) at e))
                      (after_step-IsComplete outcome step steps rest ended
                        (steps-IsComplete steps reply.1 rest k))
              ]
            ]
          ]
        ]
  ]
