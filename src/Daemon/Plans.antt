-- ===== src/Daemon/Plans.antt =====
-- `execute_planned_intent` as a whole: it ends, it reports a plan as completed only if each of its
-- steps ended, and it leaves the plan's reservation held.
use mathlib.Core.Path.{subst}
use a2ex.Base.{
  String, ◌≡◌, refl, sym, ◌∙◌, ◌⊎◌, inl, inr, true, false, Option, some, List, All, arith, ok, err,
  Bool-cases, Option-cases, length, keep, ◌==◌, eq_iff,
}
use a2ex.Planner.Types.{ExecutionPlan, PlanStep}
use a2ex.Daemon.Types.{DaemonError, World, PersistedStep}
use a2ex.Daemon.Steps.{StepAnswers, Documents, PlannedStepOutcome}
use a2ex.Daemon.Execution.{
  Repository, PlannedExecutionReport, Report, execute_steps, with_execution, finish,
  execute_planned_intent,
}
use a2ex.Daemon.Holds.{IsHeld}
use a2ex.Daemon.Reports.{
  IsBounded, Steps, HasEnded, IsComplete, steps_end, steps_store, steps-IsComplete,
}

module _ {V : Type 0} (documents : Documents V) (repository : Repository)
    (env : PlanStep → StepAnswers V) (plan_id started_at : String) (world : World)
    (plan : ExecutionPlan) (loaded : repository.plan ≡ some plan) where
  abbrev existing : List PersistedStep
  existing = keep (λ row. row.plan_id == plan_id) world.steps

  abbrev begun : World
  begun = with_execution documents plan_id "executing" world

  abbrev execution : Option (Report documents)
  execution = execute_planned_intent documents repository env plan_id started_at world

  -- Executing a plan that is loaded ends, whatever the world answers, if each step's limit of
  -- attempts is a `u8`.
  pub execute_planned_intent_ends :
      All IsBounded plan.steps → (reply : Report documents) × (execution ≡ some reply)
  unfolding execute_planned_intent
  execute_planned_intent_ends small =
      let (r, e) = steps_end documents env existing plan started_at plan.steps begun small in
      elim (Bool-cases repository.loads) [
        | inr bad ↦ ((err DaemonError.state, world), rw (bad, execute_planned_intent))
        | inl good ↦ elim (Bool-cases repository.starts) [
          | inr bad ↦
              ((err DaemonError.state, world), rw (good, execute_planned_intent, loaded, bad))
          | inl starts ↦ (
            finish documents repository plan plan_id r,
            rw (good, execute_planned_intent, loaded, starts, e),
          )
        ]
      ]

  -- an execution that does not fail at its beginning goes through the steps
  execution_cases :
      (reply : Report documents)
      → execution ≡ some reply
      → ((err DaemonError.state, world) ≡ reply)
        ⊎ ((r : Steps documents env existing plan started_at) × (execute_steps documents env
                existing plan started_at plan.steps begun
              ≡ some r)
            × (finish documents repository plan plan_id r ≡ reply))
  unfolding execute_planned_intent
  execution_cases reply e = elim (Bool-cases repository.loads) [
    | inr bad ↦
        let found : some (err DaemonError.state, world) ≡ some reply =
          rw (bad, execute_planned_intent) at e in
        inl (ground arith)
    | inl good ↦ elim (Bool-cases repository.starts) [
      | inr bad ↦
          let found : some (err DaemonError.state, world) ≡ some reply =
            rw (good, execute_planned_intent, loaded, bad) at e in
          inl (ground arith)
      | inl starts ↦
          elim (Option-cases
            (execute_steps documents env existing plan started_at plan.steps begun)) [
              | inl stuck ↦
                  let bad = rw (good, execute_planned_intent, loaded, starts, stuck) at e in
                  ground arith
              | inr (r, f) ↦
                  let found : some (finish documents repository plan plan_id r) ≡ some reply =
                    rw (good, execute_planned_intent, loaded, starts, f) at e in
                  inr (r, f, ground arith)
            ]
    ]
  ]

  finish_store :
      (r : Steps documents env existing plan started_at)
      → (finish documents repository plan plan_id r).1.store ≡ r.1.store
  unfolding finish
  finish_store (err e, w) = refl
  finish_store (ok (outcomes, false), w) = elim (Bool-cases repository.ends) [
    | inl good ↦ rw good
    | inr bad ↦ rw bad
  ]
  finish_store (ok (outcomes, true), w) = elim (Bool-cases repository.ends) [
    | inr bad ↦ rw bad
    | inl good ↦ elim (Bool-cases repository.completes) [
      | inl good' ↦ rw (good, good')
      | inr bad ↦ rw (good, bad)
    ]
  ]

  finish-HasEnded :
      (r : Steps documents env existing plan started_at) (report : PlannedExecutionReport V)
      (after : World)
      → finish documents repository plan plan_id r ≡ (ok report, after)
      → report.status ≡ "completed"
      → IsComplete documents env existing plan started_at plan.steps r
      → All HasEnded report.step_outcomes × (length report.step_outcomes ≡ length plan.steps)
  unfolding finish
  finish-HasEnded (err e, w) report after h completed k = absurd (ground arith)
  finish-HasEnded (ok (outcomes, false), w) report after h completed k =
      elim (Bool-cases repository.ends) [
        | inr bad ↦ absurd (ground arith)
        | inl good ↦
            let status : report.status ≡ "failed" = ground arith in
            let never : ◌≡◌ {A = String} "failed" "completed" = sym status ∙ completed in
            absurd (ground (arith, eq_iff "failed" "completed"))
      ]
  finish-HasEnded (ok (outcomes, true), w) report after h completed k =
      let same : outcomes ≡ report.step_outcomes = elim (Bool-cases repository.ends) [
        | inr bad ↦ absurd (ground arith)
        | inl good ↦ elim (Bool-cases repository.completes) [
          | inr bad ↦ absurd (ground arith)
          | inl good' ↦ ground arith
        ]
      ] in
      subst
        (λ (os : List (PlannedStepOutcome V)). All HasEnded os × (length os ≡ length plan.steps))
        same k

  -- Executing a plan that is loaded, and whose own reservation is held, leaves all reservations as
  -- they are, however the execution goes.
  pub execute_planned_intent-IsHeld :
      (reply : Report documents)
      → execution ≡ some reply
      → IsHeld plan.request_id world.store
      → reply.1.store ≡ world.store
  execute_planned_intent-IsHeld reply e h = elim (execution_cases reply e) [
    | inl same ↦ subst (λ (x : Report documents). x.1.store ≡ world.store) same refl
    | inr (r, f, same) ↦
        subst (λ (x : Report documents). x.1.store ≡ world.store) same
          (finish_store r
            ∙ steps_store documents env existing plan started_at plan.steps begun r h f)
  ]

  -- For a plan that is loaded, a report with the status "completed" has as many outcomes as the
  -- plan has steps, and each of them has a status that ends a step.
  pub execute_planned_intent-HasEnded :
      (report : PlannedExecutionReport V) (after : World)
      → execution ≡ some (ok report, after)
      → report.status ≡ "completed"
      → All HasEnded report.step_outcomes × (length report.step_outcomes ≡ length plan.steps)
  execute_planned_intent-HasEnded report after e completed =
      elim (execution_cases (ok report, after) e) [
        | inl same ↦ absurd (ground arith)
        | inr (r, f, same) ↦
            finish-HasEnded r report after same completed
              (steps-IsComplete documents env existing plan started_at plan.steps begun r f)
      ]
