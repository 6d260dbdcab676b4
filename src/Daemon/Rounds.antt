-- ===== src/Daemon/Rounds.antt =====
-- The loop of `execute_plan_step`.
use a2ex.Base.{
  ℕ, zero, suc, ◌+◌, ◌*◌, ◌%◌, ◌^◌, String, Bool, true, false, Option, none, some, List, Result, ok,
  err, find?, get_or, ltb, ◌==◌, ◌&&◌, if◌then◌else◌,
}
use Prim.Native.String.{◌++◌}
use mathlib.Core.Option
use a2ex.Planner.Types.{ExecutionPlan, PlanStep, FailureMode}
use a2ex.Reservation.Table.{Calls}
use a2ex.Reservation.Manager.{release}
use a2ex.Daemon.Types.{DaemonError, PersistedStep, World}
use a2ex.Daemon.Steps.{
  Attempt, StepAnswers, Documents, PlannedStepOutcome, stopped, done, failed, seed_plan_step,
  with_step, is_terminal_step_status, try_step,
}

-- the venue that a step falls back to, once
unfoldable pub fallback_of : PlanStep → Bool → Option String
fallback_of step true = none
fallback_of step false = elim step.failure_policy.mode [
  | FailureMode.fallback ↦ step.failure_policy.fallback_venue
  | _ ↦ none
]

-- `release(&plan.request_id, None).await.ok()`
unfoldable pub release_quietly : Calls → ExecutionPlan → World → World
release_quietly calls plan world = record world {
  store = (release calls plan.request_id none world.store).1;
}

-- the row of a step that was persisted before
unfoldable pub find_step : String → String → List PersistedStep → Option PersistedStep
find_step plan_id step_id rows =
    find? (λ row. row.plan_id == plan_id && row.step_id == step_id) rows

abbrev pub StepReply : Type 0 → Type 0
StepReply V = Result DaemonError (PlannedStepOutcome V) × World

-- how a round of the loop goes on: the number of attempts, the adapter, whether the fallback was
-- taken, and the world
pub data Round (V : Type 0) : Type 0 where
  ends : StepReply V → Round V
  again : ℕ → String → Bool → World → Round V

module _ {V : Type 0} (documents : Documents V) where
  open documents use {of_attempt, with_fallback, of_error, replayed, show, parse, show_error}

  -- the row that an attempt persists
  abbrev attempt_row :
      PlanStep → ExecutionPlan → String → String → ℕ → Option String → V → PersistedStep
  attempt_row step plan started_at status attempts error metadata =
      seed_plan_step plan.plan_id step status attempts error (some (show metadata)) started_at

  abbrev outcome_of : PlanStep → String → String → ℕ → Bool → V → PlannedStepOutcome V
  outcome_of step adapter status attempts fallback_activated metadata = record {
    step_id = step.step_id;
    adapter = adapter;
    status = status;
    attempts = attempts;
    fallback_activated = fallback_activated;
    metadata = metadata;
  }

  -- the arms of the loop that end it after an answer of the adapter
  unfoldable pub settle_step :
      Attempt V
      → PlanStep
      → ExecutionPlan
      → String
      → String
      → ℕ
      → Bool
      → String
      → V
      → World
      → StepReply V
  unfolding release_quietly
  settle_step answers step plan started_at adapter attempts fallback_activated status metadata
        world =
      let outcome = outcome_of step adapter status attempts fallback_activated metadata in
      if answers.persists
      then (if is_terminal_step_status status
          then (
            ok outcome,
            release_quietly answers.releases plan
                (with_step (attempt_row step plan started_at status attempts none metadata) world),
          )
          else (
            ok outcome,
            with_step
                (attempt_row step plan started_at status attempts
                  (some ("step ended in non-terminal status " ++ status)) metadata)
                world,
          ))
      else (err DaemonError.state, world)

  -- the arm that ends the loop after an error
  unfoldable pub give_up :
      Attempt V
      → PlanStep
      → ExecutionPlan
      → String
      → String
      → ℕ
      → Bool
      → DaemonError
      → V
      → World
      → StepReply V
  give_up answers step plan started_at adapter attempts fallback_activated error metadata world =
      if answers.persists
      then (
        ok (
            outcome_of step adapter "failed" attempts fallback_activated
              (of_error (show_error error))),
        with_step
            (attempt_row step plan started_at "failed" attempts (some (show_error error)) metadata)
            world,
      )
      else (err DaemonError.state, world)

  -- One round of the loop, from a number of attempts, an adapter and whether the fallback was
  -- taken: the step ends, or another round follows. The counter is a `u32`.
  unfoldable pub round :
      (ℕ → Attempt V) → PlanStep → ExecutionPlan → String → ℕ → String → Bool → World → Round V
  unfolding settle_step give_up fallback_of
  round env step plan started_at attempts adapter fallback_activated world =
      let n = (attempts + 1) % 2 ^ 32 in
      let answers = env n in
      let (tried, after) = try_step answers step plan started_at adapter world in
      elim tried [
        | stopped e ↦ ends (err e, after)
        | done status metadata ↦ ends (
            settle_step answers step plan started_at adapter n fallback_activated status metadata
              after)
        | failed e ↦ elim (ltb n step.failure_policy.retry.max_attempts) [
          | true ↦ elim answers.persists [
            | false ↦ ends (err DaemonError.state, after)
            | true ↦ again n adapter fallback_activated (
                with_step
                  (attempt_row step plan started_at "retrying" n (some (show_error e))
                    (of_attempt adapter n))
                  after)
          ]
          | false ↦ elim (fallback_of step fallback_activated) [
            | none ↦ ends (
                give_up answers step plan started_at adapter n fallback_activated e
                  (of_attempt adapter n) after)
            | some venue ↦ elim answers.persists [
              | false ↦ ends (err DaemonError.state, after)
              | true ↦ again n venue true (
                  with_step
                    (attempt_row step plan started_at "fallback_routed" n (some (show_error e))
                      (with_fallback (of_attempt adapter n) venue))
                    after)
            ]
          ]
        ]
      ]

  -- The loop; `env` says how the world answers each attempt, and `none` is a lack of fuel.
  unfoldable pub loop :
      ℕ
      → (ℕ → Attempt V)
      → PlanStep
      → ExecutionPlan
      → String
      → ℕ
      → String
      → Bool
      → World
      → Option (StepReply V)
  loop zero env step plan started_at attempts adapter fallback_activated world = none
  loop (suc fuel) env step plan started_at attempts adapter fallback_activated world =
      elim (round env step plan started_at attempts adapter fallback_activated world) [
        | ends reply ↦ some reply
        | again n next_adapter fell_back after ↦
            loop fuel env step plan started_at n next_adapter fell_back after
      ]

  -- enough fuel for the loop, whatever the world answers
  abbrev pub step_fuel : PlanStep → ℕ
  step_fuel step = 2 * step.failure_policy.retry.max_attempts + 2

  -- a database that does not open, or gives no rows, ends the step at once
  unfoldable pub execute_plan_step :
      StepAnswers V → PlanStep → ExecutionPlan → String → World → Option (StepReply V)
  unfolding loop find_step
  execute_plan_step answers step plan started_at world =
      if answers.reads
      then (let existing = find_step plan.plan_id step.step_id world.steps in
          loop (step_fuel step) answers.attempt step plan started_at
            (get_or (Option.map (λ (row : PersistedStep). row.attempts) existing) 0) step.adapter
            false world)
      else some (err DaemonError.state, world)
