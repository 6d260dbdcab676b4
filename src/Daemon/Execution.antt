-- ===== src/Daemon/Execution.antt =====
-- `execute_planned_intent`: the steps of a plan, one after the other.
use a2ex.Base.{
  String, Bool, true, false, Option, none, some, List, [], ◌∷◌, Result, ok, err, find?, keep,
  get_or, ◌==◌, if◌then◌else◌,
}
use Prim.Native.String.{◌++◌}
use a2ex.Base.{◌++◌ as append}
use mathlib.Core.Option
use a2ex.FastPath.{contains}
use a2ex.Planner.Types.{ExecutionPlan, PlanStep}
use a2ex.Daemon.Types.{DaemonError, PersistedStep, World}
use a2ex.Daemon.Rounds.{execute_plan_step}
use a2ex.Daemon.Steps.{StepAnswers, Documents, PlannedStepOutcome, is_terminal_step_status}

pub record PlannedExecutionReport (V : Type 0) : Type 0 where
  pub plan_id : String
  pub status : String
  pub step_outcomes : List (PlannedStepOutcome V)

-- what the state database answers to an execution: the plan that it loads, and whether its calls at
-- the beginning and the end succeed
pub record Repository : Type 0 where
  pub loads : Bool
  pub plan : Option ExecutionPlan
  pub starts : Bool
  pub ends : Bool
  pub completes : Bool

-- the row that lets a step be skipped: it was there when the execution began, and has ended
unfoldable pub ended_before : List PersistedStep → PlanStep → Option PersistedStep
ended_before existing_steps step =
    elim (find? (λ row. row.step_id == step.step_id) existing_steps) [
      | none ↦ none
      | some row ↦ if is_terminal_step_status row.status then some row else none
    ]

module _ {V : Type 0} (documents : Documents V) where
  open documents use {replayed, parse}

  -- the outcome of a step whose row has ended before
  abbrev pub replayed_outcome : PersistedStep → PlannedStepOutcome V
  replayed_outcome row = record {
    step_id = row.step_id;
    adapter = row.adapter;
    status = row.status;
    attempts = row.attempts;
    fallback_activated =
        get_or (Option.map (λ text. contains text "fallback_venue") row.metadata_json) false;
    metadata = get_or (Option.bind row.metadata_json parse) replayed;
  }

  -- what the rest of the steps comes to behind one more outcome
  abbrev pub after_step :
      PlannedStepOutcome V
      → Result DaemonError (List (PlannedStepOutcome V) × Bool) × World
      → Result DaemonError (List (PlannedStepOutcome V) × Bool) × World
  after_step outcome (ok (outcomes, all_ended), world) = (ok (outcome ∷ outcomes, all_ended), world)
  after_step outcome (err e, world) = (err e, world)

  -- What the loop over the steps ends with: a report's outcomes, with whether all steps ended, or
  -- an error. `env` says how the world answers each step.
  unfoldable pub execute_steps :
      (PlanStep → StepAnswers V)
      → List PersistedStep
      → ExecutionPlan
      → String
      → List PlanStep
      → World
      → Option (Result DaemonError (List (PlannedStepOutcome V) × Bool) × World)
  unfolding ended_before
  execute_steps env existing_steps plan started_at [] world = some (ok ([], true), world)
  execute_steps env existing_steps plan started_at (step ∷ steps) world =
      elim (ended_before existing_steps step) [
        | some row ↦
            Option.map (after_step (replayed_outcome row))
              (execute_steps env existing_steps plan started_at steps world)
        | none ↦ elim (execute_plan_step documents (env step) step plan started_at world) [
          | none ↦ none
          | some reply ↦ elim reply.0 [
            | err e ↦ some (err e, reply.1)
            | ok outcome ↦ elim (is_terminal_step_status outcome.status) [
              | false ↦ some (ok (outcome ∷ [], false), reply.1)
              | true ↦
                  Option.map (after_step outcome)
                    (execute_steps env existing_steps plan started_at steps reply.1)
            ]
          ]
        ]
      ]

  abbrev pub with_execution : String → String → World → World
  with_execution plan_id status world = record world {
    executions =
        append world.executions
          (record { execution_id = plan_id; plan_id = plan_id; status = status } ∷ []);
  }

  abbrev pub Report : Type 0
  Report = Result DaemonError (PlannedExecutionReport V) × World

  -- the end of `execute_planned_intent`, once the steps have been gone through
  unfoldable pub finish :
      Repository
      → ExecutionPlan
      → String
      → Result DaemonError (List (PlannedStepOutcome V) × Bool) × World
      → Report
  finish repository plan plan_id (err e, world) = (err e, world)
  finish repository plan plan_id (ok (outcomes, false), world) =
      if repository.ends
      then (
        ok (record { plan_id = plan_id; status = "failed"; step_outcomes = outcomes }),
        with_execution plan_id "failed" world,
      )
      else (err DaemonError.state, world)
  finish repository plan plan_id (ok (outcomes, true), world) =
      if repository.ends
      then (let ended = with_execution plan_id "completed" world in
          if repository.completes
          then (
            ok (record { plan_id = plan_id; status = "completed"; step_outcomes = outcomes }),
            record ended { plans = append ended.plans ((plan, "completed") ∷ []) },
          )
          else (err DaemonError.state, ended))
      else (err DaemonError.state, world)

  -- The projection of the analytics, whose result is dropped, is left out.
  unfoldable pub execute_planned_intent :
      Repository → (PlanStep → StepAnswers V) → String → String → World → Option Report
  unfolding execute_steps finish
  execute_planned_intent repository env plan_id started_at world =
      if repository.loads
      then (elim repository.plan [
        | none ↦
            some (
              err (DaemonError.plan_execution ("plan " ++ (plan_id ++ " is not persisted"))),
              world,
            )
        | some plan ↦
            if repository.starts
            then Option.map (finish repository plan plan_id) (
                execute_steps env (keep (λ row. row.plan_id == plan_id) world.steps) plan started_at
                  plan.steps (with_execution plan_id "executing" world))
            else some (err DaemonError.state, world)
      ])
      else some (err DaemonError.state, world)
