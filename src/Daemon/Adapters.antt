-- ===== src/Daemon/Adapters.antt =====
-- When a step's adapter lets it end.
use mathlib.Core.Path.{subst}
use a2ex.Base.{String, ◌≡◌, refl, inl, inr, true, Option, none, some, arith, Bool-cases}
use a2ex.Planner.Types.{PlanStep, PlanStepParams}
use a2ex.Daemon.Types.{DaemonError}
use a2ex.Daemon.Steps.{
  Attempt, done, of_answer, fallback_status, call_adapter, is_terminal_step_status, known_venue,
}

-- the step is a hedge
abbrev IsHedge : PlanStepParams → Type 0
IsHedge (PlanStepParams.hedge p) = Unit
IsHedge params = ⊥

fallback_status_ends :
    (status terminal : String)
    → is_terminal_step_status terminal ≡ true
    → is_terminal_step_status (fallback_status status terminal) ≡ true
unfolding fallback_status
fallback_status_ends status terminal h = elim (Bool-cases (is_terminal_step_status status)) [
  | inl ended ↦ rw (ended, fallback_status) ended
  | inr waits ↦ rw (waits, fallback_status) h
]

of_answer_ends :
    {V : Type 0} (error : DaemonError) (terminal status : String) (metadata : V)
    (answer : Option (String × V))
    → is_terminal_step_status terminal ≡ true
    → of_answer error terminal answer ≡ done status metadata
    → is_terminal_step_status status ≡ true
of_answer_ends error terminal status metadata none h k = ground arith
of_answer_ends error terminal status metadata (some (given, m)) h k =
    let same : fallback_status given terminal ≡ status = ground arith in
    subst (λ (s : String). is_terminal_step_status s ≡ true) same
      (fallback_status_ends given terminal h)

adapter_ends :
    {V : Type 0} (answers : Attempt V) (step : PlanStep) (adapter status : String) (metadata : V)
    (params : PlanStepParams)
    → step.params ≡ params
    → (IsHedge params → ⊥)
    → call_adapter answers step adapter ≡ done status metadata
    → is_terminal_step_status status ≡ true
unfolding call_adapter is_terminal_step_status
adapter_ends answers step adapter status metadata (PlanStepParams.bridge p) e other h =
    of_answer_ends DaemonError.across_adapter "settled" status metadata answers.bridges refl
      (rw (e, call_adapter) at h)
adapter_ends answers step adapter status metadata (PlanStepParams.entry p) e other h =
    elim (Bool-cases (known_venue adapter)) [
      | inl known ↦
          of_answer_ends DaemonError.prediction_market_adapter "filled" status metadata
            answers.places refl (rw (e, call_adapter, known) at h)
      | inr unknown ↦ let bad = rw (e, call_adapter, unknown) at h in ground arith
    ]
adapter_ends answers step adapter status metadata (PlanStepParams.hedge p) e other h =
    absurd (other tt)

-- A step that is no hedge ends as soon as its adapter answers without an error, whatever status
-- the adapter answers.
pub call_adapter_ends :
    {V : Type 0} (answers : Attempt V) (step : PlanStep) (adapter status : String) (metadata : V)
    → (IsHedge step.params → ⊥)
    → call_adapter answers step adapter ≡ done status metadata
    → is_terminal_step_status status ≡ true
call_adapter_ends answers step adapter status metadata other h =
    adapter_ends answers step adapter status metadata step.params refl other h
