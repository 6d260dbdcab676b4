-- ===== src/Daemon/Holds.antt =====
-- What executing a plan leaves of the reservation that its steps require.
use mathlib.Core.Path.{subst}
use a2ex.Base.{
  ℕ, zero, suc, ◌+◌, ◌%◌, ◌^◌, String, ◌≡◌, refl, sym, ◌∙◌, err, inl, inr, Bool, none, some, arith,
  Bool-cases, Option-cases, Result-cases, eq_iff, ltb,
}
use a2ex.Planner.Types.{ExecutionPlan, PlanStep}
use a2ex.Reservation.Types.{StoredReservation, Store, as_str}
use a2ex.Reservation.Table.{Calls, select}
use a2ex.Reservation.Manager.{release}
use a2ex.Daemon.Types.{DaemonError, World}
use a2ex.Daemon.Steps.{
  Attempt, StepAnswers, Documents, request_step_approval, try_step, is_terminal_step_status,
}
use a2ex.Daemon.Rounds.{
  StepReply, Round, ends, again, fallback_of, release_quietly, settle_step, give_up, round, loop,
  execute_plan_step,
}
use a2ex.Daemon.Termination.{Tried-cases, Round-cases}

-- the reservation is held
abbrev pub IsHeld : String → Store → Type 0
IsHeld id store =
    (row : StoredReservation) × (select id store.reservations ≡ some row) × (row.state ≡ "held")

release-IsHeld :
    (calls : Calls) (id : String) (store : Store)
    → IsHeld id store
    → (release calls id none store).1 ≡ store
unfolding release as_str
release-IsHeld calls id store (row, found, state) =
    elim (Result-cases (release calls id none store).0) [
      | inl (t, h) ↦
          let moved : row.state ≡ "consumed" = ground (arith, eq_iff row.state "consumed") in
          let never : ◌≡◌ {A = String} "held" "consumed" = sym state ∙ moved in
          absurd (ground (arith, eq_iff "held" "consumed"))
      | inr (e, h) ↦ ground arith
    ]

release_quietly-IsHeld :
    (calls : Calls) (plan : ExecutionPlan) (world : World)
    → IsHeld plan.request_id world.store
    → (release_quietly calls plan world).store ≡ world.store
unfolding release_quietly
release_quietly-IsHeld calls plan world h = release-IsHeld calls plan.request_id world.store h

module _ {V : Type 0} where
  try_step_store :
      (answers : Attempt V) (step : PlanStep) (plan : ExecutionPlan) (started_at adapter : String)
      (world : World)
      → (try_step answers step plan started_at adapter world).1.store ≡ world.store
  unfolding try_step request_step_approval
  try_step_store answers step plan started_at adapter world = ground arith

  module _ (documents : Documents V) (env : ℕ → Attempt V) (step : PlanStep) (plan : ExecutionPlan)
      (started_at : String) where
    -- the world that a round leaves
    abbrev world_of : Round V → World
    world_of (ends reply) = reply.1
    world_of (again n adapter fell_back world) = world

    settle_step_store :
        (answers : Attempt V) (adapter : String) (n : ℕ) (fell_back : Bool) (status : String)
        (metadata : V) (world : World)
        → IsHeld plan.request_id world.store
        → (settle_step documents answers step plan started_at adapter n fell_back status metadata
            world).1.store
          ≡ world.store
    unfolding settle_step
    settle_step_store answers adapter n fell_back status metadata world h =
        elim (Bool-cases answers.persists) [
          | inr bad ↦ rw bad
          | inl good ↦ elim (Bool-cases (is_terminal_step_status status)) [
            | inr waits ↦ rw (good, waits)
            | inl ended ↦
                rw (good, ended) (release-IsHeld answers.releases plan.request_id world.store h)
          ]
        ]

    round_store :
        (attempts : ℕ) (adapter : String) (fell_back : Bool) (world : World)
        → IsHeld plan.request_id world.store
        → (world_of
            (round documents env step plan started_at attempts adapter fell_back world)).store
          ≡ world.store
    unfolding round give_up try_step
    round_store attempts adapter fell_back world h =
        let n = (attempts + 1) % 2 ^ 32 in
        let answers = env n in
        let kept = try_step_store answers step plan started_at adapter world in
        let (tried, after) = try_step answers step plan started_at adapter world in
        elim (Tried-cases tried) [
          | inl (e, t) ↦ rw (t, round) kept
          | inr (inl (status, metadata, t)) ↦
              rw (t, round)
                (settle_step_store answers adapter n fell_back status metadata after
                    (subst (IsHeld plan.request_id) (sym kept) h)
                  ∙ kept)
          | inr (inr (e, t)) ↦ elim (Bool-cases answers.persists) [
            | inr bad ↦ elim (Bool-cases (ltb n step.failure_policy.retry.max_attempts)) [
              | inl more ↦ rw (t, round) (rw (more, bad) kept)
              | inr last ↦ elim (Option-cases (fallback_of step fell_back)) [
                | inl nowhere ↦ rw (t, round) (rw (last, nowhere, bad) kept)
                | inr (venue, f) ↦ rw (t, round) (rw (last, f, bad) kept)
              ]
            ]
            | inl good ↦ elim (Bool-cases (ltb n step.failure_policy.retry.max_attempts)) [
              | inl more ↦ rw (t, round) (rw (more, good) kept)
              | inr last ↦ elim (Option-cases (fallback_of step fell_back)) [
                | inl nowhere ↦ rw (t, round) (rw (last, nowhere, good) kept)
                | inr (venue, f) ↦ rw (t, round) (rw (last, f, good) kept)
              ]
            ]
          ]
        ]

    loop_store :
        (fuel attempts : ℕ) (adapter : String) (fell_back : Bool) (world : World)
        (reply : StepReply V)
        → IsHeld plan.request_id world.store
        → loop documents fuel env step plan started_at attempts adapter fell_back world ≡ some reply
        → reply.1.store ≡ world.store
    unfolding loop
    loop_store zero attempts adapter fell_back world reply h e = ground arith
    loop_store (suc fuel) attempts adapter fell_back world reply h e =
        let kept = round_store attempts adapter fell_back world h in
        elim (Round-cases
          (round documents env step plan started_at attempts adapter fell_back world)) [
            | inl (last, f) ↦
                let left : last.1.store ≡ world.store = rw f at kept in
                let found : some last ≡ some reply = rw (f, loop) at e in
                let same : last ≡ reply = ground arith in
                subst (λ (r : StepReply V). r.1.store ≡ world.store) same left
            | inr (n, other, after, w, f) ↦
                let left : w.store ≡ world.store = rw f at kept in
                loop_store fuel n other after w reply (subst (IsHeld plan.request_id) (sym left) h)
                  (rw (f, loop) at e)
                ∙ left
          ]

  pub execute_plan_step_store :
      (documents : Documents V) (answers : StepAnswers V) (step : PlanStep) (plan : ExecutionPlan)
      (started_at : String) (world : World) (reply : StepReply V)
      → IsHeld plan.request_id world.store
      → execute_plan_step documents answers step plan started_at world ≡ some reply
      → reply.1.store ≡ world.store
  unfolding execute_plan_step
  execute_plan_step_store documents answers step plan started_at world reply h e =
      elim (Bool-cases answers.reads) [
        | inl good ↦
            loop_store documents answers.attempt step plan started_at _ _ _ _ world reply h
              (rw good at e)
        | inr bad ↦
            let found : some (err DaemonError.state, world) ≡ some reply = rw bad at e in
            let same : (err DaemonError.state, world) ≡ reply = ground arith in
            subst (λ (r : StepReply V). r.1.store ≡ world.store) same refl
      ]
