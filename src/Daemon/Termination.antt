-- ===== src/Daemon/Termination.antt =====
-- The loop of a step ends, and how many requests it hands to the signer.
use a2ex.Base.{
  ℕ, zero, suc, ◌+◌, ◌-◌, ◌%◌, ◌^◌, ◌<◌, String, ◌≡◌, refl, ◌⊎◌, inl, inr, Bool, true, false, some,
  err, arith, get_or, Bool-cases, Option-cases, ltb,
}
use mathlib.Core.Option
use a2ex.Planner.Types.{ExecutionPlan, PlanStep}
use a2ex.Daemon.Types.{DaemonError, PersistedStep, World}
use a2ex.Daemon.Steps.{Attempt, StepAnswers, Documents, Tried, stopped, done, failed, try_step}
use a2ex.Daemon.Rounds.{
  StepReply, Round, ends, again, fallback_of, round, loop, step_fuel, execute_plan_step, find_step,
}

pub Tried-cases :
    {V : Type 0} (t : Tried V)
    → ((e : DaemonError) × (t ≡ stopped e))
      ⊎ (((status : String) × (metadata : V) × (t ≡ done status metadata))
          ⊎ ((e : DaemonError) × (t ≡ failed e)))
Tried-cases (stopped e) = inl (e, refl)
Tried-cases (done status metadata) = inr (inl (status, metadata, refl))
Tried-cases (failed e) = inr (inr (e, refl))

pub Round-cases :
    {V : Type 0} (r : Round V)
    → ((reply : StepReply V) × (r ≡ ends reply))
      ⊎ ((n : ℕ) × (adapter : String) × (fell_back : Bool) × (world : World) × (r
            ≡ again n adapter fell_back world))
Round-cases (ends reply) = inl (reply, refl)
Round-cases (again n adapter fell_back world) = inr (n, adapter, fell_back, world, refl)

module _ {V : Type 0} (documents : Documents V) (env : ℕ → Attempt V) (step : PlanStep)
    (plan : ExecutionPlan) (started_at : String) where
  abbrev bumped : ℕ → ℕ
  bumped attempts = (attempts + 1) % 2 ^ 32

  abbrev max_attempts : ℕ
  max_attempts = step.failure_policy.retry.max_attempts

  -- How a round goes on: as a retry below the limit, or with the fallback that was not taken yet.
  abbrev IsNext : ℕ → Bool → Round V → Type 0
  IsNext attempts before (ends reply) = Unit
  IsNext attempts before (again n adapter after world) =
      (n ≡ bumped attempts)
      × (((n < max_attempts) × (after ≡ before)) ⊎ ((before ≡ false) × (after ≡ true)))

  fallback_of-fresh :
      (fell_back : Bool) (venue : String)
      → fallback_of step fell_back ≡ some venue
      → fell_back ≡ false
  unfolding fallback_of
  fallback_of-fresh true venue h = ground arith
  fallback_of-fresh false venue h = refl

  round-IsNext :
      (attempts : ℕ) (adapter : String) (fell_back : Bool) (world : World)
      → IsNext attempts fell_back
          (round documents env step plan started_at attempts adapter fell_back world)
  unfolding round
  round-IsNext attempts adapter fell_back world =
      let n = bumped attempts in
      elim (Tried-cases (try_step (env n) step plan started_at adapter world).0) [
        | inl (e, t) ↦ rw (t, round) tt
        | inr (inl (status, metadata, t)) ↦ rw (t, round) tt
        | inr (inr (e, t)) ↦ elim (Bool-cases (ltb n max_attempts)) [
          | inl more ↦ elim (Bool-cases (env n).persists) [
            | inr bad ↦ rw (t, round) (rw (more, bad) tt)
            | inl good ↦ rw (t, round) (rw (more, good) (refl, inl (ground arith, refl)))
          ]
          | inr last ↦ elim (Option-cases (fallback_of step fell_back)) [
            | inl nowhere ↦ rw (t, round) (rw (last, nowhere) tt)
            | inr (venue, e') ↦ elim (Bool-cases (env n).persists) [
              | inr bad ↦ rw (t, round) (rw (last, e', bad) tt)
              | inl good ↦
                  rw (t, round)
                    (rw (last, e', good) (refl, inr (fallback_of-fresh fell_back venue e', refl)))
            ]
          ]
        ]
      ]

  abbrev Ends : ℕ → ℕ → String → Bool → World → Type 0
  Ends fuel attempts adapter fell_back world =
      (reply : StepReply V) × (loop documents fuel env step plan started_at attempts adapter
          fell_back world
        ≡ some reply)

  -- the rounds that are left: the retries, and as many again if the fallback is still to come
  abbrev left : ℕ → Bool → ℕ
  left attempts true = max_attempts - bumped attempts
  left attempts false = max_attempts - bumped attempts + max_attempts + 1

  left_next :
      (attempts n : ℕ) (before after : Bool)
      → max_attempts < 2 ^ 32
      → n ≡ bumped attempts
      → ((n < max_attempts) × (after ≡ before)) ⊎ ((before ≡ false) × (after ≡ true))
      → left n after < left attempts before
  left_next attempts n true true small h way = ground arith
  left_next attempts n false false small h way = ground arith
  left_next attempts n false true small h way = omega arith
  left_next attempts n true false small h way = ground arith

  loop-Ends :
      (fuel attempts : ℕ) (adapter : String) (fell_back : Bool) (world : World)
      → max_attempts < 2 ^ 32
      → left attempts fell_back < fuel
      → Ends fuel attempts adapter fell_back world
  unfolding loop
  loop-Ends zero attempts adapter fell_back world small enough = absurd (omega arith)
  loop-Ends (suc fuel) attempts adapter fell_back world small enough =
      elim (Round-cases
        (round documents env step plan started_at attempts adapter fell_back world)) [
          | inl (reply, e) ↦ (reply, rw (e, loop))
          | inr (n, other, after, w, e) ↦
              let (h, way) : IsNext attempts fell_back (again n other after w) =
                rw e at (round-IsNext attempts adapter fell_back world) in
              let (reply, f) =
                loop-Ends fuel n other after w small
                  (omega (arith, left_next attempts n fell_back after small h way)) in
              (reply, rw (e, loop) f)
        ]

-- The loop of a step ends within its fuel, whatever the world answers and however often the step
-- was tried before.
pub execute_plan_step_ends :
    {V : Type 0} (documents : Documents V) (answers : StepAnswers V) (step : PlanStep)
    (plan : ExecutionPlan) (started_at : String) (world : World)
    → step.failure_policy.retry.max_attempts < 2 ^ 8
    → (reply : StepReply V) × (execute_plan_step documents answers step plan started_at world
        ≡ some reply)
unfolding execute_plan_step
execute_plan_step_ends documents answers step plan started_at world small =
    let tried =
      get_or
        (Option.map (λ (row : PersistedStep). row.attempts)
          (find_step plan.plan_id step.step_id world.steps))
        0 in
    let (reply, e) =
      loop-Ends documents answers.attempt step plan started_at (step_fuel documents step) tried
        step.adapter false world (omega arith) (omega arith) in
    elim (Bool-cases answers.reads) [
      | inl good ↦ (reply, rw good e)
      | inr bad ↦ ((err DaemonError.state, world), rw bad refl)
    ]
