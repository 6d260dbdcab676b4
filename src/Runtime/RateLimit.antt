-- ===== src/Runtime/RateLimit.antt =====
-- The limit on rebalances in an hour, over evaluations and over the supervisor's loop.
use mathlib.Core.Path.{subst}
use a2ex.Base.{
  ℕ, suc, ◌+◌, ◌≤◌, String, ◌≡◌, refl, ◌∙◌, Bool, true, false, some, List, [], ◌∷◌, ◌++◌, All,
  arith, find?, any, length, keep, eqb, ◌==◌, Bool-cases, Option-cases, inl, inr, ◌⊎◌, Result,
}
use a2ex.Compiler.Types.{CompiledTriggerRule}
use a2ex.Runtime.Platform.{Float, Json}
use a2ex.Runtime.Types.{
  RuntimeWatcherState, EvaluationResult, RuntimeEvent, SupervisorOutput, SupervisorError,
  manual_stop_metric,
}
use a2ex.Runtime.Timestamp.{within_last_hour}
use a2ex.Runtime.Metrics.{metric_flag, set_metric_bool, rebalance_history, record_rebalance}
use a2ex.Runtime.Flags.{history-record, history-set_flag}
use a2ex.Runtime.Triggers.{rate_limit_active, hedge_command}
use a2ex.Runtime.Engine.{Snapshot, fire, scan, observe, is_manual_stop, evaluate_live, evaluate}
use a2ex.Runtime.Loop.{
  SameButMemory, consider_next, consider_fired, consider_cases, rate_limit-same,
}
use a2ex.Runtime.Supervisor.{StrategySupervisor, receive, handle, run}

length-keep-append {ℓ} :
    {A : Type ℓ} (p : A → Bool) (xs : List A) (y : A)
    → length (keep p (xs ++ y ∷ [])) ≤ length (keep p xs) + 1
length-keep-append p [] y = ground arith
length-keep-append p (x ∷ xs) y = ground (arith, length-keep-append p xs y)

module _ (float : Float) (json : Json) where
  open float use {F}
  open json use {V}

  -- The history holds no more rebalances than the strategy's limit, where it has one.
  abbrev pub IsLimited : Snapshot float json → Type 0
  IsLimited s =
      (s.strategy.constraints.max_rebalances_per_hour ≡ 0)
      ⊎ (length (rebalance_history json s.metrics) ≤ s.strategy.constraints.max_rebalances_per_hour)

  -- what the loop makes of the metrics: nothing, or the record of one rebalance below the limit
  abbrev Records : Snapshot float json → String → Snapshot float json → Type 0
  Records s now t =
      (t.strategy ≡ s.strategy)
      × ((t.metrics ≡ s.metrics)
          ⊎ ((t.metrics ≡ record_rebalance json s.metrics now)
              × (rate_limit_active json s now ≡ false)))

  below_limit :
      (s : Snapshot float json) (now : String)
      → rate_limit_active json s now ≡ false
      → (s.strategy.constraints.max_rebalances_per_hour ≡ 0)
        ⊎ (length (
              keep
                (λ fired_at. within_last_hour fired_at now)
                (rebalance_history json s.metrics ++ now ∷ []))
            ≤ s.strategy.constraints.max_rebalances_per_hour)
  unfolding rate_limit_active
  below_limit s now below =
      let limit = s.strategy.constraints.max_rebalances_per_hour in
      let more =
        length-keep-append (λ fired_at. within_last_hour fired_at now)
          (rebalance_history json s.metrics) now in
      elim (Bool-cases (eqb limit 0)) [
        | inl none' ↦ inl (ground arith)
        | inr some' ↦ inr (ground (arith, more))
      ]

  Records-IsLimited :
      (s t : Snapshot float json) (now : String) → IsLimited s → Records s now t → IsLimited t
  Records-IsLimited s t now h (strategy, inl metrics) = rw (strategy, metrics) h
  Records-IsLimited s t now h (strategy, inr (metrics, below)) =
      rw (strategy, metrics, history-record) (below_limit s now below)

  Records-behind :
      (s t u : Snapshot float json) (now : String)
      → SameButMemory float json s t
      → Records t now u
      → Records s now u
  Records-behind s t u now same (strategy, inl metrics) =
      (strategy ∙ same.strategy, inl (metrics ∙ same.metrics))
  Records-behind s t u now same (strategy, inr (metrics, below)) = (
    strategy ∙ same.strategy,
    inr (rw (← same.metrics) metrics, rw (← rate_limit-same float json s t now same) below),
  )

  fire-Records :
      (s : Snapshot float json) (index cooldown_sec : ℕ) (now : String)
      → rate_limit_active json s now ≡ false
      → Records s now (fire float json s index cooldown_sec now)
  unfolding fire
  fire-Records s index cooldown_sec now below = (refl, inr (refl, below))

  scan-Records :
      (samples : List (RuntimeWatcherState F)) (now : String)
      (triggers : List (CompiledTriggerRule F)) (index : ℕ) (s : Snapshot float json)
      (r : EvaluationResult F V)
      → scan float json samples now triggers index s ≡ some r
      → Records s now r.snapshot
  unfolding scan
  scan-Records samples now [] index s r h =
      let same : s ≡ r.snapshot = ground arith in rw (← same) (refl, inl refl)
  scan-Records samples now (trigger ∷ triggers) index s r h =
      elim (Option-cases (find? (λ sample. sample.metric == trigger.metric) samples)) [
        | inl missing ↦ scan-Records samples now triggers (suc index) s r (rw (missing, scan) at h)
        | inr (sample, found) ↦ elim (consider_cases float json trigger index sample.value now s) [
          | inl panic ↦ ground arith
          | inr (inl (t, on)) ↦
              let (same, _) = consider_next float json trigger index sample.value now s t on in
              Records-behind s t r.snapshot now same
                (scan-Records samples now triggers (suc index) t r (ground arith))
          | inr (inr (t, command, e)) ↦
              let (_, _, _, below, _, after) =
                consider_fired float json trigger index sample.value now s t command e in
              let left : r.snapshot ≡ fire float json s index trigger.cooldown_sec now =
                ground arith in
              rw left (fire-Records s index trigger.cooldown_sec now below)
        ]
      ]

  evaluate-Records :
      (s : Snapshot float json) (samples : List (RuntimeWatcherState F)) (now : String)
      (r : EvaluationResult F V)
      → evaluate_live float json s samples now ≡ some r
      → Records s now r.snapshot
  unfolding evaluate_live
  evaluate-Records s samples now r h = elim (Bool-cases (any (is_manual_stop float json) samples)) [
    | inl stopped ↦ elim (Option-cases (hedge_command float s true manual_stop_metric)) [
      | inl panic ↦ ground arith
      | inr (command, e) ↦ (ground arith, inl (ground arith))
    ]
    | inr running ↦ scan-Records samples now s.strategy.trigger_rules 0 s r (ground arith)
  ]

  kept :
      (s t : Snapshot float json)
      → IsLimited s
      → t.strategy ≡ s.strategy
      → rebalance_history json t.metrics ≡ rebalance_history json s.metrics
      → IsLimited t
  kept s t limited strategy history = rw (strategy, history) limited

  metrics-warm :
      (s : Snapshot float json) (samples : List (RuntimeWatcherState F)) (now : String)
      (r : EvaluationResult F V)
      → metric_flag json s.metrics "warm" ≡ true
      → evaluate float json s samples now ≡ some r
      → r.snapshot.metrics ≡ set_metric_bool json s.metrics "warm" false
  unfolding evaluate observe
  metrics-warm s samples now r warm h = ground arith

  -- An evaluation keeps the number of rebalances in the history within the strategy's limit.
  evaluate-IsLimited :
      (s : Snapshot float json) (samples : List (RuntimeWatcherState F)) (now : String)
      (r : EvaluationResult F V)
      → IsLimited s
      → evaluate float json s samples now ≡ some r
      → IsLimited r.snapshot
  unfolding evaluate observe
  evaluate-IsLimited s samples now r limited h =
      let t = observe float json s samples now in
      let same = history-set_flag json s.metrics "warm" false refl in
      elim (Bool-cases (metric_flag json s.metrics "warm")) [
        | inl warm ↦
            kept s r.snapshot limited (ground arith) (rw (metrics-warm s samples now r warm h) same)
        | inr cold ↦ elim (Bool-cases (metric_flag json s.metrics "venue_sync_required")) [
          | inl waits ↦
              let metrics : r.snapshot.metrics ≡ s.metrics = ground arith in
              kept s r.snapshot limited (ground arith) (rw metrics refl)
          | inr synced ↦
              Records-IsLimited t r.snapshot now limited
                (evaluate-Records t samples now r (ground arith))
        ]
      ]

  handle-IsLimited :
      (self self' : StrategySupervisor float json) (event : RuntimeEvent F)
      (output : SupervisorOutput F V)
      → IsLimited self.snapshot
      → handle float json self event ≡ some (self', output)
      → IsLimited output.snapshot × (self'.snapshot ≡ output.snapshot)
  unfolding handle
  handle-IsLimited self self' event output limited h =
      let (latest, now) = receive event self.latest_samples in
      elim (Option-cases (evaluate float json self.snapshot latest now)) [
        | inl panic ↦ ground arith
        | inr (r, e) ↦
            let left : output.snapshot ≡ r.snapshot = ground arith in
            (rw left (evaluate-IsLimited self.snapshot latest now r limited e), ground arith)
      ]

  -- The history of every output of the supervisor's loop records no more rebalances than the limit
  -- of its strategy, if the loop starts so; a limit of 0 is none.
  pub run-IsLimited :
      (self : StrategySupervisor float json) (events : List (RuntimeEvent F × Bool))
      (outputs : List (SupervisorOutput F V)) (last : StrategySupervisor float json)
      (result : Result SupervisorError (Unit {0}))
      → IsLimited self.snapshot
      → run float json self events ≡ some (outputs, last, result)
      → All (λ output. IsLimited output.snapshot) outputs
  unfolding run
  run-IsLimited self [] outputs last result limited h =
      let same : [] ≡ outputs = ground arith in
      subst (All (λ (output : SupervisorOutput F V). IsLimited output.snapshot)) same tt
  run-IsLimited self ((event, true) ∷ events) outputs last result limited h =
      elim (Option-cases (handle float json self event)) [
        | inl panic ↦ ground arith
        | inr ((self', output), e) ↦
            let (good, left) = handle-IsLimited self self' event output limited e in
            elim (Option-cases (run float json self' events)) [
              | inl panic ↦ ground arith
              | inr ((rest, last', result'), f) ↦
                  let same : output ∷ rest ≡ outputs = ground arith in
                  subst (All (λ (output : SupervisorOutput F V). IsLimited output.snapshot)) same
                    (good, run-IsLimited self' events rest last' result' (rw left good) f)
            ]
      ]
  run-IsLimited self ((event, false) ∷ events) outputs last result limited h =
      elim (Option-cases (handle float json self event)) [
        | inl panic ↦ ground arith
        | inr ((self', output), e) ↦
            let same : [] ≡ outputs = ground arith in
            subst (All (λ (output : SupervisorOutput F V). IsLimited output.snapshot)) same tt
      ]
