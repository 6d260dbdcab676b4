-- ===== src/Runtime/Commands.antt =====
-- When an evaluation gives a command, and what it leaves behind of the rule that fired.
use a2ex.Base.{
  ℕ, String, ◌≡◌, true, false, some, List, [], ◌∷◌, arith, any, Bool-cases, Option-cases, inl, inr,
  ◌⊎◌,
}
use a2ex.Runtime.Platform.{Float, Json}
use a2ex.Runtime.Types.{
  RuntimeWatcherState, EvaluationResult, HedgeCommand, rebalance, unwind, manual_stop_metric,
}
use a2ex.Runtime.Triggers.{rate_limit_active, hedge_command}
use a2ex.Runtime.Metrics.{metric_flag}
use a2ex.Runtime.Engine.{Snapshot, observe, is_manual_stop, evaluate_live, evaluate}
use a2ex.Runtime.Loop.{Fires, scan_result}

module _ (float : Float) (json : Json) where
  open float use {F}
  open json use {V}

  -- the engine watches the strategy: it is neither warming up nor waiting for its venue
  abbrev pub IsLive : Snapshot float json → Type 0
  IsLive s =
      (metric_flag json s.metrics "warm" ≡ false)
      × (metric_flag json s.metrics "venue_sync_required" ≡ false)

  Fires-observe :
      (samples : List (RuntimeWatcherState F)) (now : String) (s after : Snapshot float json)
      (offset : ℕ)
      → Fires float json samples now s.strategy.trigger_rules 0
          (observe float json s samples now)
          after
          offset
      → Fires float json samples now s.strategy.trigger_rules 0 s after offset
  unfolding observe rate_limit_active
  Fires-observe samples now s after offset f = record {
    trigger = f.trigger;
    sample = f.sample;
    listed = f.listed;
    sampled = f.sampled;
    armed = f.armed;
    cool = f.cool;
    matched = f.matched;
    unlimited = f.unlimited;
    recorded = f.recorded;
    memory = f.memory;
  }

  -- what a live evaluation gives
  abbrev pub LiveResult :
      Snapshot float json
      → List (RuntimeWatcherState F)
      → String
      → EvaluationResult F V
      → HedgeCommand
      → Type 0
  LiveResult s samples now r command =
      ((r.commands ≡ unwind command ∷ []) × (any (is_manual_stop float json) samples ≡ true))
      ⊎ ((r.commands ≡ rebalance command ∷ [])
          × (any (is_manual_stop float json) samples ≡ false)
          × (index : ℕ) × Fires float json samples now s.strategy.trigger_rules 0 s r.snapshot
              index)

  live_commands :
      (s : Snapshot float json) (samples : List (RuntimeWatcherState F)) (now : String)
      (r : EvaluationResult F V)
      → evaluate_live float json (observe float json s samples now) samples now ≡ some r
      → (r.commands ≡ []) ⊎ ((command : HedgeCommand) × LiveResult s samples now r command)
  unfolding evaluate_live observe
  live_commands s samples now r h =
      let t = observe float json s samples now in
      elim (Bool-cases (any (is_manual_stop float json) samples)) [
        | inl stopped ↦ elim (Option-cases (hedge_command float t true manual_stop_metric)) [
          | inl panic ↦ ground arith
          | inr (command, e) ↦ inr (command, inl (ground arith, stopped))
        ]
        | inr running ↦
            elim (scan_result float json samples now s.strategy.trigger_rules 0 t r
              (ground arith)) [
                | inl quiet ↦ inl quiet
                | inr (command, e, index, fires) ↦ inr (
                  command,
                  inr (e, running, index, Fires-observe samples now s r.snapshot index fires),
                )
              ]
      ]

  -- An evaluation gives at most one command. An unwinding needs a live engine and a sample of the
  -- manual stop; a rebalance needs a live engine, no such sample, and a trigger rule that was armed,
  -- out of its cooldown and below the rate limit, with a sample of its metric that passes its test,
  -- and leaves that rule disarmed, as fired now, and in a cooldown that ends its own seconds from
  -- now, or in none if the time does not parse; of the strategy's earlier rebalances and this one
  -- those within the hour up to now are then recorded.
  pub evaluate_commands :
      (s : Snapshot float json) (samples : List (RuntimeWatcherState F)) (now : String)
      (r : EvaluationResult F V)
      → evaluate float json s samples now ≡ some r
      → (r.commands ≡ [])
        ⊎ ((command : HedgeCommand) × IsLive s × LiveResult s samples now r command)
  unfolding evaluate
  evaluate_commands s samples now r h =
      let t = observe float json s samples now in
      elim (Bool-cases (metric_flag json t.metrics "warm")) [
        | inl warm ↦ inl (ground arith)
        | inr cold ↦ elim (Bool-cases (metric_flag json t.metrics "venue_sync_required")) [
          | inl waits ↦ inl (ground arith)
          | inr synced ↦ elim (live_commands s samples now r (ground arith)) [
            | inl quiet ↦ inl quiet
            | inr (command, live) ↦
                inr (command, (unfold observe in cold, unfold observe in synced), live)
          ]
        ]
      ]
