-- ===== src/Runtime/Loop.antt =====
-- The engine's loop over the trigger rules: which rule fires, and what it leaves behind.
use a2ex.Base.{
  ℕ, zero, suc, ◌+◌, String, ◌≡◌, ◌≢◌, refl, sym, ◌∙◌, true, false, Option, none, some, List, [],
  ◌∷◌, ◌++◌, keep, arith, find?, get_elem?, ◌==◌, Option-cases, inl, inr, ◌⊎◌,
}
use a2ex.Compiler.Types.{CompiledTriggerRule}
use a2ex.Runtime.Platform.{Float, Json}
use a2ex.Runtime.Types.{RuntimeWatcherState, EvaluationResult, HedgeCommand, rebalance}
use a2ex.Runtime.Triggers.{
  memory_of, cooldown_active, trigger_matches, rate_limit_active, hedge_command, reason_of,
}
use a2ex.Runtime.Timestamp.{within_last_hour}
use a2ex.Runtime.Metrics.{rebalance_history}
use a2ex.Runtime.Flags.{history-record}
use a2ex.Runtime.Engine.{Snapshot, Outcome, next, fired, fire, consider, scan}
use a2ex.Runtime.Memory.{HasFired, memory_of_key, memory_of-upsert_other, memory_of-arm-HasFired}

module _ (float : Float) (json : Json) where
  open float use {F}
  open json use {V}

  -- a snapshot that differs in trigger memories at most
  pub record SameButMemory (s t : Snapshot float json) : Type 0 where
    pub strategy : t.strategy ≡ s.strategy
    pub metrics : t.metrics ≡ s.metrics
    pub watcher_states : t.watcher_states ≡ s.watcher_states

  -- A trigger that does not fire leaves the memories of the other triggers alone.
  pub consider_next :
      (trigger : CompiledTriggerRule F) (index : ℕ) (value : F) (now : String)
      (s t : Snapshot float json)
      → consider float json trigger index value now s ≡ some (next t)
      → SameButMemory s t
        × ((j : ℕ) → index ≢ j → memory_of t.trigger_memory j ≡ memory_of s.trigger_memory j)
  unfolding consider
  consider_next trigger index value now s t h =
      let memory = memory_of s.trigger_memory index in
      let other =
        memory_of-upsert_other (record memory { hysteresis_armed = true }) s.trigger_memory index in
      let key = memory_of_key s.trigger_memory index in
      (
        record { strategy = ground arith; metrics = ground arith; watcher_states = ground arith },
        λ j d. ground (arith, other j key d),
      )

  -- A trigger that fires was armed, out of its cooldown and below the rate limit, and its test held.
  pub consider_fired :
      (trigger : CompiledTriggerRule F) (index : ℕ) (value : F) (now : String)
      (s t : Snapshot float json) (command : HedgeCommand)
      → consider float json trigger index value now s ≡ some (fired t command)
      → ((memory_of s.trigger_memory index).hysteresis_armed ≡ true)
        × (cooldown_active (memory_of s.trigger_memory index) now ≡ false)
        × (trigger_matches float trigger value ≡ true)
        × (rate_limit_active json s now ≡ false)
        × (hedge_command float s false (reason_of float trigger) ≡ some command)
        × (t ≡ fire float json s index trigger.cooldown_sec now)
  unfolding consider
  consider_fired trigger index value now s t command h =
      (ground arith, ground arith, ground arith, ground arith, ground arith, ground arith)

  -- The trigger at `offset` of a list that starts at `index` fires on the snapshot `s`, and leaves
  -- the snapshot `after`.
  pub record Fires (samples : List (RuntimeWatcherState F)) (now : String)
      (triggers : List (CompiledTriggerRule F)) (index : ℕ) (s after : Snapshot float json)
      (offset : ℕ) : Type 0 where
    pub trigger : CompiledTriggerRule F
    pub sample : RuntimeWatcherState F
    pub listed : get_elem? triggers offset ≡ some trigger
    pub sampled : find? (λ sample. sample.metric == trigger.metric) samples ≡ some sample
    pub armed : (memory_of s.trigger_memory (index + offset)).hysteresis_armed ≡ true
    pub cool : cooldown_active (memory_of s.trigger_memory (index + offset)) now ≡ false
    pub matched : trigger_matches float trigger sample.value ≡ true
    pub unlimited : rate_limit_active json s now ≡ false
    pub recorded :
        rebalance_history json after.metrics
        ≡ keep
            (λ fired_at. within_last_hour fired_at now)
            (rebalance_history json s.metrics ++ now ∷ [])
    pub memory : HasFired trigger.cooldown_sec now (memory_of after.trigger_memory (index + offset))

  -- what the loop ends with: no command, or the command of one trigger that fires
  abbrev ScanResult :
      List (RuntimeWatcherState F)
      → String
      → List (CompiledTriggerRule F)
      → ℕ
      → Snapshot float json
      → EvaluationResult F V
      → Type 0
  ScanResult samples now triggers index s r =
      (r.commands ≡ [])
      ⊎ ((command : HedgeCommand) × (r.commands ≡ rebalance command ∷ [])
          × (offset : ℕ) × Fires samples now triggers index s r.snapshot offset)

  pub rate_limit-same :
      (s t : Snapshot float json) (now : String)
      → SameButMemory s t
      → rate_limit_active json t now ≡ rate_limit_active json s now
  unfolding rate_limit_active
  rate_limit-same s t now h = cc (h.strategy, h.metrics)

  -- A trigger behind the first one fires on the earlier snapshot too.
  pub Fires-behind :
      (samples : List (RuntimeWatcherState F)) (now : String) (trigger : CompiledTriggerRule F)
      (triggers : List (CompiledTriggerRule F)) (index : ℕ) (s t after : Snapshot float json)
      (offset : ℕ)
      → SameButMemory s t
      → ((j : ℕ) → index ≢ j → memory_of t.trigger_memory j ≡ memory_of s.trigger_memory j)
      → Fires samples now triggers (suc index) t after offset
      → Fires samples now (trigger ∷ triggers) index s after (suc offset)
  Fires-behind samples now trigger triggers index s t after offset same memories f =
      let place : suc index + offset ≡ index + suc offset = omega arith in
      let memory : memory_of t.trigger_memory (index + suc offset)
          ≡ memory_of s.trigger_memory (index + suc offset) =
        memories (index + suc offset) (λ (e : index ≡ index + suc offset). omega arith) in
      record {
        trigger = f.trigger;
        sample = f.sample;
        listed = f.listed;
        sampled = f.sampled;
        armed = rw (← memory, ← place) f.armed;
        cool = rw (← memory, ← place) f.cool;
        matched = f.matched;
        unlimited = sym (rate_limit-same s t now same) ∙ f.unlimited;
        recorded = rw (← same.metrics) f.recorded;
        memory = rw (← place) f.memory;
      }

  behind :
      (samples : List (RuntimeWatcherState F)) (now : String) (trigger : CompiledTriggerRule F)
      (triggers : List (CompiledTriggerRule F)) (index : ℕ) (s t : Snapshot float json)
      (r : EvaluationResult F V)
      → SameButMemory s t
      → ((j : ℕ) → index ≢ j → memory_of t.trigger_memory j ≡ memory_of s.trigger_memory j)
      → ScanResult samples now triggers (suc index) t r
      → ScanResult samples now (trigger ∷ triggers) index s r
  behind samples now trigger triggers index s t r same memories (inl quiet) = inl quiet
  behind samples now trigger triggers index s t r same memories (inr (command, e, offset, fires)) =
      inr (
        command,
        e,
        suc offset,
        Fires-behind samples now trigger triggers index s t r.snapshot offset same memories fires,
      )

  pub consider_cases :
      (trigger : CompiledTriggerRule F) (index : ℕ) (value : F) (now : String)
      (s : Snapshot float json)
      → (consider float json trigger index value now s ≡ none)
        ⊎ (((t : Snapshot float json) × (consider float json trigger index value now s
                ≡ some (next t)))
            ⊎ ((t : Snapshot float json) × (command : HedgeCommand) × (consider float json trigger
                    index value now s
                  ≡ some (fired t command))))
  consider_cases trigger index value now s = go (consider float json trigger index value now s) refl
    where
      go :
          (o : Option (Outcome float json))
          → consider float json trigger index value now s ≡ o
          → (consider float json trigger index value now s ≡ none)
            ⊎ (((t : Snapshot float json) × (consider float json trigger index value now s
                    ≡ some (next t)))
                ⊎ ((t : Snapshot float json) × (command : HedgeCommand) × (consider float json
                        trigger index value now s
                      ≡ some (fired t command))))
      go none e = inl e
      go (some (next t)) e = inr (inl (t, e))
      go (some (fired t command)) e = inr (inr (t, command, e))

  fire-recorded :
      (s : Snapshot float json) (index cooldown_sec : ℕ) (now : String)
      → rebalance_history json (fire float json s index cooldown_sec now).metrics
        ≡ keep
            (λ fired_at. within_last_hour fired_at now)
            (rebalance_history json s.metrics ++ now ∷ [])
  unfolding fire
  fire-recorded s index cooldown_sec now = history-record json s.metrics now

  fire-HasFired :
      (s : Snapshot float json) (index cooldown_sec : ℕ) (now : String)
      → HasFired cooldown_sec now
          (memory_of (fire float json s index cooldown_sec now).trigger_memory index)
  unfolding fire
  fire-HasFired s index cooldown_sec now =
      memory_of-arm-HasFired s.trigger_memory index cooldown_sec now

  -- The loop never gives more than one command.
  pub scan_result :
      (samples : List (RuntimeWatcherState F)) (now : String)
      (triggers : List (CompiledTriggerRule F)) (index : ℕ) (s : Snapshot float json)
      (r : EvaluationResult F V)
      → scan float json samples now triggers index s ≡ some r
      → ScanResult samples now triggers index s r
  unfolding scan
  scan_result samples now [] index s r h = inl (ground arith)
  scan_result samples now (trigger ∷ triggers) index s r h =
      elim (Option-cases (find? (λ sample. sample.metric == trigger.metric) samples)) [
        | inl missing ↦
            let rest : scan float json samples now triggers (suc index) s ≡ some r =
              rw (missing, scan) at h in
            behind samples now trigger triggers index s s r
              (record { strategy = refl; metrics = refl; watcher_states = refl }) (λ j d. refl)
              (scan_result samples now triggers (suc index) s r rest)
        | inr (sample, found) ↦ elim (consider_cases trigger index sample.value now s) [
          | inl panic ↦ ground arith
          | inr (inl (t, on)) ↦
              let (same, memories) = consider_next trigger index sample.value now s t on in
              behind samples now trigger triggers index s t r same memories
                (scan_result samples now triggers (suc index) t r (ground arith))
          | inr (inr (t, command, e)) ↦
              let (armed, cool, matched, unlimited, _, after) =
                consider_fired trigger index sample.value now s t command e in
              let left : r.snapshot ≡ fire float json s index trigger.cooldown_sec now =
                ground arith in
              let here : index + zero ≡ index = omega arith in
              inr (
                command,
                ground arith,
                zero,
                record {
                  trigger = trigger;
                  sample = sample;
                  listed = refl;
                  sampled = found;
                  armed = rw here armed;
                  cool = rw here cool;
                  matched = matched;
                  unlimited = unlimited;
                  recorded = rw left (fire-recorded s index trigger.cooldown_sec now);
                  memory = rw (here, left) (fire-HasFired s index trigger.cooldown_sec now);
                },
              )
        ]
      ]
