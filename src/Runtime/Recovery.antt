-- ===== src/Runtime/Recovery.antt =====
-- A strategy that was restored gives no command until its venue has been synchronised.
use a2ex.Base.{
  String, ◌≡◌, refl, Bool, true, false, some, List, [], ◌∷◌, All, Result, ok, err, Bool-cases, inl,
  inr,
}
use a2ex.Runtime.Platform.{Float, Json}
use a2ex.Runtime.Types.{
  RuntimeWatcherState, RuntimeEvent, SupervisorOutput, SupervisorError, output_closed,
  EvaluationResult,
}
use a2ex.Runtime.Metrics.{metric_flag, set_metric_bool}
use a2ex.Runtime.Flags.{flag-set}
use a2ex.Runtime.Engine.{Snapshot, restore, observe, evaluate}
use a2ex.Runtime.Supervisor.{StrategySupervisor, receive, handle, run, new}

module _ (float : Float) (json : Json) where
  open float use {F}
  open json use {V}

  -- the venue has not been synchronised since the restart
  abbrev IsUnsynced : Snapshot float json → Type 0
  IsUnsynced s = metric_flag json s.metrics "venue_sync_required" ≡ true

  restore-IsUnsynced :
      (s : Snapshot float json) (at : String) → IsUnsynced (restore float json s at)
  unfolding restore
  restore-IsUnsynced s at = rw flag-set

  -- one evaluation of a snapshot that waits for its venue
  evaluate-IsUnsynced :
      (s : Snapshot float json) (samples : List (RuntimeWatcherState F)) (now : String)
      → IsUnsynced s
      → (r : EvaluationResult F V) × (evaluate float json s samples now ≡ some r)
        × (r.commands ≡ [])
        × (r.snapshot.runtime_state ≡ "syncing_hedge")
        × IsUnsynced r.snapshot
  unfolding evaluate observe
  evaluate-IsUnsynced s samples now h =
      let still = flag-set json s.metrics "warm" "venue_sync_required" false in
      let t = observe float json s samples now in
      elim (Bool-cases (metric_flag json s.metrics "warm")) [
        | inl warm ↦ (
          record {
            snapshot = record t {
              metrics = set_metric_bool json s.metrics "warm" false;
              runtime_state = "syncing_hedge";
            };
            commands = [];
          },
          rw (warm, still, h),
          refl,
          refl,
          rw (still, h),
        )
        | inr cold ↦ (
          record { snapshot = record t { runtime_state = "syncing_hedge" }; commands = [] },
          rw (cold, h),
          refl,
          refl,
          h,
        )
      ]

  abbrev pub IsQuiet : SupervisorOutput F V → Type 0
  IsQuiet output = (output.commands ≡ []) × (output.snapshot.runtime_state ≡ "syncing_hedge")

  handle-IsUnsynced :
      (self : StrategySupervisor float json) (event : RuntimeEvent F)
      → IsUnsynced self.snapshot
      → (next : StrategySupervisor float json) × (output : SupervisorOutput F V) × (handle float
            json self event
          ≡ some (next, output))
        × IsQuiet output
        × IsUnsynced next.snapshot
  unfolding handle
  handle-IsUnsynced self event h =
      let (latest, now) = receive event self.latest_samples in
      let (r, e, quiet, syncing, waits) = evaluate-IsUnsynced self.snapshot latest now h in
      (
        record { snapshot = r.snapshot; latest_samples = latest },
        record { event = event; snapshot = r.snapshot; commands = r.commands },
        rw (e, handle),
        (quiet, syncing),
        waits,
      )

  run-IsUnsynced :
      (self : StrategySupervisor float json) (events : List (RuntimeEvent F × Bool))
      → IsUnsynced self.snapshot
      → (outputs : List (SupervisorOutput F V)) × (last : StrategySupervisor float json)
        × (result : Result SupervisorError (Unit {0})) × (run float json self events
            ≡ some (outputs, last, result))
        × All IsQuiet outputs
  unfolding run
  run-IsUnsynced self [] h = ([], self, ok tt, refl, tt)
  run-IsUnsynced self ((event, true) ∷ events) h =
      let (next, output, e, quiet, waits) = handle-IsUnsynced self event h in
      let (outputs, last, result, f, all) = run-IsUnsynced next events waits in
      (output ∷ outputs, last, result, rw (e, run) (rw (f, run)), (quiet, all))
  run-IsUnsynced self ((event, false) ∷ events) h =
      let (next, output, e, quiet, waits) = handle-IsUnsynced self event h in
      ([], next, err output_closed, rw (e, run), tt)

  -- Whatever events follow a restart, the supervisor of a restored snapshot handles them without a
  -- panic, every output is without commands and in the state "syncing_hedge".
  pub restored_supervisor-IsQuiet :
      (s : Snapshot float json) (recovered_at : String) (events : List (RuntimeEvent F × Bool))
      → (outputs : List (SupervisorOutput F V)) × (last : StrategySupervisor float json)
        × (result : Result SupervisorError (Unit {0})) × (run float json
              (new float json (restore float json s recovered_at))
              events
            ≡ some (outputs, last, result))
        × All IsQuiet outputs
  unfolding new
  restored_supervisor-IsQuiet s recovered_at events =
      run-IsUnsynced (new float json (restore float json s recovered_at)) events
        (restore-IsUnsynced s recovered_at)
