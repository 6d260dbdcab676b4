-- ===== src/Runtime/Supervisor.antt =====
-- `StrategySupervisor`: the latest sample of each watcher, and the loop over the events.
use Prim.Native.Nat.{Ordering}
use Prim.Native.String.{compare}
use a2ex.Base.{String, Bool, true, false, Option, none, some, List, [], ◌∷◌, Result, ok, err}
use a2ex.Runtime.Platform.{Float, Json}
use a2ex.Runtime.Types.{
  RuntimeWatcherState, RuntimeEvent, watcher_sample, tick, SupervisorOutput, SupervisorError,
  output_closed,
}
use a2ex.Runtime.Engine.{Snapshot, evaluate}

-- `BTreeMap<String, RuntimeWatcherState>`: its values in the order of their keys
abbrev Samples : Type 0 → Type 0
Samples F = List (RuntimeWatcherState F)

unfoldable insert_sample : {F : Type 0} → RuntimeWatcherState F → Samples F → Samples F
insert_sample sample [] = sample ∷ []
insert_sample sample (s ∷ rest) = elim (compare sample.watcher_key s.watcher_key) [
  | Ordering.lt ↦ sample ∷ s ∷ rest
  | Ordering.eq ↦ sample ∷ rest
  | Ordering.gt ↦ s ∷ insert_sample sample rest
]

-- `collect` into the map: a later sample of a key replaces an earlier one
unfoldable collect : {F : Type 0} → List (RuntimeWatcherState F) → Samples F → Samples F
unfolding insert_sample
collect [] latest = latest
collect (sample ∷ samples) latest = collect samples (insert_sample sample latest)

-- the map and the time after an event has come in
unfoldable pub receive : {F : Type 0} → RuntimeEvent F → Samples F → Samples F × String
unfolding insert_sample
receive (watcher_sample sample) latest = (insert_sample sample latest, sample.sampled_at)
receive (tick now) latest = (latest, now)

module _ (float : Float) (json : Json) where
  open float use {F}
  open json use {V}

  pub record StrategySupervisor : Type 0 where
    pub snapshot : Snapshot float json
    pub latest_samples : Samples F

  unfoldable pub new : Snapshot float json → StrategySupervisor
  unfolding collect
  new snapshot = record { snapshot = snapshot; latest_samples = collect snapshot.watcher_states [] }

  -- the body of the loop, before the output is sent
  unfoldable pub handle :
      StrategySupervisor → RuntimeEvent F → Option (StrategySupervisor × SupervisorOutput F V)
  handle self event =
      let (latest, now) = receive event self.latest_samples in
      elim (evaluate float json self.snapshot latest now) [
        | none ↦ none
        | some result ↦ some (
          record { snapshot = result.snapshot; latest_samples = latest },
          record { event = event; snapshot = result.snapshot; commands = result.commands },
        )
      ]

  -- One round for each event that `recv` gives, with whether the output channel still takes the
  -- output. It returns the outputs sent, the last state and the loop's result; `none` is a panic.
  unfoldable pub run :
      StrategySupervisor
      → List (RuntimeEvent F × Bool)
      → Option
          (List (SupervisorOutput F V) × StrategySupervisor × Result SupervisorError (Unit {0}))
  run self [] = some ([], self, ok tt)
  run self ((event, true) ∷ events) = elim (handle self event) [
    | none ↦ none
    | some (self', output) ↦ elim (run self' events) [
      | none ↦ none
      | some (outputs, last, result) ↦ some (output ∷ outputs, last, result)
    ]
  ]
  run self ((event, false) ∷ events) = elim (handle self event) [
    | none ↦ none
    | some (self', output) ↦ some ([], self', err output_closed)
  ]
