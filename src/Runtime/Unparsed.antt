-- ===== src/Runtime/Unparsed.antt =====
-- What the runtime does at a time that it cannot parse.
use a2ex.Base.{
  ℕ, String, ◌≡◌, refl, false, none, List, [], ◌∷◌, ◌++◌, arith, keep, Option-cases, inl, inr,
}
use a2ex.Runtime.Platform.{Float, Json}
use a2ex.Runtime.Timestamp.{parse_rfc3339_utc, within_last_hour, add_seconds}
use a2ex.Runtime.Metrics.{rebalance_history}
use a2ex.Runtime.Flags.{history-record}
use a2ex.Runtime.Triggers.{recent, rate_limit_active, fired_memory}
use a2ex.Runtime.Engine.{Snapshot, fire}

within_last_hour-unparsed :
    (fired_at now : String) → parse_rfc3339_utc now ≡ none → within_last_hour fired_at now ≡ false
unfolding within_last_hour
within_last_hour-unparsed fired_at now h = elim (Option-cases (parse_rfc3339_utc fired_at)) [
  | inl bad ↦ rw (bad, within_last_hour)
  | inr (at, good) ↦ rw (good, within_last_hour, h)
]

keep-unparsed :
    (now : String) (history : List String)
    → parse_rfc3339_utc now ≡ none
    → keep (λ fired_at. within_last_hour fired_at now) history ≡ []
keep-unparsed now [] h = refl
keep-unparsed now (fired_at ∷ history) h =
    ground (arith, within_last_hour-unparsed fired_at now h, keep-unparsed now history h)

module _ (float : Float) (json : Json) where
  -- With a time that does not parse no rate limit is active, a rebalance erases the whole history,
  -- and the rule that fires gets no cooldown.
  pub unparsed_now :
      (s : Snapshot float json) (index cooldown_sec : ℕ) (now : String)
      → parse_rfc3339_utc now ≡ none
      → (rate_limit_active json s now ≡ false)
        × (rebalance_history json (fire float json s index cooldown_sec now).metrics ≡ [])
        × ((fired_memory index cooldown_sec now).cooldown_until ≡ none)
  unfolding rate_limit_active recent fire fired_memory add_seconds
  unparsed_now s index cooldown_sec now h = (
    ground (arith, keep-unparsed now (rebalance_history json s.metrics) h),
    rw history-record (keep-unparsed now (rebalance_history json s.metrics ++ now ∷ []) h),
    rw h,
  )
