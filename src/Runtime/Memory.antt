-- ===== src/Runtime/Memory.antt =====
-- What the engine finds in its trigger memories after a write.
use text.Mathlib.TextLemmas.{append_cancel_left}
use a2ex.Base.{
  ℕ, String, ◌≡◌, ◌≢◌, ◌⊎◌, refl, false, Option, none, some, List, [], ◌∷◌, arith, ◌==◌, eq_iff,
  eq_refl, if◌then◌else◌, Option-cases, Bool-cases, eqb, inl, inr,
}
use a2ex.Base.Text.{decimal}
use a2ex.Base.Int.{ℤ, pos, ◌+ℤ◌}
use a2ex.Runtime.Timestamp.{parse_rfc3339_utc, format_rfc3339_utc, add_seconds, as_i64}
use a2ex.Runtime.Types.{RuntimeTriggerMemory}
use a2ex.Runtime.Timestamp.Digits.{decimal-injective}
use a2ex.Runtime.Triggers.{
  trigger_key, find_memory, memory_of, upsert_memory, arm_trigger, fired_memory,
}

trigger_key-injective : (i j : ℕ) → trigger_key i ≡ trigger_key j → i ≡ j
unfolding trigger_key
trigger_key-injective i j h =
    decimal-injective i j (append_cancel_left "trigger-" (decimal i) (decimal j) h)

-- A memory that is written is the one found under its key, and the others are as before.
find_memory-upsert :
    (key : String) (memory : RuntimeTriggerMemory) (memories : List RuntimeTriggerMemory)
    → find_memory key (upsert_memory memory memories)
      ≡ (if memory.trigger_key == key then some memory else find_memory key memories)
unfolding find_memory upsert_memory
find_memory-upsert key memory [] = refl
find_memory-upsert key memory (m ∷ memories) = ground (
  arith,
  find_memory-upsert key memory memories,
  eq_iff m.trigger_key memory.trigger_key,
  eq_iff m.trigger_key key,
  eq_iff memory.trigger_key key,
)

find_memory_key :
    (key : String) (memories : List RuntimeTriggerMemory) (memory : RuntimeTriggerMemory)
    → find_memory key memories ≡ some memory
    → memory.trigger_key ≡ key
unfolding find_memory
find_memory_key key [] memory h = ground arith
find_memory_key key (m ∷ memories) memory h =
    ground (arith, eq_iff m.trigger_key key, find_memory_key key memories memory)

pub memory_of_key :
    (memories : List RuntimeTriggerMemory) (i : ℕ)
    → (memory_of memories i).trigger_key ≡ trigger_key i
unfolding memory_of
memory_of_key memories i = elim (Option-cases (find_memory (trigger_key i) memories)) [
  | inl missing ↦ rw missing
  | inr (m, found) ↦ rw found (find_memory_key (trigger_key i) memories m found)
]

pub memory_of-upsert_other :
    (memory : RuntimeTriggerMemory) (memories : List RuntimeTriggerMemory) (i j : ℕ)
    → memory.trigger_key ≡ trigger_key i
    → i ≢ j
    → memory_of (upsert_memory memory memories) j ≡ memory_of memories j
unfolding memory_of
memory_of-upsert_other memory memories i j h d =
    let apart : (memory.trigger_key == trigger_key j) ≡ false = ground (
      arith,
      eq_iff memory.trigger_key (trigger_key j),
      λ (e : trigger_key i ≡ trigger_key j). d (trigger_key-injective i j e),
    ) in
    rw (find_memory-upsert, apart)

pub memory_of-arm :
    (memories : List RuntimeTriggerMemory) (i cooldown_sec : ℕ) (now : String)
    → memory_of (arm_trigger memories i cooldown_sec now) i ≡ fired_memory i cooldown_sec now
unfolding memory_of arm_trigger fired_memory
memory_of-arm memories i cooldown_sec now = rw (find_memory-upsert, eq_refl)

-- Firing a trigger writes the memory of that trigger and leaves the memory of every other as it
-- was.
pub arm_trigger_lem :
    (memories : List RuntimeTriggerMemory) (i j cooldown_sec : ℕ) (now : String)
    → memory_of (arm_trigger memories i cooldown_sec now) j
      ≡ (if eqb i j then fired_memory i cooldown_sec now else memory_of memories j)
unfolding arm_trigger fired_memory
arm_trigger_lem memories i j cooldown_sec now = elim (Bool-cases (eqb i j)) [
  | inl same ↦
      let e : i ≡ j = ground arith in rw (same, ← e) (memory_of-arm memories i cooldown_sec now)
  | inr other ↦ rw other (
      memory_of-upsert_other (fired_memory i cooldown_sec now) memories i j refl
        (λ (e : i ≡ j). ground arith))
]

-- where a cooldown of some seconds from `now` ends, in 64-bit seconds; there is none at a time that
-- does not parse
abbrev CoolsUntil : ℕ → String → Option String → Type 0
CoolsUntil cooldown_sec now until =
    ((parse_rfc3339_utc now ≡ none) × (until ≡ none))
    ⊎ ((epoch : ℤ) × (parse_rfc3339_utc now ≡ some epoch)
        × (until ≡ some (format_rfc3339_utc (as_i64 (epoch +ℤ as_i64 (pos cooldown_sec))))))

-- the memory of a rule that has fired at `now`
pub record HasFired (cooldown_sec : ℕ) (now : String) (memory : RuntimeTriggerMemory) : Type 0 where
  pub disarmed : memory.hysteresis_armed ≡ false
  pub fired_at : memory.last_fired_at ≡ some now
  pub cools : CoolsUntil cooldown_sec now memory.cooldown_until

fired_memory-HasFired :
    (i cooldown_sec : ℕ) (now : String)
    → HasFired cooldown_sec now (fired_memory i cooldown_sec now)
unfolding fired_memory add_seconds
fired_memory-HasFired i cooldown_sec now = elim (Option-cases (parse_rfc3339_utc now)) [
  | inl bad ↦ record { disarmed = refl; fired_at = refl; cools = inl (bad, rw bad refl) }
  | inr (epoch, good) ↦ record {
    disarmed = refl;
    fired_at = refl;
    cools = inr (epoch, good, rw good refl);
  }
]

pub memory_of-arm-HasFired :
    (memories : List RuntimeTriggerMemory) (i cooldown_sec : ℕ) (now : String)
    → HasFired cooldown_sec now (memory_of (arm_trigger memories i cooldown_sec now) i)
memory_of-arm-HasFired memories i cooldown_sec now =
    rw (memory_of-arm memories i cooldown_sec now) (fired_memory-HasFired i cooldown_sec now)
