-- ===== src/Base/Equality.antt =====
-- Rust's `PartialEq` as the source derives it, an interface with its law, and what the source does
-- with it: `contains`, and the ordered sets that only filter repetitions.
use Prim.Native.Nat.{ℕ}
use Prim.Native.String.{String}
use text.Mathlib.Text.{◌==◌ as same_text}
use text.Mathlib.TextEquality.{eq_iff}
use mathlib.Core.Path.{◌≡◌, refl, ap}
use mathlib.Core.Logic.{◌↔◌, inl, inr}
use mathlib.Core.Bool.{Bool, true, false, not, ◌&&◌, ◌||◌}
use mathlib.Core.Option.{Option, none, some}
use mathlib.Core.List.{List, [], ◌∷◌, Mem, mem-cons_self, mem-cons_of_mem}
use native.Mathlib.Omega.{arith}
use a2ex.Base.Tests.{eqb, Bool-cases}

pub record PartialEq {ℓ} (A : Type ℓ) : Type ℓ where
  pub same : A → A → Bool
  pub same_iff : (a b : A) → (same a b ≡ true) ↔ (a ≡ b)

infix 50 ◌==◌ ◌!=◌
abbrev pub ◌==◌ {ℓ} : {A : Type ℓ} ⦃e : PartialEq A⦄ → A → A → Bool
◌==◌ ⦃e⦄ = e.same

abbrev pub ◌!=◌ {ℓ} : {A : Type ℓ} ⦃e : PartialEq A⦄ → A → A → Bool
◌!=◌ ⦃e⦄ a b = not (e.same a b)

pub eqb_iff : (a b : ℕ) → (eqb a b ≡ true) ↔ (a ≡ b)
eqb_iff a b = (λ h. ground arith, λ h. ground arith)

instance abbrev pub number_eq : PartialEq ℕ
number_eq = record { same = eqb; same_iff = eqb_iff }

instance abbrev pub text_eq : PartialEq String
text_eq = record { same = same_text; same_iff = eq_iff }

abbrev bool_same : Bool → Bool → Bool
bool_same true b = b
bool_same false b = not b

pub bool_same_iff : (a b : Bool) → (bool_same a b ≡ true) ↔ (a ≡ b)
bool_same_iff true true = (λ _. refl, λ _. refl)
bool_same_iff true false = (λ h. cc, λ h. cc)
bool_same_iff false true = (λ h. cc, λ h. cc)
bool_same_iff false false = (λ _. refl, λ _. refl)

instance abbrev pub bool_eq : PartialEq Bool
bool_eq = record { same = bool_same; same_iff = bool_same_iff }

module _ {ℓ} {A : Type ℓ} ⦃e : PartialEq A⦄ where
  abbrev option_same : Option A → Option A → Bool
  option_same none none = true
  option_same none (some b) = false
  option_same (some a) none = false
  option_same (some a) (some b) = e.same a b

  pub option_same_iff : (a b : Option A) → (option_same a b ≡ true) ↔ (a ≡ b)
  option_same_iff none none = (λ _. refl, λ _. refl)
  option_same_iff none (some b) = (λ h. cc, λ h. cc)
  option_same_iff (some a) none = (λ h. cc, λ h. cc)
  option_same_iff (some a) (some b) =
      (λ h. ap some ((e.same_iff a b).0 h), λ h. (e.same_iff a b).1 (cc))

  instance abbrev pub option_eq : PartialEq (Option A)
  option_eq = record { same = option_same; same_iff = option_same_iff }

  -- `xs.contains(&a)`, and `set.contains(&a)` for the set of the items of a list
  abbrev pub contains : List A → A → Bool
  contains [] a = false
  contains (x ∷ xs) a = a == x || contains xs a

  -- The loop `if seen.insert(x.clone()) { collected.push(x) }` over a set of what was seen.
  unfoldable pub unique_after : List A → List A → List A
  unique_after seen [] = []
  unique_after seen (x ∷ xs) = elim (contains seen x) [
    | true ↦ unique_after seen xs
    | false ↦ x ∷ unique_after (x ∷ seen) xs
  ]

  abbrev pub unique : List A → List A
  unique = unique_after []

  pub mem_of_contains : (xs : List A) (a : A) → contains xs a ≡ true → Mem a xs
  mem_of_contains [] a h = cc
  mem_of_contains (x ∷ xs) a h = elim (Bool-cases (a == x)) [
    | inl here ↦ rw ((e.same_iff a x).0 here) mem-cons_self
    | inr there ↦ mem-cons_of_mem x (mem_of_contains xs a (ground arith))
  ]

  pub ne_iff : (a b : A) → ((a != b) ≡ false) ↔ (a ≡ b)
  ne_iff a b =
      (λ h. (e.same_iff a b).0 (ground arith), λ h. let same = (e.same_iff a b).1 h in ground arith)

module _ {ℓ κ} {A : Type ℓ} {B : Type κ} ⦃a : PartialEq A⦄ ⦃b : PartialEq B⦄ where
  abbrev pair_same : A × B → A × B → Bool
  pair_same x y = x.0 == y.0 && x.1 == y.1

  pub pair_same_iff : (x y : A × B) → (pair_same x y ≡ true) ↔ (x ≡ y)
  pair_same_iff x y = (
    λ h. ground (arith, a.same_iff x.0 y.0, b.same_iff x.1 y.1),
    λ h. ground (arith, a.same_iff x.0 y.0, b.same_iff x.1 y.1),
  )

  instance abbrev pub pair_eq : PartialEq (A × B)
  pair_eq = record { same = pair_same; same_iff = pair_same_iff }

-- The derived equality of a record or an enumeration, by an injective reading of its values.
abbrev pub eq_by {ℓ κ} :
    {A : Type ℓ} {B : Type κ} ⦃e : PartialEq B⦄ (read : A → B)
    → ((x y : A) → read x ≡ read y → x ≡ y)
    → PartialEq A
eq_by ⦃e⦄ read injective = record {
  same = λ x y. e.same (read x) (read y);
  same_iff = λ x y. (
    λ h. injective x y ((e.same_iff (read x) (read y)).0 h),
    λ h. (e.same_iff (read x) (read y)).1 (ap read h),
  );
}
