-- ===== src/Bundle/Ordering.antt =====
-- The order of versions: the comparison is lexicographic on the parts, where a part that a version
-- does not have is 0.
use Prim.Native.Nat.{compare, Ordering}
use a2ex.Base.{
  ℕ, zero, suc, ◌+◌, ◌≤◌, ◌<◌, max, List, [], ◌∷◌, get_or, get_elem?, length, ◌≡◌, refl, sym, ◌↔◌,
  ◌⊎◌, inl, inr, arith,
}
use a2ex.Bundle.Versions.{compare_from, compare_version_parts}

abbrev pub part : List ℕ → ℕ → ℕ
part version i = get_or (get_elem? version i) 0

abbrev SameBelow : ℕ → List ℕ → List ℕ → Type 0
SameBelow i left right = (j : ℕ) → j < i → part left j ≡ part right j

-- At the first part where they differ, the left one is smaller.
abbrev pub Below : List ℕ → List ℕ → Type 0
Below left right = (i : ℕ) × SameBelow i left right × (part left i < part right i)

-- what a result says of two versions that were compared up to a part
abbrev Says : Ordering → ℕ → List ℕ → List ℕ → Type 0
Says Ordering.lt bound left right = Below left right
Says Ordering.eq bound left right = SameBelow bound left right
Says Ordering.gt bound left right = Below right left

Ordering-cases : (o : Ordering) → (o ≡ Ordering.lt) ⊎ ((o ≡ Ordering.eq) ⊎ (o ≡ Ordering.gt))
Ordering-cases Ordering.lt = inl refl
Ordering-cases Ordering.eq = inr (inl refl)
Ordering-cases Ordering.gt = inr (inr refl)

SameBelow-suc :
    (k : ℕ) (left right : List ℕ)
    → SameBelow k left right
    → part left k ≡ part right k
    → SameBelow (k + 1) left right
SameBelow-suc k left right same here j below = elim (Ordering-cases (compare j k)) [
  | inl lt ↦ same j (ground arith)
  | inr (inl eq) ↦ let e : j ≡ k = ground arith in rw e here
  | inr (inr gt) ↦ absurd (ground arith)
]

compare_from-Says :
    (rounds k : ℕ) (left right : List ℕ)
    → SameBelow k left right
    → Says (compare_from rounds k left right) (k + rounds) left right
unfolding compare_from
compare_from-Says zero k left right same = λ j below. same j (omega arith)
compare_from-Says (suc rounds) k left right same =
    elim (Ordering-cases (compare (part left k) (part right k))) [
      | inl lt ↦ rw (lt, Says) (k, same, ground arith)
      | inr (inl eq) ↦
          rw (eq, Says)
            (let rest =
                compare_from-Says rounds (k + 1) left right
                  (SameBelow-suc k left right same (ground arith)) in
              let e : k + suc rounds ≡ (k + 1) + rounds = omega arith in rw e rest)
      | inr (inr gt) ↦ rw (gt, Says) (k, λ j below. sym (same j below), ground arith)
    ]

part-beyond : (version : List ℕ) (i : ℕ) → length version ≤ i → part version i ≡ 0
part-beyond [] i h = refl
part-beyond (n ∷ version) zero h = absurd (omega arith)
part-beyond (n ∷ version) (suc i) h = part-beyond version i (omega arith)

Below-irrefl : (left right : List ℕ) → ((i : ℕ) → part left i ≡ part right i) → Below left right → ⊥
Below-irrefl left right same (i, before, below) = omega (arith, same i)

Below-asym : (left right : List ℕ) → Below left right → Below right left → ⊥
Below-asym left right (i, before, below) (k, before', below') =
    elim (Ordering-cases (compare i k)) [
      | inl lt ↦ omega (arith, before' i (ground arith))
      | inr (inl eq) ↦ let e : i ≡ k = ground arith in omega (arith, rw e at below)
      | inr (inr gt) ↦ omega (arith, before k (ground arith))
    ]

all_parts :
    (bound : ℕ) (left right : List ℕ)
    → length left ≤ bound
    → length right ≤ bound
    → SameBelow bound left right
    → (i : ℕ) → part left i ≡ part right i
all_parts bound left right l r same i = elim (Ordering-cases (compare i bound)) [
  | inl lt ↦ same i (ground arith)
  | inr (inl eq) ↦
      let e : i ≡ bound = ground arith in
      omega (arith, part-beyond left i (omega arith), part-beyond right i (omega arith))
  | inr (inr gt) ↦
      let above : bound < i = ground arith in
      omega (arith, part-beyond left i (omega arith), part-beyond right i (omega arith))
]

-- the three answers exclude one another
Says-exact :
    (o : Ordering) (bound : ℕ) (left right : List ℕ)
    → length left ≤ bound
    → length right ≤ bound
    → Says o bound left right
    → ((o ≡ Ordering.eq) ↔ ((i : ℕ) → part left i ≡ part right i))
      × ((o ≡ Ordering.lt) ↔ Below left right)
      × ((o ≡ Ordering.gt) ↔ Below right left)
Says-exact Ordering.eq bound left right l r says =
    let same = all_parts bound left right l r says in
    (
      (λ h. same, λ h. refl),
      (λ h. cc, λ h. absurd (Below-irrefl left right same h)),
      (λ h. cc, λ h. absurd (Below-irrefl right left (λ i. sym (same i)) h)),
    )
Says-exact Ordering.lt bound left right l r says = (
  (λ h. cc, λ h. absurd (Below-irrefl left right h says)),
  (λ h. says, λ h. refl),
  (λ h. cc, λ h. absurd (Below-asym left right says h)),
)
Says-exact Ordering.gt bound left right l r says = (
  (λ h. cc, λ h. absurd (Below-irrefl right left (λ i. sym (h i)) says)),
  (λ h. cc, λ h. absurd (Below-asym right left says h)),
  (λ h. says, λ h. refl),
)

-- Two versions compare as equal exactly when all their parts are equal, a missing part counting as
-- 0, and as less or greater exactly when at the first part where they differ the left one is
-- smaller or greater.
pub compare_version_parts_iff :
    (left right : List ℕ)
    → ((compare_version_parts left right ≡ Ordering.eq) ↔ ((i : ℕ) → part left i ≡ part right i))
      × ((compare_version_parts left right ≡ Ordering.lt) ↔ Below left right)
      × ((compare_version_parts left right ≡ Ordering.gt) ↔ Below right left)
unfolding compare_version_parts
compare_version_parts_iff left right =
    Says-exact _ (0 + max (length left) (length right)) left right (omega arith) (omega arith) (
      compare_from-Says (max (length left) (length right)) 0 left right
        (λ j below. absurd (omega arith)))
