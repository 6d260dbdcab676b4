-- ===== src/Bundle/Once.antt =====
-- Evidence and diagnostics are kept once each, in the order in which they first stand.
use mathlib.Core.HLevel.{⊥_prop}
use mathlib.Core.Logic.Or
use mathlib.Core.List.{
  Mem, Mem-prop, Nodup, Nodup-nil, Nodup-cons, mem-cons_self, mem-cons_of_mem, not-mem-nil,
  eq-or-mem_of_mem-cons,
}
use a2ex.Base.{List, [], ◌∷◌, true, false, ◌≡◌, refl, ◌↔◌, inl, inr, arith, Bool-cases}
use a2ex.Base.Equality.{PartialEq, contains, unique_after}
use a2ex.Bundle.Reading.{InterpretationEvidence, evidence_eq}
use a2ex.Bundle.Interpret.{collect_provenance}

module _ {A : Type 0} ⦃e : PartialEq A⦄ where
  unique_after-sound : (x : A) (seen xs : List A) → Mem x (unique_after seen xs) → Mem x xs
  unfolding unique_after
  unique_after-sound x seen [] m = m
  unique_after-sound x seen (y ∷ ys) m = elim (Bool-cases (contains seen y)) [
    | inl old ↦ mem-cons_of_mem y (unique_after-sound x seen ys (rw (old, unique_after) at m))
    | inr new ↦
        Or.elim Mem-prop (eq-or-mem_of_mem-cons (rw (new, unique_after) at m))
          (λ here. rw here mem-cons_self)
          (λ there. mem-cons_of_mem y (unique_after-sound x (y ∷ seen) ys there))
  ]

  unique_after-fresh :
      (x : A) (seen xs : List A) → Mem x (unique_after seen xs) → contains seen x ≡ true → ⊥
  unfolding unique_after
  unique_after-fresh x seen [] m h = not-mem-nil m
  unique_after-fresh x seen (y ∷ ys) m h = elim (Bool-cases (contains seen y)) [
    | inl old ↦ unique_after-fresh x seen ys (rw (old, unique_after) at m) h
    | inr new ↦
        Or.elim ⊥_prop (eq-or-mem_of_mem-cons (rw (new, unique_after) at m))
          (λ here. cc (new, h, here))
          (λ there. unique_after-fresh x (y ∷ seen) ys there (ground arith))
  ]

  unique_after-complete :
      (x : A) (seen xs : List A) → Mem x xs → contains seen x ≡ false → Mem x (unique_after seen xs)
  unfolding unique_after
  unique_after-complete x seen [] m h = m
  unique_after-complete x seen (y ∷ ys) m h = elim (Bool-cases (contains seen y)) [
    | inl old ↦
        rw (old, unique_after)
          (Or.elim Mem-prop (eq-or-mem_of_mem-cons m) (λ here. absurd (cc (old, h, here)))
            (λ there. unique_after-complete x seen ys there h))
    | inr new ↦
        rw (new, unique_after)
          (Or.elim Mem-prop (eq-or-mem_of_mem-cons m) (λ here. rw here mem-cons_self)
            (λ there. elim (Bool-cases (e.same x y)) [
              | inl same ↦ rw ((e.same_iff x y).0 same) mem-cons_self
              | inr other ↦
                  mem-cons_of_mem y (unique_after-complete x (y ∷ seen) ys there (ground arith))
            ]))
  ]

  unique_after-Nodup : (seen xs : List A) → Nodup (unique_after seen xs)
  unfolding unique_after
  unique_after-Nodup seen [] = Nodup-nil
  unique_after-Nodup seen (y ∷ ys) = elim (Bool-cases (contains seen y)) [
    | inl old ↦ rw (old, unique_after) (unique_after-Nodup seen ys)
    | inr new ↦
        rw (new, unique_after)
          (Nodup-cons.1 (
            λ m.
                let same = (e.same_iff y y).1 refl in
                unique_after-fresh y (y ∷ seen) ys m (ground arith),
            unique_after-Nodup (y ∷ seen) ys,
          ))
  ]

-- What is collected of the evidence is the same evidence, each once.
pub collect_provenance-Nodup :
    (evidence : List InterpretationEvidence) (x : InterpretationEvidence)
    → Nodup (collect_provenance evidence) × (Mem x (collect_provenance evidence) ↔ Mem x evidence)
unfolding collect_provenance
collect_provenance-Nodup evidence x = (
  unique_after-Nodup [] evidence,
  (λ m. unique_after-sound x [] evidence m, λ m. unique_after-complete x [] evidence m refl),
)
