-- ===== src/Base/Text/Order.antt =====
-- The order of texts: strings compare by code points, character by character.
use Prim.Native.Nat.{Ordering}
use Prim.Native.String.{String, [], ◌∷◌, compare}
use Prim.Native.String.compare as cmp
use mathlib.Core.Path.{◌≡◌, ◌∙◌}
use mathlib.Core.Logic.{◌⊎◌, inl, inr}
use native.Mathlib.Omega.{arith}
use text.Mathlib.TextEquality.{path_by_compare}

pub lt_of_gt : (s t : String) → compare s t ≡ Ordering.gt → compare t s ≡ Ordering.lt
lt_of_gt [] [] h = cc (cmp.nil-nil)
lt_of_gt [] (d ∷ t) h = cc (cmp.nil-cons d t)
lt_of_gt (c ∷ s) [] h = cmp.nil-cons c s
lt_of_gt (c ∷ s) (d ∷ t) h =
    ground (arith, cmp.cons-cons c d s t, cmp.cons-cons d c t s, lt_of_gt s t)

pub lt_trans :
    (s t u : String)
    → compare s t ≡ Ordering.lt
    → compare t u ≡ Ordering.lt
    → compare s u ≡ Ordering.lt
lt_trans [] [] u h k = cc (cmp.nil-nil)
lt_trans (c ∷ s) [] u h k = cc (cmp.cons-nil c s)
lt_trans [] (d ∷ t) [] h k = cc (cmp.cons-nil d t)
lt_trans [] (d ∷ t) (e ∷ u) h k = cmp.nil-cons e u
lt_trans (c ∷ s) (d ∷ t) [] h k = cc (cmp.cons-nil d t)
lt_trans (c ∷ s) (d ∷ t) (e ∷ u) h k =
    ground
      (arith, cmp.cons-cons c d s t, cmp.cons-cons d e t u, cmp.cons-cons c e s u, lt_trans s t u)

pub eq_of_compare : (s t : String) → compare s t ≡ Ordering.eq → s ≡ t
eq_of_compare = path_by_compare

pub compare-ne-gt_trans :
    (s t u : String)
    → (compare s t ≡ Ordering.lt) ⊎ (s ≡ t)
    → (compare t u ≡ Ordering.lt) ⊎ (t ≡ u)
    → (compare s u ≡ Ordering.lt) ⊎ (s ≡ u)
compare-ne-gt_trans s t u (inl h) (inl k) = inl (lt_trans s t u h k)
compare-ne-gt_trans s t u (inl h) (inr k) = inl (rw k at h)
compare-ne-gt_trans s t u (inr h) (inl k) = inl (rw h k)
compare-ne-gt_trans s t u (inr h) (inr k) = inr (h ∙ k)
