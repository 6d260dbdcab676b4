-- ===== src/Compiler/Venues.antt =====
-- The venues of a compiled intent: sorted with no repetition, the same names as were asked for.
use Prim.Native.Nat.{Ordering}
use Prim.Native.String.{compare}
use a2ex.Base.{
  String, ◌≡◌, refl, ◌⊎◌, ◌↔◌, inl, inr, true, false, List, [], ◌∷◌, map, arith, is_empty, ◌==◌,
  eq_iff, if◌then◌else◌, Bool-cases,
}
use a2ex.Base.Text.Order.{lt_of_gt, lt_trans, eq_of_compare, compare-ne-gt_trans}
use a2ex.Compiler.Normalize.{
  normalize_token, normalize_venues, str_le, insert_sorted, sort, dedup_after, dedup,
  default_intent_venues,
}

Ordering-cases : (o : Ordering) → (o ≡ Ordering.lt) ⊎ ((o ≡ Ordering.eq) ⊎ (o ≡ Ordering.gt))
Ordering-cases Ordering.lt = inl refl
Ordering-cases Ordering.eq = inr (inl refl)
Ordering-cases Ordering.gt = inr (inr refl)

-- membership, by recursion
abbrev pub Mem : String → List String → Type 0
Mem a [] = ⊥
Mem a (b ∷ bs) = (a ≡ b) ⊎ Mem a bs

-- `a` comes before `b`, strictly
abbrev pub Lt : String → String → Type 0
Lt a b = compare a b ≡ Ordering.lt

abbrev Le : String → String → Type 0
Le a b = Lt a b ⊎ (a ≡ b)

-- `a` is related so to every item
abbrev Before : (String → String → Type 0) → String → List String → Type 0
Before R a [] = Unit
Before R a (b ∷ bs) = R a b × Before R a bs

-- Every item is related so to all that follow it.
abbrev pub Chain : (String → String → Type 0) → List String → Type 0
Chain R [] = Unit
Chain R (a ∷ rest) = Before R a rest × Chain R rest

str_le-Le : (a b : String) → str_le a b ≡ true → Le a b
str_le-Le a b h = elim (Ordering-cases (compare a b)) [
  | inl l ↦ inl l
  | inr (inl e) ↦ inr (eq_of_compare a b e)
  | inr (inr g) ↦ ground arith
]

str_le-false : (a b : String) → str_le a b ≡ false → Lt b a
str_le-false a b h = lt_of_gt a b (ground arith)

Before-Le_trans : (a b : String) (bs : List String) → Le a b → Before Le b bs → Before Le a bs
Before-Le_trans a b [] h k = tt
Before-Le_trans a b (c ∷ bs) h k = (compare-ne-gt_trans a b c h k.0, Before-Le_trans a b bs h k.1)

Before-insert :
    (a b : String) (bs : List String) → Le b a → Before Le b bs → Before Le b (insert_sorted a bs)
unfolding insert_sorted
Before-insert a b [] h k = (h, tt)
Before-insert a b (c ∷ bs) h k = elim (Bool-cases (str_le a c)) [
  | inl le ↦ rw le (h, k)
  | inr gt ↦ rw gt (k.0, Before-insert a b bs h k.1)
]

Chain-insert : (a : String) (bs : List String) → Chain Le bs → Chain Le (insert_sorted a bs)
unfolding insert_sorted
Chain-insert a [] h = (tt, tt)
Chain-insert a (b ∷ bs) h = elim (Bool-cases (str_le a b)) [
  | inl le ↦ rw le ((str_le-Le a b le, Before-Le_trans a b bs (str_le-Le a b le) h.0), h)
  | inr gt ↦ rw gt (Before-insert a b bs (inl (str_le-false a b gt)) h.0, Chain-insert a bs h.1)
]

Chain-sort : (bs : List String) → Chain Le (sort bs)
unfolding sort
Chain-sort [] = tt
Chain-sort (b ∷ bs) = Chain-insert b (sort bs) (Chain-sort bs)

Lt_of_ne : (a b : String) → Le a b → (a == b) ≡ false → Lt a b
Lt_of_ne a b (inl h) k = h
Lt_of_ne a b (inr h) k = cc (k, (eq_iff a b).1 h)

Before-dedup :
    (a b : String) (bs : List String)
    → Lt a b
    → Before Le b bs
    → Chain Le bs
    → Before Lt a (dedup_after b bs)
unfolding dedup_after
Before-dedup a b [] h k s = tt
Before-dedup a b (c ∷ bs) h k s = elim (Bool-cases (b == c)) [
  | inl same ↦ rw same (Before-dedup a b bs h k.1 s.1)
  | inr new ↦
      let ac = lt_trans a b c h (Lt_of_ne b c k.0 new) in
      rw new (ac, Before-dedup a c bs ac s.0 s.1)
]

-- what stands behind `b` in a deduplicated sorted list is strictly above `b`, and increases
Chain-dedup_after :
    (b : String) (bs : List String)
    → Before Le b bs
    → Chain Le bs
    → Before Lt b (dedup_after b bs) × Chain Lt (dedup_after b bs)
unfolding dedup_after
Chain-dedup_after b [] k s = (tt, tt)
Chain-dedup_after b (c ∷ bs) k s = elim (Bool-cases (b == c)) [
  | inl same ↦ rw same (Chain-dedup_after b bs k.1 s.1)
  | inr new ↦
      let bc = Lt_of_ne b c k.0 new in
      rw new ((bc, Before-dedup b c bs bc s.0 s.1), Chain-dedup_after c bs s.0 s.1)
]

Chain-dedup : (bs : List String) → Chain Le bs → Chain Lt (dedup bs)
unfolding dedup
Chain-dedup [] s = tt
Chain-dedup (b ∷ bs) s = Chain-dedup_after b bs s.0 s.1

mem-insert : (x a : String) (bs : List String) → Mem x (insert_sorted a bs) ↔ Mem x (a ∷ bs)
unfolding insert_sorted
mem-insert x a [] = (λ h. h, λ h. h)
mem-insert x a (b ∷ bs) = ground (arith, mem-insert x a bs)

pub mem-sort : (x : String) (bs : List String) → Mem x (sort bs) ↔ Mem x bs
unfolding sort
mem-sort x [] = (λ h. h, λ h. h)
mem-sort x (b ∷ bs) = ground (arith, mem-insert x b (sort bs), mem-sort x bs)

mem-dedup_after : (x b : String) (bs : List String) → Mem x (b ∷ dedup_after b bs) ↔ Mem x (b ∷ bs)
unfolding dedup_after
mem-dedup_after x b [] = (λ h. h, λ h. h)
mem-dedup_after x b (c ∷ bs) =
    ground (arith, mem-dedup_after x b bs, mem-dedup_after x c bs, eq_iff b c)

pub mem-dedup : (x : String) (bs : List String) → Mem x (dedup bs) ↔ Mem x bs
unfolding dedup
mem-dedup x [] = (λ h. h, λ h. h)
mem-dedup x (b ∷ bs) = mem-dedup_after x b bs

-- The venues asked for, or the default ones if none were.
abbrev pub requested : List String → List String
requested venues = if is_empty venues then default_intent_venues else map normalize_token venues

-- The normalised venues are the requested ones, each once, in strictly increasing order.
pub normalize_venues_lem :
    (venues : List String) (x : String)
    → Chain Lt (normalize_venues venues)
      × (Mem x (normalize_venues venues) ↔ Mem x (requested venues))
unfolding normalize_venues
normalize_venues_lem venues x =
    let items = requested venues in
    (
      Chain-dedup (sort items) (Chain-sort items),
      (
        λ h. (mem-sort x items).0 ((mem-dedup x (sort items)).0 h),
        λ h. (mem-dedup x (sort items)).1 ((mem-sort x items).1 h),
      ),
    )
