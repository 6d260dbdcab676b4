-- ===== src/Planner/Ranking.antt =====
-- The order in which a plan prefers the prediction markets that an intent allows.
use mathlib.Core.Path.{subst}
use a2ex.Base.{
  ◌≤◌, String, ◌≡◌, ◌≢◌, refl, sym, Option, some, List, [], ◌∷◌, inl, inr, All, All-mono, arith, ok,
  Option-cases, Result-cases, Bool-cases, leb, get_or, get_elem?,
}
use a2ex.Compiler.Types.{CompiledIntent}
use a2ex.Planner.Types.{CapabilityMatrix, VenueKind, ExecutionPlan}
use a2ex.Planner.Matrix.{venue}
use a2ex.Planner.Plan.{
  is_prediction_market, supported_venues, venue_rank, insert_by_rank, sort_by_rank,
  prediction_candidates, build_plan, plan_intent,
}
use a2ex.Planner.Success.{Any, HasKind, insert_by_rank-ne-nil, is_prediction_market-eq}
use a2ex.Planner.Steps.{plan_value}

module _ (P : String → Type 0) where
  All-insert : (a : String) (bs : List String) → P a → All P bs → All P (insert_by_rank a bs)
  unfolding insert_by_rank
  All-insert a [] h k = (h, tt)
  All-insert a (b ∷ bs) h k = elim (Bool-cases (leb (venue_rank a) (venue_rank b))) [
    | inl le ↦ rw le (h, k)
    | inr gt ↦ rw gt (k.0, All-insert a bs h k.1)
  ]

  All-sort : (bs : List String) → All P bs → All P (sort_by_rank bs)
  unfolding sort_by_rank
  All-sort [] h = tt
  All-sort (b ∷ bs) h = All-insert b (sort_by_rank bs) h.0 (All-sort bs h.1)

  All-of_insert : (a : String) (bs : List String) → All P (insert_by_rank a bs) → P a × All P bs
  unfolding insert_by_rank
  All-of_insert a [] h = h
  All-of_insert a (b ∷ bs) h = elim (Bool-cases (leb (venue_rank a) (venue_rank b))) [
    | inl le ↦ rw le at h
    | inr gt ↦
        let k : P b × All P (insert_by_rank a bs) = rw gt at h in
        let ih = All-of_insert a bs k.1 in (ih.0, (k.0, ih.1))
  ]

  All-of_sort : (bs : List String) → All P (sort_by_rank bs) → All P bs
  unfolding sort_by_rank
  All-of_sort [] h = tt
  All-of_sort (b ∷ bs) h = let k = All-of_insert b (sort_by_rank bs) h in (k.0, All-of_sort bs k.1)

abbrev IsRanked : List String → Type 0
IsRanked [] = Unit
IsRanked (a ∷ rest) = All (λ x. venue_rank a ≤ venue_rank x) rest × IsRanked rest

All-weaken :
    (a b : String) (xs : List String)
    → venue_rank a ≤ venue_rank b
    → All (λ x. venue_rank b ≤ venue_rank x) xs
    → All (λ x. venue_rank a ≤ venue_rank x) xs
All-weaken a b [] h k = tt
All-weaken a b (x ∷ xs) h k = (omega arith, All-weaken a b xs h k.1)

IsRanked-insert : (a : String) (bs : List String) → IsRanked bs → IsRanked (insert_by_rank a bs)
unfolding insert_by_rank
IsRanked-insert a [] h = (tt, tt)
IsRanked-insert a (b ∷ bs) h = elim (Bool-cases (leb (venue_rank a) (venue_rank b))) [
  | inl le ↦
      let below : venue_rank a ≤ venue_rank b = ground arith in
      rw le ((below, All-weaken a b bs below h.0), h)
  | inr gt ↦ rw gt (
    All-insert (λ x. venue_rank b ≤ venue_rank x) a bs (ground arith) h.0,
    IsRanked-insert a bs h.1,
  )
]

IsRanked-sort : (bs : List String) → IsRanked (sort_by_rank bs)
unfolding sort_by_rank
IsRanked-sort [] = tt
IsRanked-sort (b ∷ bs) = IsRanked-insert b (sort_by_rank bs) (IsRanked-sort bs)

-- a prediction market that stands in the list
abbrev IsCandidate : CapabilityMatrix → List String → String → Type 0
IsCandidate matrix names x = Any (λ y. y ≡ x) names × HasKind matrix VenueKind.prediction_market x

supported-IsCandidate :
    (id : String) (matrix : CapabilityMatrix) (names found : List String)
    → supported_venues id matrix names ≡ ok found
    → All (IsCandidate matrix names) found
unfolding supported_venues
supported-IsCandidate id matrix [] found h =
    let same : [] ≡ found = ground arith in subst (All (IsCandidate matrix [])) same tt
supported-IsCandidate id matrix (name ∷ names) found h = elim (Option-cases (venue matrix name)) [
  | inl missing ↦ ground arith
  | inr (c, known) ↦ elim (Result-cases (supported_venues id matrix names)) [
    | inr (x, e) ↦ ground arith
    | inl (rest, e) ↦
        let ih =
          All-mono (IsCandidate matrix names) (IsCandidate matrix (name ∷ names)) rest
            (λ x h. (inr h.0, h.1)) (supported-IsCandidate id matrix names rest e) in
        elim (Bool-cases (is_prediction_market c.kind)) [
          | inl market ↦
              let same : name ∷ rest ≡ found = ground arith in
              subst (All (IsCandidate matrix (name ∷ names))) same
                ((inl refl, (c, known, is_prediction_market-eq c.kind market)), ih)
          | inr other ↦
              let same : rest ≡ found = ground arith in
              subst (All (IsCandidate matrix (name ∷ names))) same ih
        ]
  ]
]

-- What holds of every venue found holds of every prediction market in the list.
markets_of_supported :
    (Q : String → Type 0) (id : String) (matrix : CapabilityMatrix) (names found : List String)
    → supported_venues id matrix names ≡ ok found
    → All Q found
    → All (λ x. HasKind matrix VenueKind.prediction_market x → Q x) names
unfolding supported_venues
markets_of_supported Q id matrix [] found h k = tt
markets_of_supported Q id matrix (name ∷ names) found h k =
    elim (Option-cases (venue matrix name)) [
      | inl missing ↦ ground arith
      | inr (c, known) ↦ elim (Result-cases (supported_venues id matrix names)) [
        | inr (x, e) ↦ ground arith
        | inl (rest, e) ↦ elim (Bool-cases (is_prediction_market c.kind)) [
          | inl market ↦
              let same : found ≡ name ∷ rest = ground arith in
              let k' : Q name × All Q rest = subst (All Q) same k in
              ((λ m. k'.0), markets_of_supported Q id matrix names rest e k'.1)
          | inr other ↦
              let same : found ≡ rest = ground arith in
              (
                (λ (d, found, kind). absurd (ground arith)),
                markets_of_supported Q id matrix names rest e (subst (All Q) same k),
              )
        ]
      ]
    ]

-- `entry` is a candidate that no other candidate goes before, and a fallback is a candidate too.
pub record IsBest (matrix : CapabilityMatrix) (names : List String) (plan : ExecutionPlan)
    : Type 0 where
  pub candidate : IsCandidate matrix names plan.route.entry_venue
  pub first :
      All
        (λ x.
          HasKind matrix VenueKind.prediction_market x
          → venue_rank plan.route.entry_venue ≤ venue_rank x)
        names
  pub fallback :
      (other : String)
      → plan.route.fallback_entry_venue ≡ some other
      → IsCandidate matrix names other

IsRanked-first :
    (x : String) (xs : List String)
    → IsRanked (x ∷ xs)
    → All (λ y. venue_rank x ≤ venue_rank y) (x ∷ xs)
IsRanked-first x xs h = (omega arith, h.0)

second-All :
    (P : String → Type 0) (x y : String) (xs : List String)
    → All P (x ∷ xs)
    → get_elem? (x ∷ xs) 1 ≡ some y
    → P y
second-All P x y [] h e = ground arith
second-All P x y (z ∷ xs) h e = let same : z ≡ y = ground arith in subst P same h.1.0

candidates_value :
    (intent : CompiledIntent) (matrix : CapabilityMatrix) (names : List String)
    → prediction_candidates intent matrix ≡ ok names
    → (found : List String) × (supported_venues intent.intent_id matrix
          intent.constraints.allowed_venues
        ≡ ok found)
      × (sort_by_rank found ≡ names)
      × (found ≢ [])
unfolding prediction_candidates
candidates_value intent matrix names h =
    elim (Result-cases
      (supported_venues intent.intent_id matrix intent.constraints.allowed_venues)) [
        | inr (x, e) ↦ ground arith
        | inl (found, e) ↦ (found, e, ground arith, λ k. ground arith)
      ]

sort-ne-nil : (xs : List String) → xs ≢ [] → sort_by_rank xs ≢ []
unfolding sort_by_rank
sort-ne-nil [] h = h
sort-ne-nil (x ∷ xs) h = insert_by_rank-ne-nil x (sort_by_rank xs)

-- the three facts about a ranked list of candidates
candidates-IsBest :
    (intent : CompiledIntent) (matrix : CapabilityMatrix) (hedge : Option String)
    (names found : List String)
    → supported_venues intent.intent_id matrix intent.constraints.allowed_venues ≡ ok found
    → sort_by_rank found ≡ names
    → names ≢ []
    → IsBest matrix intent.constraints.allowed_venues
        (build_plan intent matrix (get_or (get_elem? names 0) "") (get_elem? names 1) hedge)
unfolding build_plan
candidates-IsBest intent matrix hedge [] found e sorted full = absurd (full refl)
candidates-IsBest intent matrix hedge (x ∷ xs) found e sorted full =
    let asked = intent.constraints.allowed_venues in
    let candidates : All (IsCandidate matrix asked) (x ∷ xs) =
      subst (All (IsCandidate matrix asked)) sorted (
        All-sort (IsCandidate matrix asked) found
          (supported-IsCandidate intent.intent_id matrix asked found e)) in
    let ranked : IsRanked (x ∷ xs) = subst IsRanked sorted (IsRanked-sort found) in
    let least : All (λ y. venue_rank x ≤ venue_rank y) found =
      All-of_sort (λ y. venue_rank x ≤ venue_rank y) found
        (subst (All (λ y. venue_rank x ≤ venue_rank y)) (sym sorted)
          (IsRanked-first x xs ranked)) in
    record {
      candidate = candidates.0;
      first =
          markets_of_supported (λ y. venue_rank x ≤ venue_rank y) intent.intent_id matrix asked
            found e least;
      fallback = λ other h. second-All (IsCandidate matrix asked) x other xs candidates h;
    }

-- A plan enters at an allowed prediction market that no allowed prediction market ranks above, by
-- polymarket before kalshi before the others, and a fallback, if any, is an allowed prediction
-- market too.
pub plan_intent-IsBest :
    (intent : CompiledIntent) (matrix : CapabilityMatrix) (plan : ExecutionPlan)
    → plan_intent intent matrix ≡ ok plan
    → IsBest matrix intent.constraints.allowed_venues plan
plan_intent-IsBest intent matrix plan h =
    let (names, hedge, e, _, same) = plan_value intent matrix plan h in
    let (found, f, sorted, full) = candidates_value intent matrix names e in
    subst (IsBest matrix intent.constraints.allowed_venues) same (
      candidates-IsBest intent matrix hedge names found f sorted
        (subst (λ (l : List String). l ≢ []) sorted (sort-ne-nil found full)))
