-- ===== src/Planner/Success.antt =====
-- When an intent can be planned.
use a2ex.Base.{
  String, ◌≡◌, ◌↔◌, refl, true, Option, none, some, List, [], ◌∷◌, ◌⊎◌, inl, inr, All, arith, ok,
  Option-cases, Bool-cases, Result-cases, get_or, get_elem?, if◌then◌else◌, ◌≢◌,
}
use a2ex.Compiler.Types.{CompiledIntent}
use a2ex.Planner.Types.{CapabilityMatrix, VenueCapability, VenueKind, ExecutionPlan}
use a2ex.Planner.Matrix.{venue}
use a2ex.Planner.Plan.{
  is_prediction_market, supported_venues, insert_by_rank, sort_by_rank, prediction_candidates,
  requested_hedge, check_hedge, hedge_venue, build_plan, plan_intent,
}

abbrev pub IsKnown : CapabilityMatrix → String → Type 0
IsKnown matrix name = (c : VenueCapability) × (venue matrix name ≡ some c)

abbrev pub HasKind : CapabilityMatrix → VenueKind → String → Type 0
HasKind matrix kind name = (c : VenueCapability) × (venue matrix name ≡ some c) × (c.kind ≡ kind)

abbrev pub Any : (String → Type 0) → List String → Type 0
Any P [] = ⊥
Any P (x ∷ xs) = P x ⊎ Any P xs

-- The venues that `supported_venues` returns are all known.
supported-All :
    (id : String) (matrix : CapabilityMatrix) (names found : List String)
    → supported_venues id matrix names ≡ ok found
    → All (IsKnown matrix) names
unfolding supported_venues
supported-All id matrix [] found h = tt
supported-All id matrix (name ∷ names) found h = elim (Option-cases (venue matrix name)) [
  | inl missing ↦ ground arith
  | inr (c, known) ↦ elim (Result-cases (supported_venues id matrix names)) [
    | inl (rest, e) ↦ ((c, known), supported-All id matrix names rest e)
    | inr (x, e) ↦ ground arith
  ]
]

supported_of_All :
    (id : String) (matrix : CapabilityMatrix) (names : List String)
    → All (IsKnown matrix) names
    → (found : List String) × (supported_venues id matrix names ≡ ok found)
unfolding supported_venues
supported_of_All id matrix [] h = ([], refl)
supported_of_All id matrix (name ∷ names) ((c, known), rest) =
    let (found, e) = supported_of_All id matrix names rest in
    (if is_prediction_market c.kind then name ∷ found else found, ground arith)

pub is_prediction_market-eq :
    (kind : VenueKind) → is_prediction_market kind ≡ true → kind ≡ VenueKind.prediction_market
is_prediction_market-eq kind h = ground arith

-- One of them is a prediction market exactly when the result is not empty.
supported-ne-nil :
    (id : String) (matrix : CapabilityMatrix) (names found : List String)
    → supported_venues id matrix names ≡ ok found
    → (found ≢ []) ↔ Any (HasKind matrix VenueKind.prediction_market) names
unfolding supported_venues
supported-ne-nil id matrix [] found h = (λ k. ground arith, λ k. absurd k)
supported-ne-nil id matrix (name ∷ names) found h = elim (Option-cases (venue matrix name)) [
  | inl missing ↦ ground arith
  | inr (c, known) ↦ elim (Result-cases (supported_venues id matrix names)) [
    | inl (rest, e) ↦
        let ih = supported-ne-nil id matrix names rest e in
        elim (Bool-cases (is_prediction_market c.kind)) [
          | inl market ↦
              (λ k. inl (c, known, is_prediction_market-eq c.kind market), λ k. ground arith)
          | inr other ↦ (
            λ k. inr (ih.0 (ground arith)),
            λ k. elim k [
              | inl (d, known', kind) ↦ ground arith
              | inr more ↦ let same : found ≡ rest = ground arith in rw same (ih.1 more)
            ],
          )
        ]
    | inr (x, e) ↦ ground arith
  ]
]

pub insert_by_rank-ne-nil : (a : String) (bs : List String) → insert_by_rank a bs ≢ []
unfolding insert_by_rank
insert_by_rank-ne-nil a [] = λ e. ground arith
insert_by_rank-ne-nil a (b ∷ bs) = λ e. ground arith

candidates_iff :
    (intent : CompiledIntent) (matrix : CapabilityMatrix)
    → ((names : List String) × (prediction_candidates intent matrix ≡ ok names)) ↔ (
        All (IsKnown matrix) intent.constraints.allowed_venues
        × Any (HasKind matrix VenueKind.prediction_market) intent.constraints.allowed_venues)
unfolding prediction_candidates
candidates_iff intent matrix =
    let asked = intent.constraints.allowed_venues in
    let id = intent.intent_id in
    (
      λ (names, h). elim (Result-cases (supported_venues id matrix asked)) [
        | inr (x, e) ↦ ground arith
        | inl (found, e) ↦ (
          supported-All id matrix asked found e,
          (supported-ne-nil id matrix asked found e).0 (λ k. ground arith),
        )
      ],
      λ (known, market).
          let (found, e) = supported_of_All id matrix asked known in
          let full = (supported-ne-nil id matrix asked found e).1 market in
          (sort_by_rank found, ground (arith, full)),
    )

-- A hedge that is asked for names a hedge venue of the matrix.
abbrev pub HedgeIsKnown : CapabilityMatrix → Option String → Type 0
HedgeIsKnown matrix none = Unit
HedgeIsKnown matrix (some name) = HasKind matrix VenueKind.hedge name

check_hedge_iff :
    (id : String) (matrix : CapabilityMatrix) (asked : Option String)
    → ((found : Option String) × (check_hedge id matrix asked ≡ ok found))
      ↔ HedgeIsKnown matrix asked
unfolding check_hedge
check_hedge_iff id matrix none = (λ h. tt, λ h. (none, refl))
check_hedge_iff id matrix (some name) = (
  λ (found, h). elim (Option-cases (venue matrix name)) [
    | inl missing ↦ ground arith
    | inr (c, known) ↦ (c, known, ground arith)
  ],
  λ (c, known, kind). (some name, ground arith),
)

-- An intent can be planned exactly when the matrix knows every venue that it allows, one of them
-- is a prediction market, and the venue of its first hedge action, if any, is a hedge venue.
pub plan_intent_iff :
    (intent : CompiledIntent) (matrix : CapabilityMatrix)
    → ((plan : ExecutionPlan) × (plan_intent intent matrix ≡ ok plan)) ↔ (
        All (IsKnown matrix) intent.constraints.allowed_venues
        × Any (HasKind matrix VenueKind.prediction_market) intent.constraints.allowed_venues
        × HedgeIsKnown matrix (requested_hedge intent))
unfolding plan_intent hedge_venue
plan_intent_iff intent matrix = (
  λ (plan, h). elim (Result-cases (prediction_candidates intent matrix)) [
    | inr (x, e) ↦ ground arith
    | inl (names, e) ↦ elim (Result-cases (hedge_venue intent matrix)) [
      | inr (x, f) ↦ ground arith
      | inl (hedge, f) ↦
          let (known, market) = (candidates_iff intent matrix).0 (names, e) in
          (
            known,
            market,
            (check_hedge_iff intent.intent_id matrix (requested_hedge intent)).0 (hedge, f),
          )
    ]
  ],
  λ (known, market, hedge).
      let (names, e) = (candidates_iff intent matrix).1 (known, market) in
      let (found, f) = (check_hedge_iff intent.intent_id matrix (requested_hedge intent)).1 hedge in
      (
        build_plan intent matrix (get_or (get_elem? names 0) "") (get_elem? names 1) found,
        rw (e, f),
      ),
)
