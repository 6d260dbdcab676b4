-- ===== src/Planner/Plan.antt =====
-- `plan_intent`: the route and the steps for one compiled intent.
use Prim.Native.String.{◌++◌}
use mathlib.Core.Option
use a2ex.Base.{
  ℕ, ◌+◌, ◌-◌, ◌*◌, ◌/◌, ◌%◌, ◌^◌, String, Bool, true, false, not, Option, none, some, List, [],
  ◌∷◌, Result, ok, ◌>>=◌, ◌>>◌, fail_if, or_fail, get_or, is_some, is_empty, get_elem?, length,
  find?, leb, ◌==◌, if◌then◌else◌,
}
use a2ex.Base.{◌++◌ as append}
use a2ex.Compiler.Types.{CompiledIntent}
use a2ex.Planner.Types.{
  VenueKind, CapabilityMatrix, ExecutionPlan, PlanStep, PlanStepParams, FailureMode, PlannerError,
  no_prediction_venue, unsupported_venue, unsupported_hedge_venue,
}
use a2ex.Planner.Matrix.{venue}

abbrev pub is_prediction_market : VenueKind → Bool
is_prediction_market VenueKind.prediction_market = true
is_prediction_market _ = false

abbrev is_hedge : VenueKind → Bool
is_hedge VenueKind.hedge = true
is_hedge _ = false

-- the loop of `prediction_candidates`
unfoldable pub supported_venues :
    String → CapabilityMatrix → List String → Result PlannerError (List String)
supported_venues intent_id matrix [] = ok []
supported_venues intent_id matrix (name ∷ names) = do
  capability ← or_fail (venue matrix name) (unsupported_venue intent_id name)
  rest ← supported_venues intent_id matrix names
  ok (if is_prediction_market capability.kind then name ∷ rest else rest)

-- the key of `sort_by_key`
abbrev pub venue_rank : String → ℕ
venue_rank name = if name == "polymarket" then 0 else if name == "kalshi" then 1 else 2

unfoldable pub insert_by_rank : String → List String → List String
insert_by_rank a [] = a ∷ []
insert_by_rank a (b ∷ bs) =
    if leb (venue_rank a) (venue_rank b) then a ∷ b ∷ bs else b ∷ insert_by_rank a bs

-- a stable sort
unfoldable pub sort_by_rank : List String → List String
unfolding insert_by_rank
sort_by_rank [] = []
sort_by_rank (a ∷ rest) = insert_by_rank a (sort_by_rank rest)

unfoldable pub prediction_candidates :
    CompiledIntent → CapabilityMatrix → Result PlannerError (List String)
unfolding supported_venues sort_by_rank
prediction_candidates intent matrix = do
  supported ← supported_venues intent.intent_id matrix intent.constraints.allowed_venues
  fail_if (is_empty supported) (no_prediction_venue intent.intent_id)
  ok (sort_by_rank supported)

-- the venue of the first post action of type "hedge"
unfoldable pub requested_hedge : CompiledIntent → Option String
requested_hedge intent =
    Option.map (λ action. action.venue)
      (find? (λ action. action.action_type == "hedge") intent.post_actions)

unfoldable pub check_hedge :
    String → CapabilityMatrix → Option String → Result PlannerError (Option String)
check_hedge intent_id matrix none = ok none
check_hedge intent_id matrix (some name) = do
  capability ← or_fail (venue matrix name) (unsupported_hedge_venue intent_id name)
  fail_if (not (is_hedge capability.kind)) (unsupported_hedge_venue intent_id name)
  ok (some name)

unfoldable pub hedge_venue : CompiledIntent → CapabilityMatrix → Result PlannerError (Option String)
unfolding requested_hedge check_hedge
hedge_venue intent matrix = check_hedge intent.intent_id matrix (requested_hedge intent)

-- The product of two `u64` wraps in a release build.
unfoldable pub hedge_notional : CompiledIntent → ℕ
hedge_notional intent =
    (intent.objective.target_notional_usd * intent.constraints.hedge_ratio_bps) % 2 ^ 64 / 10000

unfoldable pub destination_chain : CapabilityMatrix → String → Option String
destination_chain matrix primary =
    Option.bind (venue matrix primary) (λ capability. get_elem? capability.supported_chains 0)

-- the chain to bridge to: the destination, where it is not the source of the funds
unfoldable pub bridge_target : CompiledIntent → Option String → Option String
bridge_target intent none = none
bridge_target intent (some chain) =
    if chain == intent.funding.source_chain then none else some chain

abbrev plan_id : CompiledIntent → String
plan_id intent = "plan-" ++ intent.intent_id

-- A step's `sequence` is the number of steps before it plus one; there are three at most, so that
-- the cast to `u32` changes nothing.
unfoldable bridge_steps : CompiledIntent → Option String → List PlanStep
bridge_steps intent none = []
bridge_steps intent (some chain) =
    record {
      step_id = plan_id intent ++ ":bridge";
      sequence = 1;
      step_type = "bridge_asset";
      adapter = "across";
      approval_required = true;
      idempotency_key = intent.audit.request_id ++ ":bridge";
      failure_policy = record {
        mode = FailureMode.retry;
        retry = record { max_attempts = 2; backoff_ms = 250 };
        fallback_venue = none;
      };
      params = PlanStepParams.bridge (record {
        asset = intent.funding.preferred_asset;
        amount_usd = intent.objective.target_notional_usd;
        source_chain = intent.funding.source_chain;
        destination_chain = chain;
      });
    }
    ∷ []

-- `saturating_sub` is the subtraction of the natural numbers.
unfoldable entry_step : CompiledIntent → String → Option String → ℕ → PlanStep
entry_step intent primary fallback before = record {
  step_id = plan_id intent ++ ":entry";
  sequence = before + 1;
  step_type = "place_order";
  adapter = primary;
  approval_required = true;
  idempotency_key = intent.audit.request_id ++ (":entry:" ++ primary);
  failure_policy = record {
    mode = if is_some fallback then FailureMode.fallback else FailureMode.retry;
    retry = record { max_attempts = if is_some fallback then 1 else 2; backoff_ms = 200 };
    fallback_venue = fallback;
  };
  params = PlanStepParams.entry (record {
    market = intent.objective.target_market;
    side = intent.objective.side;
    notional_usd = intent.objective.target_notional_usd - hedge_notional intent;
    max_fee_usd = intent.constraints.max_fee_usd;
    max_slippage_bps = intent.constraints.max_slippage_bps;
  });
}

unfoldable hedge_steps : CompiledIntent → Option String → ℕ → List PlanStep
hedge_steps intent none before = []
hedge_steps intent (some name) before =
    record {
      step_id = plan_id intent ++ ":hedge";
      sequence = before + 1;
      step_type = "adjust_hedge";
      adapter = name;
      approval_required = true;
      idempotency_key = intent.audit.request_id ++ (":hedge:" ++ name);
      failure_policy = record {
        mode = FailureMode.retry;
        retry = record { max_attempts = 2; backoff_ms = 300 };
        fallback_venue = none;
      };
      params = PlanStepParams.hedge (record {
        instrument = "RELATED-PERP";
        notional_usd = hedge_notional intent;
        reduce_only = false;
      });
    }
    ∷ []

unfoldable pub plan_steps :
    CompiledIntent → String → Option String → Option String → Option String → List PlanStep
unfolding bridge_steps entry_step hedge_steps
plan_steps intent primary fallback target hedge =
    let bridged = bridge_steps intent target in
    let entered = append bridged (entry_step intent primary fallback (length bridged) ∷ []) in
    append entered (hedge_steps intent hedge (length entered))

abbrev hedge_summary : Option String → String
hedge_summary none = ""
hedge_summary (some name) = " with " ++ (name ++ " hedge")

unfoldable pub build_plan :
    CompiledIntent → CapabilityMatrix → String → Option String → Option String → ExecutionPlan
unfolding plan_steps
build_plan intent matrix primary fallback hedge =
    let destination = destination_chain matrix primary in
    let target = bridge_target intent destination in
    record {
      plan_id = plan_id intent;
      source_kind = "intent";
      source_id = intent.intent_id;
      request_id = intent.audit.request_id;
      summary =
          "route "
          ++ (intent.intent_id
              ++ (" through "
                  ++ (primary
                      ++ ((if is_some target then " via across bridge" else "")
                          ++ hedge_summary hedge))));
      route = record {
        bridge_venue = if is_some target then some "across" else none;
        entry_venue = primary;
        hedge_venue = hedge;
        destination_chain = destination;
        fallback_entry_venue = fallback;
      };
      steps = plan_steps intent primary fallback target hedge;
      risk_summary = record {
        expected_fee_usd = intent.constraints.max_fee_usd - 1;
        expected_slippage_bps = intent.constraints.max_slippage_bps - 5;
        residual_unhedged_exposure_usd =
            intent.objective.target_notional_usd - hedge_notional intent;
      };
    }

-- `prediction_candidates` returns no empty list, so the default of `candidates[0]` is never taken.
unfoldable pub plan_intent : CompiledIntent → CapabilityMatrix → Result PlannerError ExecutionPlan
plan_intent intent matrix = do
  candidates ← prediction_candidates intent matrix
  hedge ← hedge_venue intent matrix
  ok (build_plan intent matrix (get_or (get_elem? candidates 0) "") (get_elem? candidates 1) hedge)
