-- ===== src/FastPath.antt =====
-- The fast path of daemon/crates/a2ex-fast-path/src/lib.rs: a compiled intent becomes one prepared
-- action. SHA-256 (the crate `sha2`) and `hex::encode` are parameters.
pub mod Actions
use Prim.Native.String.{◌++◌}
use text.Mathlib.Text.{find?}
use a2ex.Base.{
  ℕ, zero, suc, String, Bool, List, [], ◌∷◌, Result, ok, err, ◌||◌, not, is_some, ◌==◌,
  if◌then◌else◌,
}
use a2ex.Base.Text.{decimal}
use a2ex.Base.Int.{ℤ, pos, show_ℤ}
use a2ex.Compiler.Types.{CompiledIntent}
use a2ex.Gateway.{FastPathRoute}

pub data FastActionTemplate : Type 0 where
  generic_contract_call : ℕ → String → String → List ℕ → FastActionTemplate
  simple_entry : String → String → String → ℕ → FastActionTemplate
  hedge_adjust_precomputed : String → String → ℤ → ℕ → FastActionTemplate

-- The contract call carries the amount to reserve behind its calldata.
pub data PreparedVenueAction : Type 0 where
  generic_contract_call : ℕ → String → String → List ℕ → ℕ → PreparedVenueAction
  simple_entry : String → String → String → ℕ → PreparedVenueAction
  hedge_adjust_precomputed : String → String → ℤ → ℕ → PreparedVenueAction

pub record PreparedFastAction : Type 0 where
  pub action_id : String
  pub request_id : String
  pub reservation_id : String
  pub action_kind : String
  pub venue : String
  pub payload : PreparedVenueAction

pub data FastPathError : Type 0 where
  missing_venue unsupported_intent : String → FastPathError

-- `s.contains(t)`
unfoldable pub contains : String → String → Bool
contains s t = is_some (find? s t)

abbrev take {ℓ} : {A : Type ℓ} → ℕ → List A → List A
take zero xs = []
take (suc n) [] = []
take (suc n) (x ∷ xs) = x ∷ take n xs

unfoldable reservation_amount_from_request : String → ℕ
reservation_amount_from_request request_id = 25

module _ (sha256 : String → List ℕ) (hex_encode : List ℕ → String) where
  unfoldable deterministic_bytes : String → List ℕ
  deterministic_bytes seed = take 16 (sha256 seed)

  unfoldable deterministic_hex : String → ℕ → String
  deterministic_hex seed bytes = hex_encode (take bytes (sha256 seed))

  unfoldable pub template_from_compiled_intent :
      CompiledIntent → FastPathRoute → Result FastPathError FastActionTemplate
  unfolding deterministic_bytes deterministic_hex
  template_from_compiled_intent intent route =
      let notional = intent.objective.target_notional_usd in
      if contains intent.intent_type "contract" || contains intent.objective.domain "contract"
      then ok (
          FastActionTemplate.generic_contract_call 8453
            ("0x" ++ deterministic_hex intent.intent_id 20) "0"
            (deterministic_bytes intent.audit.request_id))
      else if route.venue == "hyperliquid"
      then ok (
          FastActionTemplate.hedge_adjust_precomputed route.venue intent.objective.target_market
            (pos 0) notional)
      else if not (route.venue == "")
      then ok (
          FastActionTemplate.simple_entry route.venue intent.objective.target_market
            intent.objective.side notional)
      else err (missing_venue intent.audit.request_id)

  -- the tuple that `prepare_fast_action` computes from the template: the kind, the venue, the
  -- payload and the seed
  unfoldable prepared_parts :
      FastPathRoute → String → FastActionTemplate → String × String × PreparedVenueAction × String
  unfolding reservation_amount_from_request
  prepared_parts route request_id
        (FastActionTemplate.generic_contract_call chain_id to value_wei calldata) =
      (
        "generic_contract_call",
        route.venue,
        PreparedVenueAction.generic_contract_call chain_id to value_wei calldata
            (reservation_amount_from_request request_id),
        "generic:"
            ++ (decimal chain_id
                ++ (":" ++ (to ++ (":" ++ (value_wei ++ (":" ++ hex_encode calldata)))))),
      )
  prepared_parts route request_id (FastActionTemplate.simple_entry venue market side notional_usd) =
      (
        "simple_entry",
        venue,
        PreparedVenueAction.simple_entry venue market side notional_usd,
        "simple:"
            ++ (venue ++ (":" ++ (market ++ (":" ++ (side ++ (":" ++ decimal notional_usd)))))),
      )
  prepared_parts route request_id
        (FastActionTemplate.hedge_adjust_precomputed venue instrument target_delta_bps
          notional_usd) =
      (
        "hedge_adjust_precomputed",
        venue,
        PreparedVenueAction.hedge_adjust_precomputed venue instrument target_delta_bps notional_usd,
        "hedge:"
            ++ (venue
                ++ (":"
                    ++ (instrument
                        ++ (":" ++ (show_ℤ target_delta_bps ++ (":" ++ decimal notional_usd)))))),
      )

  -- It returns `Ok` always; the arguments are the fields of `FastPathPreparationInput`.
  unfoldable prepare_fast_action :
      FastPathRoute → String → FastActionTemplate → String → Result FastPathError PreparedFastAction
  unfolding prepared_parts
  prepare_fast_action route reservation_id template request_id =
      let (action_kind, venue, payload, seed) = prepared_parts route request_id template in
      ok (record {
        action_id =
            "fp-"
            ++ deterministic_hex (request_id ++ (":" ++ (reservation_id ++ (":" ++ seed)))) 12;
        request_id = request_id;
        reservation_id = reservation_id;
        action_kind = action_kind;
        venue = venue;
        payload = payload;
      })
