-- ===== src/Compiler/Intents.antt =====
-- `compile_intent`.
use Prim.Native.String.{◌++◌}
use a2ex.Base.{
  ℕ, Bool, ◌||◌, List, Result, ok, ◌>>=◌, ◌>>◌, fail_if, traverse, get_or, ltb, eqb, ◌==◌, not,
}
use a2ex.Base.Text.{trim, to_ascii_uppercase}
use a2ex.Control.{AgentRequestEnvelope, Intent, PostAction}
use a2ex.Compiler.Types.{CompiledIntent, CompiledPostAction, CompilerError, single}
use a2ex.Compiler.Normalize.{normalize_token, normalize_venues}
use a2ex.Compiler.Envelope.{validate_envelope, compile_audit}

unfoldable pub compile_post_action : PostAction → Result CompilerError CompiledPostAction
compile_post_action action = do
  let action_type = normalize_token action.action_type
  fail_if (not (action_type == "hedge" || action_type == "bridge")) (
      single "payload.post_actions.action_type" "unsupported_action_type"
        ("unsupported post action type: " ++ action_type))
  ok (record { action_type = action_type; venue = normalize_token action.venue })

-- the test on `max_slippage_bps` that intents and strategies share
abbrev pub invalid_slippage : ℕ → Bool
invalid_slippage bps = eqb bps 0 || ltb 10000 bps

-- the value that `compile_intent` builds once all has been validated
unfoldable pub compiled_intent :
    AgentRequestEnvelope Intent → List CompiledPostAction → CompiledIntent
compiled_intent envelope post_actions =
    let payload = envelope.payload in
    record {
      audit = compile_audit envelope;
      intent_id = normalize_token payload.intent_id;
      intent_type = normalize_token payload.intent_type;
      objective = record {
        domain = normalize_token payload.objective.domain;
        target_market = normalize_token payload.objective.target_market;
        side = normalize_token payload.objective.side;
        target_notional_usd = payload.objective.target_notional_usd;
      };
      constraints = record {
        allowed_venues = normalize_venues payload.constraints.allowed_venues;
        max_slippage_bps = payload.constraints.max_slippage_bps;
        max_fee_usd = payload.constraints.max_fee_usd;
        urgency = payload.constraints.urgency;
        hedge_ratio_bps = get_or payload.constraints.hedge_ratio_bps 0;
      };
      funding = record {
        preferred_asset = to_ascii_uppercase (trim payload.funding.preferred_asset);
        source_chain = normalize_token payload.funding.source_chain;
      };
      post_actions = post_actions;
    }

unfoldable pub compile_intent : AgentRequestEnvelope Intent → Result CompilerError CompiledIntent
unfolding compiled_intent
compile_intent envelope = do
  validate_envelope envelope.request_id envelope.source_agent_id envelope.submitted_at
      envelope.rationale.summary
  fail_if (eqb envelope.payload.objective.target_notional_usd 0) (
      single "payload.objective.target_notional_usd" "invalid_notional"
        "target_notional_usd must be greater than zero")
  fail_if (invalid_slippage envelope.payload.constraints.max_slippage_bps) (
      single "payload.constraints.max_slippage_bps" "invalid_constraint"
        "max_slippage_bps must be between 1 and 10000")
  post_actions ← traverse compile_post_action envelope.payload.post_actions
  ok (compiled_intent envelope post_actions)
