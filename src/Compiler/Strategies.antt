-- ===== src/Compiler/Strategies.antt =====
-- `compile_strategy`. Thresholds are `f64` in the source: their type `F` and `str::parse::<f64>`,
-- with `none` for a parse error, are parameters.
use Prim.Native.String.{◌++◌}
use mathlib.Core.Option
use a2ex.Base.{
  ℕ, String, Bool, true, false, ◌||◌, List, [], ◌∷◌, map, Option, none, some, Result, ok, ◌>>=◌,
  ◌>>◌, fail_if, or_fail, traverse, get_or, is_empty, eqb, ◌==◌, not, if◌then◌else◌,
}
use a2ex.Base.{◌++◌ as append}
use a2ex.Base.Text.{trim}
use a2ex.Control.{
  AgentRequestEnvelope, Strategy, WatcherSpec, TriggerRule, ActionTemplate, UnwindRule,
}
use a2ex.Compiler.Types.{
  CompiledStrategy, CompiledWatcher, CompiledTriggerRule, CompiledActionTemplate, CompilerError,
  CompilerIssue, single, from_issues,
}
use a2ex.Compiler.Normalize.{normalize_token}
use a2ex.Compiler.Envelope.{validate_envelope, compile_audit}
use a2ex.Compiler.Intents.{invalid_slippage}

abbrev default_max_rebalances_per_hour : ℕ
default_max_rebalances_per_hour = 60

abbrev operators : String → Bool
operators op = op == ">" || op == ">=" || op == "<" || op == "<="

-- the values that `compile_watcher` and `compile_trigger_rule` build once the tests have passed
abbrev pub compiled_watcher : WatcherSpec → CompiledWatcher
compiled_watcher watcher = record {
  watcher_type = normalize_token watcher.watcher_type;
  source = normalize_token watcher.source;
  chain = Option.map normalize_token watcher.chain;
  target = Option.map trim watcher.target;
}

abbrev pub compiled_rule : {F : Type 0} → TriggerRule → F → CompiledTriggerRule F
compiled_rule rule threshold = record {
  trigger_type = normalize_token rule.trigger_type;
  metric = normalize_token rule.metric;
  operator = trim rule.operator;
  threshold = threshold;
  cooldown_sec = get_or rule.cooldown_sec 0;
}

unfoldable pub compile_watcher : WatcherSpec → Result CompilerError CompiledWatcher
compile_watcher watcher = do
  fail_if (normalize_token watcher.watcher_type == "")
      (single "payload.watchers.watcher_type" "missing_required" "watcher_type must not be empty")
  ok (compiled_watcher watcher)

-- the issue that `compile_action_template` pushes
unfoldable pub template_issues : ActionTemplate → List CompilerIssue
template_issues action =
    let action_type = normalize_token action.action_type in
    if action_type == "adjust_hedge"
    then []
    else record {
      field = "payload.action_templates.action_type";
      code = "unsupported_action_type";
      message = "unsupported action template type: " ++ action_type;
    }
      ∷ []

-- what `compile_action_template` returns; it never fails
unfoldable compiled_template : ActionTemplate → CompiledActionTemplate
compiled_template action = record {
  action_type = normalize_token action.action_type;
  venue = normalize_token action.venue;
  instrument = Option.map trim action.instrument;
  target = Option.map normalize_token action.target;
}

-- the loop over the templates, with the issues that it adds at the end
unfoldable pub compile_action_templates :
    List ActionTemplate → List CompilerIssue → List CompiledActionTemplate × List CompilerIssue
unfolding template_issues compiled_template
compile_action_templates [] issues = ([], issues)
compile_action_templates (action ∷ rest) issues =
    let (compiled, all) = compile_action_templates rest (append issues (template_issues action)) in
    (compiled_template action ∷ compiled, all)

abbrev issue_if : Bool → String → String → String → List CompilerIssue
issue_if true field code message = record { field = field; code = code; message = message } ∷ []
issue_if false field code message = []

-- `matches!(…, Some(0))`
abbrev is_some_zero : Option ℕ → Bool
is_some_zero none = false
is_some_zero (some n) = eqb n 0

-- the issues that are collected before the parts are compiled
unfoldable pub payload_issues : Strategy → List CompilerIssue
payload_issues payload =
    append
      (issue_if (is_empty payload.watchers) "payload.watchers" "missing_required"
        "strategy must include at least one watcher")
      (append
        (issue_if (is_empty payload.trigger_rules) "payload.trigger_rules" "missing_required"
          "strategy must include at least one trigger rule")
        (append
          (issue_if (is_empty payload.action_templates) "payload.action_templates"
            "missing_required" "strategy must include at least one action template")
          (append
            (issue_if (invalid_slippage payload.constraints.max_slippage_bps)
              "payload.constraints.max_slippage_bps" "invalid_constraint"
              "max_slippage_bps must be between 1 and 10000")
            (issue_if (is_some_zero payload.constraints.max_rebalances_per_hour)
              "payload.constraints.max_rebalances_per_hour" "invalid_constraint"
              "max_rebalances_per_hour must be greater than zero when provided"))))

abbrev unwind_condition : UnwindRule → String
unwind_condition rule = normalize_token rule.condition

unfoldable unwind_conditions : List UnwindRule → List String
unwind_conditions rules = if is_empty rules then "manual_stop" ∷ [] else map unwind_condition rules

module _ {F : Type 0} (parse_f64 : String → Option F) where
  unfoldable pub compile_trigger_rule : TriggerRule → Result CompilerError (CompiledTriggerRule F)
  compile_trigger_rule rule = do
    let operator = trim rule.operator
    fail_if (not (operators operator)) (
        single "payload.trigger_rules.operator" "unsupported_operator"
          ("unsupported trigger operator: " ++ operator))
    threshold ← or_fail (parse_f64 (trim rule.value)) (
        single "payload.trigger_rules.value" "invalid_threshold"
          ("trigger threshold must be numeric: " ++ rule.value))
    ok (compiled_rule rule threshold)

  -- the value that `compile_strategy` builds once all has been validated
  unfoldable pub compiled_strategy :
      AgentRequestEnvelope Strategy
      → List CompiledWatcher
      → List (CompiledTriggerRule F)
      → List CompiledActionTemplate
      → CompiledStrategy F
  unfolding unwind_conditions
  compiled_strategy envelope watchers trigger_rules action_templates =
      let payload = envelope.payload in
      record {
        audit = compile_audit envelope;
        strategy_id = normalize_token payload.strategy_id;
        strategy_type = normalize_token payload.strategy_type;
        watchers = watchers;
        trigger_rules = trigger_rules;
        calculation_model = record {
          model_type = normalize_token payload.calculation_model.model_type;
          inputs = map normalize_token payload.calculation_model.inputs;
        };
        action_templates = action_templates;
        constraints = record {
          min_order_usd = get_or payload.constraints.min_order_usd 1;
          max_slippage_bps = payload.constraints.max_slippage_bps;
          max_rebalances_per_hour =
              get_or payload.constraints.max_rebalances_per_hour default_max_rebalances_per_hour;
        };
        unwind_conditions = unwind_conditions payload.unwind_rules;
      }

  unfoldable pub compile_strategy :
      AgentRequestEnvelope Strategy → Result CompilerError (CompiledStrategy F)
  compile_strategy envelope = do
    validate_envelope envelope.request_id envelope.source_agent_id envelope.submitted_at
        envelope.rationale.summary
    watchers ← traverse compile_watcher envelope.payload.watchers
    trigger_rules ← traverse compile_trigger_rule envelope.payload.trigger_rules
    let templates =
        compile_action_templates envelope.payload.action_templates (payload_issues envelope.payload)
    fail_if (not (is_empty templates.1)) (from_issues templates.1)
    ok (compiled_strategy envelope watchers trigger_rules templates.0)
