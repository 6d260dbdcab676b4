-- ===== src/Compiler/StrategyLaws.antt =====
-- When `compile_strategy` accepts a request, and which issues it reports.
use mathlib.Core.List.{append_assoc, append-nil}
use a2ex.Base.{
  ◌≤◌, ◌<◌, String, ◌≡◌, ◌≢◌, refl, ◌∙◌, ◌⊎◌, ◌↔◌, inl, inr, Option, some, List, [], ◌∷◌, ◌++◌, All,
  arith, Result, ok, err, traverse, eq_iff, Bool-cases, Option-cases, Result-cases, is_empty,
  if◌then◌else◌,
}
use a2ex.Base.Text.{trim}
use a2ex.Control.{AgentRequestEnvelope, Strategy, WatcherSpec, TriggerRule, ActionTemplate}
use a2ex.Compiler.Types.{
  CompiledStrategy, CompiledWatcher, CompiledTriggerRule, CompilerIssue, from_issues,
}
use a2ex.Compiler.Normalize.{normalize_token}
use a2ex.Compiler.IntentLaws.{IsSigned, validated, validated_iff}
use a2ex.Compiler.Strategies.{
  compiled_watcher, compiled_rule, compile_watcher, template_issues, compile_action_templates,
  payload_issues, compile_trigger_rule, compiled_strategy, compile_strategy,
}

-- a traversal succeeds exactly when each of its calls does
module _ {E A B : Type 0} (f : A → Result E B) (P : A → Type 0)
    (each : (a : A) → ((b : B) × (f a ≡ ok b)) ↔ P a) where
  traverse_iff : (xs : List A) → ((bs : List B) × (traverse f xs ≡ ok bs)) ↔ All P xs
  traverse_iff [] = (λ h. tt, λ h. ([], refl))
  traverse_iff (x ∷ xs) = (
    λ (bs, h). elim (Result-cases (f x)) [
      | inr (e, k) ↦ ground arith
      | inl (b, k) ↦ elim (Result-cases (traverse f xs)) [
        | inr (e, m) ↦ ground arith
        | inl (cs, m) ↦ ((each x).0 (b, k), (traverse_iff xs).0 (cs, m))
      ]
    ],
    λ (p, rest).
        let (b, k) = (each x).1 p in
        let (bs, m) = (traverse_iff xs).1 rest in (b ∷ bs, ground arith),
  )

abbrev IsTyped : WatcherSpec → Type 0
IsTyped watcher = normalize_token watcher.watcher_type ≢ ""

watcher_iff :
    (watcher : WatcherSpec)
    → ((c : CompiledWatcher) × (compile_watcher watcher ≡ ok c)) ↔ IsTyped watcher
unfolding compile_watcher
watcher_iff watcher =
    let t = eq_iff (normalize_token watcher.watcher_type) "" in
    (λ (c, h). λ e. ground (arith, t), λ h. (compiled_watcher watcher, ground (arith, t)))

abbrev IsComparison : String → Type 0
IsComparison op = (op ≡ ">") ⊎ ((op ≡ ">=") ⊎ ((op ≡ "<") ⊎ (op ≡ "<=")))

-- the issues of all templates, in their order
unfoldable all_template_issues : List ActionTemplate → List CompilerIssue
all_template_issues [] = []
all_template_issues (a ∷ actions) = template_issues a ++ all_template_issues actions

templates_issues :
    (actions : List ActionTemplate) (issues : List CompilerIssue)
    → (compile_action_templates actions issues).1 ≡ issues ++ all_template_issues actions
unfolding compile_action_templates all_template_issues
templates_issues [] issues = rw append-nil
templates_issues (a ∷ actions) issues =
    templates_issues actions (issues ++ template_issues a)
    ∙ append_assoc issues (template_issues a) (all_template_issues actions)

abbrev IsHedge : ActionTemplate → Type 0
IsHedge action = normalize_token action.action_type ≡ "adjust_hedge"

template_issues_iff : (action : ActionTemplate) → (template_issues action ≡ []) ↔ IsHedge action
unfolding template_issues
template_issues_iff action =
    let t = eq_iff (normalize_token action.action_type) "adjust_hedge" in
    (λ h. ground (arith, t), λ h. ground (arith, t))

all_template_issues_iff :
    (actions : List ActionTemplate) → (all_template_issues actions ≡ []) ↔ All IsHedge actions
unfolding all_template_issues
all_template_issues_iff [] = (λ h. tt, λ h. refl)
all_template_issues_iff (a ∷ actions) =
    let first = template_issues_iff a in
    let rest = all_template_issues_iff actions in
    (
      λ h. (first.0 (ground arith), rest.0 (ground arith)),
      λ (hedge, hedges). ground (arith, first.1 hedge, rest.1 hedges),
    )

append-eq-nil {ℓ} : {A : Type ℓ} (xs ys : List A) → xs ++ ys ≡ [] → (xs ≡ []) × (ys ≡ [])
append-eq-nil [] ys h = (refl, h)
append-eq-nil (x ∷ xs) ys h = ground arith

-- what the payload is asked for before its parts are compiled
pub record IsComplete (payload : Strategy) : Type 0 where
  pub watchers : payload.watchers ≢ []
  pub trigger_rules : payload.trigger_rules ≢ []
  pub action_templates : payload.action_templates ≢ []
  pub slippage_pos : 0 < payload.constraints.max_slippage_bps
  pub slippage_max : payload.constraints.max_slippage_bps ≤ 10000
  pub rebalances : payload.constraints.max_rebalances_per_hour ≢ some 0

payload_issues_iff : (payload : Strategy) → (payload_issues payload ≡ []) ↔ IsComplete payload
unfolding payload_issues
payload_issues_iff payload = (
  λ h. record {
    watchers = λ e. ground arith;
    trigger_rules = λ e. ground arith;
    action_templates = λ e. ground arith;
    slippage_pos = ground arith;
    slippage_max = ground arith;
    rebalances = λ e. ground arith;
  },
  λ c. ground (
    arith, c.watchers, c.trigger_rules, c.action_templates, c.slippage_pos, c.slippage_max,
    c.rebalances,
  ),
)

module _ {F : Type 0} (parse_f64 : String → Option F) where
  -- a rule that compares its metric with a number
  abbrev IsRule : TriggerRule → Type 0
  IsRule rule =
      IsComparison (trim rule.operator)
      × ((threshold : F) × (parse_f64 (trim rule.value) ≡ some threshold))

  IsRule-iff :
      (rule : TriggerRule)
      → ((c : CompiledTriggerRule F) × (compile_trigger_rule parse_f64 rule ≡ ok c)) ↔ IsRule rule
  unfolding compile_trigger_rule
  IsRule-iff rule =
      let op = trim rule.operator in
      let e1 = eq_iff op ">" in
      let e2 = eq_iff op ">=" in
      let e3 = eq_iff op "<" in
      let e4 = eq_iff op "<=" in
      (
        λ (c, h). elim (Option-cases (parse_f64 (trim rule.value))) [
          | inl bad ↦ ground (arith, e1, e2, e3, e4)
          | inr (threshold, good) ↦ (ground (arith, e1, e2, e3, e4), (threshold, good))
        ],
        λ (known, (threshold, good)).
            (compiled_rule rule threshold, ground (arith, known, e1, e2, e3, e4)),
      )

  -- what `compile_strategy` asks of a request
  pub record IsCompilable (envelope : AgentRequestEnvelope Strategy) : Type 0 where
    pub signed : IsSigned envelope
    pub complete : IsComplete envelope.payload
    pub watchers : All IsTyped envelope.payload.watchers
    pub trigger_rules : All IsRule envelope.payload.trigger_rules
    pub action_templates : All IsHedge envelope.payload.action_templates

  -- the issues that a request has once its envelope, its watchers and its rules are accepted
  abbrev issues_of : Strategy → List CompilerIssue
  issues_of payload = payload_issues payload ++ all_template_issues payload.action_templates

  -- Once the envelope, the watchers and the rules are accepted, a request with issues is refused
  -- with all of them, and one without compiles to the value built from the parts.
  strategy_value :
      (envelope : AgentRequestEnvelope Strategy) (watchers : List CompiledWatcher)
      (rules : List (CompiledTriggerRule F))
      → validated envelope ≡ ok tt
      → traverse compile_watcher envelope.payload.watchers ≡ ok watchers
      → traverse (compile_trigger_rule parse_f64) envelope.payload.trigger_rules ≡ ok rules
      → compile_strategy parse_f64 envelope ≡ (
          if is_empty (issues_of envelope.payload)
          then ok (
              compiled_strategy parse_f64 envelope watchers rules
                (compile_action_templates envelope.payload.action_templates
                  (payload_issues envelope.payload)).0)
          else err (from_issues (issues_of envelope.payload)))
  unfolding compile_strategy
  strategy_value envelope watchers rules v w r =
      rw (v, w, r, templates_issues)
        (elim (Bool-cases (is_empty (issues_of envelope.payload))) [
          | inl clean ↦ rw clean
          | inr some_issue ↦ rw some_issue
        ])

  issues_of_iff :
      (payload : Strategy)
      → (issues_of payload ≡ []) ↔ (IsComplete payload × All IsHedge payload.action_templates)
  issues_of_iff payload = (
    λ h.
        let (own, theirs) =
          append-eq-nil (payload_issues payload) (all_template_issues payload.action_templates) h in
        (
          (payload_issues_iff payload).0 own,
          (all_template_issues_iff payload.action_templates).0 theirs,
        ),
    λ (complete, hedges). rw (
      (payload_issues_iff payload).1 complete,
      (all_template_issues_iff payload.action_templates).1 hedges,
    ),
  )

  -- A request that compiles has an accepted envelope, and watchers and rules that compile.
  accepted_parts :
      (envelope : AgentRequestEnvelope Strategy) (strategy : CompiledStrategy F)
      → compile_strategy parse_f64 envelope ≡ ok strategy
      → (watchers : List CompiledWatcher) × (rules : List (CompiledTriggerRule F)) × (validated
            envelope
          ≡ ok tt)
        × (traverse compile_watcher envelope.payload.watchers ≡ ok watchers)
        × (traverse (compile_trigger_rule parse_f64) envelope.payload.trigger_rules ≡ ok rules)
  unfolding compile_strategy
  accepted_parts envelope strategy h = elim (Result-cases (validated envelope)) [
    | inr (x, v) ↦ ground arith
    | inl (t, v) ↦ elim (Result-cases (traverse compile_watcher envelope.payload.watchers)) [
      | inr (x, w) ↦ ground arith
      | inl (watchers, w) ↦
          elim (Result-cases
            (traverse (compile_trigger_rule parse_f64) envelope.payload.trigger_rules)) [
              | inr (x, r) ↦ ground arith
              | inl (rules, r) ↦ (watchers, rules, v, w, r)
            ]
    ]
  ]

  -- A strategy compiles exactly when its envelope is signed; it has watchers, trigger rules and
  -- action templates; its slippage is between 1 and 10000 basis points and its hourly limit is not
  -- zero; each watcher has a type, each rule compares with a number, and each template adjusts a
  -- hedge.
  pub compile_strategy_iff :
      (envelope : AgentRequestEnvelope Strategy)
      → ((strategy : CompiledStrategy F) × (compile_strategy parse_f64 envelope ≡ ok strategy))
        ↔ IsCompilable envelope
  compile_strategy_iff envelope = (
    λ (strategy, h).
        let (watchers, rules, v, w, r) = accepted_parts envelope strategy h in
        let clean : issues_of envelope.payload ≡ [] =
          ground (arith, strategy_value envelope watchers rules v w r) in
        let (complete, hedges) = (issues_of_iff envelope.payload).0 clean in
        record {
          signed = (validated_iff envelope).0 v;
          complete = complete;
          watchers =
              (traverse_iff compile_watcher IsTyped watcher_iff envelope.payload.watchers).0
                (watchers, w);
          trigger_rules =
              (traverse_iff (compile_trigger_rule parse_f64) IsRule IsRule-iff
                  envelope.payload.trigger_rules).0
                (rules, r);
          action_templates = hedges;
        },
    λ c.
        let (watchers, w) =
          (traverse_iff compile_watcher IsTyped watcher_iff envelope.payload.watchers).1
            c.watchers in
        let (rules, r) =
          (traverse_iff (compile_trigger_rule parse_f64) IsRule IsRule-iff
              envelope.payload.trigger_rules).1
            c.trigger_rules in
        let clean = (issues_of_iff envelope.payload).1 (c.complete, c.action_templates) in
        (
          compiled_strategy parse_f64 envelope watchers rules
              (compile_action_templates envelope.payload.action_templates
                (payload_issues envelope.payload)).0,
          strategy_value envelope watchers rules ((validated_iff envelope).1 c.signed) w r
              ∙ rw clean,
        ),
  )
