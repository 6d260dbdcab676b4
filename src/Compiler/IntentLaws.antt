-- ===== src/Compiler/IntentLaws.antt =====
-- When `compile_intent` accepts a request, and what a compiled intent is sure to satisfy.
use mathlib.Core.Path.{subst}
use a2ex.Base.{
  ◌≤◌, ◌<◌, String, ◌≡◌, ◌≢◌, refl, ◌⊎◌, ◌↔◌, inl, inr, List, [], ◌∷◌, All, arith, Result, ok,
  traverse, eq_iff, Result-cases,
}
use a2ex.Base.Text.{trim}
use a2ex.Control.{AgentRequestEnvelope, Intent, PostAction}
use a2ex.Compiler.Types.{CompiledIntent, CompiledPostAction, CompilerError}
use a2ex.Compiler.Normalize.{normalize_token, normalize_venues}
use a2ex.Compiler.Envelope.{validate_envelope, compile_audit}
use a2ex.Compiler.Intents.{compile_post_action, compiled_intent, compile_intent}
use a2ex.Compiler.Venues.{Chain, Lt, normalize_venues_lem}

-- the four texts that every envelope must give
pub record IsSigned {T : Type 0} (envelope : AgentRequestEnvelope T) : Type 0 where
  pub request_id : trim envelope.request_id ≢ ""
  pub source_agent_id : trim envelope.source_agent_id ≢ ""
  pub submitted_at : trim envelope.submitted_at ≢ ""
  pub summary : trim envelope.rationale.summary ≢ ""

abbrev pub validated : {T : Type 0} → AgentRequestEnvelope T → Result CompilerError (Unit {0})
validated envelope =
    validate_envelope envelope.request_id envelope.source_agent_id envelope.submitted_at
      envelope.rationale.summary

pub validated_iff :
    {T : Type 0} (envelope : AgentRequestEnvelope T)
    → (validated envelope ≡ ok tt) ↔ IsSigned envelope
unfolding validate_envelope
validated_iff envelope = (
  λ h. record {
    request_id = λ e. ground (arith, eq_iff (trim envelope.request_id) "");
    source_agent_id = λ e. ground (arith, eq_iff (trim envelope.source_agent_id) "");
    submitted_at = λ e. ground (arith, eq_iff (trim envelope.submitted_at) "");
    summary = λ e. ground (arith, eq_iff (trim envelope.rationale.summary) "");
  },
  λ s. ground (
    arith,
    s.request_id,
    s.source_agent_id,
    s.submitted_at,
    s.summary,
    eq_iff (trim envelope.request_id) "",
    eq_iff (trim envelope.source_agent_id) "",
    eq_iff (trim envelope.submitted_at) "",
    eq_iff (trim envelope.rationale.summary) "",
  ),
)

-- the types that a post action may have
abbrev IsSupported : PostAction → Type 0
IsSupported action =
    (normalize_token action.action_type ≡ "hedge") ⊎ (normalize_token action.action_type ≡ "bridge")

post_action_iff :
    (action : PostAction)
    → ((c : CompiledPostAction) × (compile_post_action action ≡ ok c)) ↔ IsSupported action
unfolding compile_post_action
post_action_iff action =
    let t = normalize_token action.action_type in
    (
      λ (c, h). ground (arith, eq_iff t "hedge", eq_iff t "bridge"),
      λ s. (
        record { action_type = t; venue = normalize_token action.venue },
        ground (arith, eq_iff t "hedge", eq_iff t "bridge"),
      ),
    )

post_actions_iff :
    (actions : List PostAction)
    → ((cs : List CompiledPostAction) × (traverse compile_post_action actions ≡ ok cs))
      ↔ All IsSupported actions
post_actions_iff [] = (λ h. tt, λ h. ([], refl))
post_actions_iff (action ∷ actions) = (
  λ (cs, h). elim (Result-cases (compile_post_action action)) [
    | inl (c, e) ↦ elim (Result-cases (traverse compile_post_action actions)) [
      | inl (ds, f) ↦ ((post_action_iff action).0 (c, e), (post_actions_iff actions).0 (ds, f))
      | inr (x, f) ↦ ground arith
    ]
    | inr (x, e) ↦ ground arith
  ],
  λ (s, rest).
      let (c, e) = (post_action_iff action).1 s in
      let (cs, f) = (post_actions_iff actions).1 rest in (c ∷ cs, ground arith),
)

-- what `compile_intent` asks of a request
pub record IsCompilable (envelope : AgentRequestEnvelope Intent) : Type 0 where
  pub signed : IsSigned envelope
  pub notional : 0 < envelope.payload.objective.target_notional_usd
  pub slippage_pos : 0 < envelope.payload.constraints.max_slippage_bps
  pub slippage_max : envelope.payload.constraints.max_slippage_bps ≤ 10000
  pub post_actions : All IsSupported envelope.payload.post_actions

-- A request compiles exactly when its envelope is signed, its notional is positive, its slippage
-- is between 1 and 10000 basis points and its post actions are hedges and bridges.
pub compile_intent_iff :
    (envelope : AgentRequestEnvelope Intent)
    → ((intent : CompiledIntent) × (compile_intent envelope ≡ ok intent)) ↔ IsCompilable envelope
unfolding compile_intent
compile_intent_iff envelope = (
  λ (intent, h). elim (Result-cases (validated envelope)) [
    | inr (x, e) ↦ ground arith
    | inl (t, v) ↦
        elim (Result-cases (traverse compile_post_action envelope.payload.post_actions)) [
          | inr (x, f) ↦ ground arith
          | inl (cs, f) ↦ record {
            signed = (validated_iff envelope).0 v;
            notional = ground arith;
            slippage_pos = ground arith;
            slippage_max = ground arith;
            post_actions = (post_actions_iff envelope.payload.post_actions).0 (cs, f);
          }
        ]
  ],
  λ c.
      let v = (validated_iff envelope).1 c.signed in
      let (cs, f) = (post_actions_iff envelope.payload.post_actions).1 c.post_actions in
      (compiled_intent envelope cs, ground (arith, c.notional, c.slippage_pos, c.slippage_max)),
)

abbrev IsKnownAction : CompiledPostAction → Type 0
IsKnownAction action = (action.action_type ≡ "hedge") ⊎ (action.action_type ≡ "bridge")

-- What the gateway, the planner and the fast path may rely on.
pub record IsWellFormed (intent : CompiledIntent) : Type 0 where
  pub request_id : intent.audit.request_id ≢ ""
  pub source_agent_id : intent.audit.source_agent_id ≢ ""
  pub submitted_at : intent.audit.submitted_at ≢ ""
  pub summary : intent.audit.rationale_summary ≢ ""
  pub notional : 0 < intent.objective.target_notional_usd
  pub slippage_pos : 0 < intent.constraints.max_slippage_bps
  pub slippage_max : intent.constraints.max_slippage_bps ≤ 10000
  pub venues_increase : Chain Lt intent.constraints.allowed_venues
  pub venues_given : intent.constraints.allowed_venues ≢ []
  pub post_actions : All IsKnownAction intent.post_actions

post_action-IsKnownAction :
    (action : PostAction) (c : CompiledPostAction)
    → compile_post_action action ≡ ok c
    → IsKnownAction c
unfolding compile_post_action
post_action-IsKnownAction action c h =
    let t = normalize_token action.action_type in
    ground (arith, eq_iff t "hedge", eq_iff t "bridge")

post_actions-IsKnownAction :
    (actions : List PostAction) (cs : List CompiledPostAction)
    → traverse compile_post_action actions ≡ ok cs
    → All IsKnownAction cs
post_actions-IsKnownAction [] cs h = ground arith
post_actions-IsKnownAction (action ∷ actions) cs h =
    elim (Result-cases (compile_post_action action)) [
      | inr (x, e) ↦ ground arith
      | inl (c, e) ↦ elim (Result-cases (traverse compile_post_action actions)) [
        | inr (x, f) ↦ ground arith
        | inl (ds, f) ↦
            let first = post_action-IsKnownAction action c e in
            let rest = post_actions-IsKnownAction actions ds f in
            let same : c ∷ ds ≡ cs = ground arith in subst (All IsKnownAction) same (first, rest)
      ]
    ]

venues-ne-nil : (venues : List String) → normalize_venues venues ≢ []
venues-ne-nil [] e = rw e at ((normalize_venues_lem [] "polymarket").1.1 (inl refl))
venues-ne-nil (v ∷ vs) e =
    rw e at ((normalize_venues_lem (v ∷ vs) (normalize_token v)).1.1 (inl refl))

-- A request that compiles has compiled post actions, and is the value built from them.
compiled_value :
    (envelope : AgentRequestEnvelope Intent) (intent : CompiledIntent)
    → compile_intent envelope ≡ ok intent
    → (cs : List CompiledPostAction) × (traverse compile_post_action envelope.payload.post_actions
        ≡ ok cs)
      × (compiled_intent envelope cs ≡ intent)
unfolding compile_intent
compiled_value envelope intent h = elim (Result-cases (validated envelope)) [
  | inr (x, e) ↦ ground arith
  | inl (t, v) ↦ elim (Result-cases (traverse compile_post_action envelope.payload.post_actions)) [
    | inr (x, f) ↦ ground arith
    | inl (cs, f) ↦ (cs, f, ground arith)
  ]
]

-- A compiled intent is well formed.
pub compile_intent-IsWellFormed :
    (envelope : AgentRequestEnvelope Intent) (intent : CompiledIntent)
    → compile_intent envelope ≡ ok intent
    → IsWellFormed intent
unfolding compile_intent compiled_intent compile_audit
compile_intent-IsWellFormed envelope intent h =
    let c = (compile_intent_iff envelope).0 (intent, h) in
    let (cs, f, same) = compiled_value envelope intent h in
    subst IsWellFormed same (record {
      request_id = c.signed.request_id;
      source_agent_id = c.signed.source_agent_id;
      submitted_at = c.signed.submitted_at;
      summary = c.signed.summary;
      notional = c.notional;
      slippage_pos = c.slippage_pos;
      slippage_max = c.slippage_max;
      venues_increase = (normalize_venues_lem envelope.payload.constraints.allowed_venues "").0;
      venues_given = venues-ne-nil envelope.payload.constraints.allowed_venues;
      post_actions = post_actions-IsKnownAction envelope.payload.post_actions cs f;
    })
