-- ===== src/Harness/Evidence.antt =====
-- Each verdict of the live harness is traceable: what decided it is among what it lists.
use mathlib.Core.Logic.Or
use mathlib.Core.List.{
  Mem, Mem-prop, mem-append_left, mem-append_right, mem-cons_self, mem-cons_of_mem, not-mem-nil,
  eq-or-mem_of_mem-cons,
}
use a2ex.Base.{String, List, [], ◌∷◌, Option, none, some, is_empty, ◌≢◌, inl, inr, All, Bool-cases}
use a2ex.Base.Equality.{contains, mem_of_contains, text_eq}
use a2ex.Harness.Types.{
  CanonicalRereadRefs, all_refs, Verdict, AuthorityDecision, PreTradeOutcome,
  VerdictMismatchDiagnostic, VerdictClassifierInput, ClassifiedVerdict,
}
use a2ex.Harness.Verdict.{
  push_new, evidence_refs, or_else, collect_mismatch_diagnostics, is_incomplete, decisive_refs,
  build, route_verdict, rollup_verdict, authority_verdict, pretrade_verdict, classify_verdict,
}
use a2ex.Onboarding.Reports.{StrategyRuntimeHoldException}

push_new-keeps :
    (x : String) (refs : List String) (extra : Option String)
    → Mem x refs
    → Mem x (push_new refs extra)
push_new-keeps x refs none m = m
push_new-keeps x refs (some extra) m = elim (Bool-cases (contains refs extra)) [
  | inl old ↦ rw old m
  | inr new ↦ rw new (mem-append_left (extra ∷ []) m)
]

push_new-adds : (x : String) (refs : List String) → Mem x (push_new refs (some x))
push_new-adds x refs = elim (Bool-cases (contains refs x)) [
  | inl old ↦ rw old (mem_of_contains refs x old)
  | inr new ↦ rw new (mem-append_right refs mem-cons_self)
]

evidence_refs-keeps :
    (x : String) (refs : List String) (extras : List (Option String))
    → Mem x refs
    → Mem x (evidence_refs refs extras)
unfolding evidence_refs
evidence_refs-keeps x refs [] m = m
evidence_refs-keeps x refs (extra ∷ extras) m =
    evidence_refs-keeps x (push_new refs extra) extras (push_new-keeps x refs extra m)

evidence_refs-adds :
    (x : String) (refs : List String) (extras : List (Option String))
    → Mem (some x) extras
    → Mem x (evidence_refs refs extras)
unfolding evidence_refs
evidence_refs-adds x refs [] m = absurd (not-mem-nil m)
evidence_refs-adds x refs (extra ∷ extras) m =
    Or.elim Mem-prop (eq-or-mem_of_mem-cons m)
      (λ here.
        rw (← here) (evidence_refs-keeps x (push_new refs (some x)) extras (push_new-adds x refs)))
      (λ later. evidence_refs-adds x (push_new refs extra) extras later)

-- the references of the five canonical rereads are listed
pub record ListsRereads (refs : CanonicalRereadRefs) (listed : List String) : Type 0 where
  pub operator_report : Mem refs.operator_report.evidence_ref listed
  pub report_window : Mem refs.report_window.evidence_ref listed
  pub exception_rollup : Mem refs.exception_rollup.evidence_ref listed
  pub runtime_control_status : Mem refs.runtime_control_status.evidence_ref listed
  pub runtime_control_failures : Mem refs.runtime_control_failures.evidence_ref listed

-- What decided, and every reread that was asked for, is among the evidence of the reasoning.
pub record IsTraceable (refs : CanonicalRereadRefs) (c : ClassifiedVerdict) : Type 0 where
  pub decisive_known : All (λ r. Mem r c.reasoning_evidence_refs) c.decisive_evidence_refs
  pub some_decisive : c.decisive_evidence_refs ≢ []
  pub rereads_known : ListsRereads refs c.reasoning_evidence_refs
  pub rereads_kept : ListsRereads refs c.reread_snapshot_refs

abbrev second : {A : Type 0} {a b : A} {xs : List A} → Mem b (a ∷ b ∷ xs)
second {a = a} = mem-cons_of_mem a mem-cons_self

all_refs-ListsRereads : (refs : CanonicalRereadRefs) → ListsRereads refs (all_refs refs)
all_refs-ListsRereads refs = record {
  operator_report = mem-cons_self;
  report_window = second;
  exception_rollup = mem-cons_of_mem _ second;
  runtime_control_status = mem-cons_of_mem _ (mem-cons_of_mem _ second);
  runtime_control_failures = mem-cons_of_mem _ (mem-cons_of_mem _ (mem-cons_of_mem _ second));
}

evidence_refs-ListsRereads :
    (refs : CanonicalRereadRefs) (listed : List String) (extras : List (Option String))
    → ListsRereads refs listed
    → ListsRereads refs (evidence_refs listed extras)
evidence_refs-ListsRereads refs listed extras l = record {
  operator_report = evidence_refs-keeps _ listed extras l.operator_report;
  report_window = evidence_refs-keeps _ listed extras l.report_window;
  exception_rollup = evidence_refs-keeps _ listed extras l.exception_rollup;
  runtime_control_status = evidence_refs-keeps _ listed extras l.runtime_control_status;
  runtime_control_failures = evidence_refs-keeps _ listed extras l.runtime_control_failures;
}

module _ (input : VerdictClassifierInput) (v : Verdict) (code : String) (summary : String)
    (extras : List (Option String)) (mismatches : List VerdictMismatchDiagnostic) where
  abbrev refs : CanonicalRereadRefs
  refs = input.canonical_reread_refs

  abbrev listed : List String
  listed = all_refs refs

  decisive_refs-ne_nil : (decisive : Option String) → decisive_refs decisive listed ≢ []
  decisive_refs-ne_nil none e = cc e
  decisive_refs-ne_nil (some x) e = cc e

  known :
      (rs : List String)
      → ((r : String) → Mem r rs → Mem r listed)
      → All (λ r. Mem r (evidence_refs listed extras)) rs
  known [] k = tt
  known (r ∷ rs) k = (
    evidence_refs-keeps r _ extras (k r mem-cons_self),
    known rs (λ s m. k s (mem-cons_of_mem r m)),
  )

  build_traced :
      (decisive : Option String)
      → All (λ r. Mem r (evidence_refs listed extras)) (decisive_refs decisive listed)
      → IsTraceable refs (build input v code decisive summary extras mismatches)
  unfolding build
  build_traced decisive deciding = record {
    decisive_known = deciding;
    some_decisive = decisive_refs-ne_nil decisive;
    rereads_known = evidence_refs-ListsRereads refs listed extras (all_refs-ListsRereads refs);
    rereads_kept = all_refs-ListsRereads refs;
  }

  build_of_extra :
      (decisive : Option String)
      → Mem decisive extras
      → IsTraceable refs (build input v code decisive summary extras mismatches)
  build_of_extra none m = build_traced none (known listed (λ r h. h))
  build_of_extra (some x) m = build_traced (some x) (evidence_refs-adds x _ extras m, tt)

  build_of_reread :
      (x : String)
      → Mem x listed
      → IsTraceable refs (build input v code (some x) summary extras mismatches)
  build_of_reread x m = build_traced (some x) (evidence_refs-keeps x _ extras m, tt)

or_else-mem :
    (a b : Option String) (extras : List (Option String))
    → Mem a extras
    → Mem b extras
    → Mem (or_else a b) extras
or_else-mem none b extras m n = n
or_else-mem (some x) b extras m n = m

route_verdict-IsTraceable :
    (input : VerdictClassifierInput) (v : Verdict)
    → IsTraceable input.canonical_reread_refs (route_verdict input v)
unfolding route_verdict
route_verdict-IsTraceable input Verdict.pass =
    build_of_extra input _ _ _ _ _ _ (or_else-mem _ _ _ (mem-cons_of_mem _ second) second)
route_verdict-IsTraceable input Verdict.fail = build_of_extra input _ _ _ _ _ _ second
route_verdict-IsTraceable input Verdict.hold = build_of_extra input _ _ _ _ _ _ second
route_verdict-IsTraceable input Verdict.blocked = build_of_extra input _ _ _ _ _ _ second

rollup_verdict-IsTraceable :
    (input : VerdictClassifierInput) (hold : Option StrategyRuntimeHoldException)
    → IsTraceable input.canonical_reread_refs (rollup_verdict input hold)
unfolding rollup_verdict
rollup_verdict-IsTraceable input none = route_verdict-IsTraceable input _
rollup_verdict-IsTraceable input (some hold) =
    build_of_reread input _ _ _ _ _ _ (mem-cons_of_mem _ second)

authority_verdict-IsTraceable :
    (input : VerdictClassifierInput) (decision : AuthorityDecision)
    → IsTraceable input.canonical_reread_refs (authority_verdict input decision)
unfolding authority_verdict
authority_verdict-IsTraceable input AuthorityDecision.pass = rollup_verdict-IsTraceable input _
authority_verdict-IsTraceable input AuthorityDecision.fail =
    build_of_extra input _ _ _ _ _ _ mem-cons_self
authority_verdict-IsTraceable input AuthorityDecision.hold =
    build_of_extra input _ _ _ _ _ _ mem-cons_self
authority_verdict-IsTraceable input AuthorityDecision.blocked =
    build_of_extra input _ _ _ _ _ _ mem-cons_self

pretrade_verdict-IsTraceable :
    (input : VerdictClassifierInput) (outcome : PreTradeOutcome)
    → IsTraceable input.canonical_reread_refs (pretrade_verdict input outcome)
unfolding pretrade_verdict
pretrade_verdict-IsTraceable input PreTradeOutcome.approval_boundary_reached =
    authority_verdict-IsTraceable input _
pretrade_verdict-IsTraceable input PreTradeOutcome.blocked =
    build_of_reread input _ _ _ _ _ _ mem-cons_self
pretrade_verdict-IsTraceable input PreTradeOutcome.pending =
    build_of_reread input _ _ _ _ _ _ mem-cons_self
pretrade_verdict-IsTraceable input PreTradeOutcome.incomplete =
    build_of_reread input _ _ _ _ _ _ mem-cons_self

-- Whatever the verdict, the references that decided it are at least one and are all among those
-- that its reasoning lists; and the references of the operator report, the report window, the
-- exception rollup and the runtime control's status and failures are both in that list and in the
-- one of the rereads.
pub classify_verdict-IsTraceable :
    (input : VerdictClassifierInput)
    → IsTraceable input.canonical_reread_refs (classify_verdict input)
unfolding classify_verdict
classify_verdict-IsTraceable input =
    elim (Bool-cases (is_empty (collect_mismatch_diagnostics input))) [
      | inr differ ↦
          rw differ (build_of_extra input _ _ _ _ _ _ (or_else-mem _ _ _ second mem-cons_self))
      | inl agree ↦ elim (Bool-cases (is_incomplete input)) [
        | inl incomplete ↦ rw (agree, incomplete) (build_of_reread input _ _ _ _ _ _ mem-cons_self)
        | inr complete ↦
            rw (agree, complete) (pretrade_verdict-IsTraceable input input.pre_trade_outcome)
      ]
    ]
