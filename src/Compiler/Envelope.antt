-- ===== src/Compiler/Envelope.antt =====
-- What every request's envelope goes through: `validate_envelope` and `compile_audit`.
use a2ex.Base.{String, Option, Result, none, some, ◌>>◌, fail_if, if◌then◌else◌, ◌==◌}
use a2ex.Base.Text.{trim}
use a2ex.Control.{AgentRequestEnvelope}
use a2ex.Compiler.Types.{CompileAuditContext, CompilerError, single}

unfoldable pub validate_envelope :
    String → String → String → String → Result CompilerError (Unit {0})
validate_envelope request_id source_agent_id submitted_at rationale_summary = do
  fail_if (trim request_id == "")
      (single "request_id" "missing_required" "request_id must not be empty")
  fail_if (trim source_agent_id == "")
      (single "source_agent_id" "missing_required" "source_agent_id must not be empty")
  fail_if (trim submitted_at == "")
      (single "submitted_at" "missing_required" "submitted_at must not be empty")
  fail_if (trim rationale_summary == "")
      (single "rationale.summary" "missing_required" "rationale.summary must not be empty")

-- `.map(trim).filter(|value| !value.is_empty())`
unfoldable trim_label : Option String → Option String
trim_label none = none
trim_label (some label) = if trim label == "" then none else some (trim label)

unfoldable pub compile_audit : {T : Type 0} → AgentRequestEnvelope T → CompileAuditContext
unfolding trim_label
compile_audit envelope = record {
  request_id = trim envelope.request_id;
  source_agent_id = trim envelope.source_agent_id;
  submitted_at = trim envelope.submitted_at;
  rationale_summary = trim envelope.rationale.summary;
  preview_only = envelope.execution_preferences.preview_only;
  client_request_label = trim_label envelope.execution_preferences.client_request_label;
}
