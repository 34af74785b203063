-- ===== src/Api/Audit.antt =====
-- audit/audit.controller.ts: no guard stands before it.
use blocktic_backend.Base.{String}
use blocktic_backend.Exec.{◌>>◌}
use blocktic_backend.Base.Pages.{Page}
use blocktic_backend.Entities.{AuditLog}
use blocktic_backend.State.{App}
use blocktic_backend.Audit
use blocktic_backend.Api.Http.{Web, parse_uuid, validate_body}
use blocktic_backend.Api.Dto.{AuditLogQuery, audit_query, accepts_audit_query}

module _ (web : Web) where
  unfoldable pub get_logs : AuditLogQuery → App (Page AuditLog)
  unfolding validate_body
  get_logs query = do
    validate_body (accepts_audit_query web query)
    Audit.get_logs (audit_query query)

  unfoldable pub get_event_summary : (event_id : String) → App Audit.AuditSummary
  unfolding parse_uuid
  get_event_summary event_id = do parse_uuid web event_id; Audit.get_event_summary event_id
