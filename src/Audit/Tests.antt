-- ===== src/Audit/Tests.antt =====
-- The audit log at concrete inputs.
use blocktic_backend.Base.{
  arith, true, ◌≡◌, refl, none, some, [], ◌∷◌, ◌++◌, All, length, keep, false,
}
use blocktic_backend.Exec.{ok}
use blocktic_backend.Entities.{AuditLog, AuditAction, GateLog, VerificationMode, VerificationResult}
use blocktic_backend.State.{State, World, sleep, response}
use blocktic_backend.Audit.{
  AuditSummary, of_event, events_to_clean, get_event_summary, cleanup_event_data,
}
use blocktic_backend.Audit.Summary.{CountsOf, Within, get_event_summary_lem}
use blocktic_backend.Audit.Cleanup.{has, Deleted, cleanup_event_data_once}
use blocktic_backend.Audit.Retry.{cleanup_event_data_retried}
use blocktic_backend.Samples.{world, empty_db, state_of}

abbrev minting : AuditLog
minting = record {
  id = "a1";
  event_id = "e1";
  user_id = some "u1";
  action = AuditAction.ticket_minted;
  details = none;
  ip_address = none;
  created_at = 7;
}

abbrev entry_log : GateLog
entry_log = record {
  id = "l1";
  event_id = "e1";
  ticket_id = "t1";
  gate_id = "g1";
  verification_mode = VerificationMode.normal;
  result = VerificationResult.success;
  face_score = none;
  staff_id = "s1";
  verified_at = 3;
}

-- The sample clock stands at 1000000 ms, so the job runs a day later here.
abbrev next_day : State
next_day =
    record (state_of (record empty_db { audit_logs = minting ∷ []; gate_logs = entry_log ∷ [] })) {
      trace = sleep 86400000 ∷ [];
    }

due :
    events_to_clean (world.now next_day.trace) next_day.gate_logs next_day.audit_logs
    ≡ [] ++ "e1" ∷ []
unfolding events_to_clean
due = refl

get_event_summary_lem_example :
    let logs = keep (of_event "e1") next_day.audit_logs in
    (r : AuditSummary) × (get_event_summary "e1" next_day ≡ (ok r, next_day))
    × (r.total_logs ≡ length logs)
    × All (CountsOf logs) r.action_counts
    × All (Within r.first_log_at r.last_log_at) logs
get_event_summary_lem_example = get_event_summary_lem "e1" next_day

cleanup_event_data_once_example :
    has "e1" (
      events_to_clean 99999999
        (entry_log ∷ entry_log ∷ [])
        ((cleanup_event_data world next_day).1.audit_logs ++ minting ∷ []))
    ≡ false
cleanup_event_data_once_example =
    cleanup_event_data_once world [] [] "e1" 99999999 (entry_log ∷ entry_log ∷ []) (minting ∷ [])
      next_day due (200, refl, refl)

-- CompreFace is down.
abbrev broken_world : World
broken_world = record world { delete_face = λ t c. response 503 tt }

undeleted : ¬ Deleted (response 503 tt)
undeleted (status, same, gone) = ground arith

cleanup_event_data_retried_example :
    has "e1" (
      events_to_clean 99999999 next_day.gate_logs
        (cleanup_event_data broken_world next_day).1.audit_logs)
    ≡ true
cleanup_event_data_retried_example =
    cleanup_event_data_retried broken_world [] [] "e1" 99999999 next_day due undeleted (omega arith)
