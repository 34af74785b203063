-- ===== src/Audit.antt =====
-- audit/audit.service.ts: the audit log, its summary of an event, and the hourly cleanup.
pub mod Summary
pub mod Cleanup
pub mod Retry
pub mod Tests
use blocktic_backend.Base.{
  ℕ, ◌+◌, ◌*◌, String, Bool, true, not, ◌&&◌, ◌||◌, Option, none, some, List, [], ◌∷◌, ◌++◌, ◌<>◌,
  ltb, leb, ◌==◌, nat_eq, string_eq, if◌then◌else◌, find_by, keep, tally, map, is_some, decimal,
}
use blocktic_backend.Base.Pages.{Page, paged}
use blocktic_backend.Base.Sorting.{sort}
use blocktic_backend.Exec.{pure, gets, modify, try_catch, for_each, throw, failure, ◌>>=◌, ◌>>◌}
use blocktic_backend.Entities.{AuditLog, AuditAction, action_eq, data_cleanup, GateLog}
use blocktic_backend.State.{
  World, State, App, put_audit_logs, call, HttpReply, rejected, response, is_ok,
  compreface_delete_subject,
}

-- dto/audit-query.dto.ts, with the defaults of `getLogs` filled in
pub record AuditQuery : Type 0 where
  pub page : ℕ
  pub limit : ℕ
  pub event_id : Option String
  pub action : Option AuditAction

-- dto/audit-summary.dto.ts
pub record ActionCount : Type 0 where
  pub action : AuditAction
  pub count : ℕ

pub record AuditSummary : Type 0 where
  pub event_id : String
  pub total_logs : ℕ
  pub action_counts : List ActionCount
  pub first_log_at : Option ℕ
  pub last_log_at : Option ℕ

abbrev pub of_event : String → AuditLog → Bool
of_event event_id l = l.event_id == event_id

abbrev pub newest_first : AuditLog → AuditLog → Bool
newest_first a b = leb b.created_at a.created_at

abbrev pub matches : AuditQuery → AuditLog → Bool
matches q l =
    elim q.event_id [ none ↦ true | some e ↦ e == "" || l.event_id == e ]
    && elim q.action [ none ↦ true | some a ↦ action_eq l.action a ]

unfoldable pub get_logs : AuditQuery → App (Page AuditLog)
unfolding sort
get_logs q = gets (λ s. paged q.page q.limit (sort newest_first (keep (matches q) s.audit_logs)))

-- `SELECT action, COUNT(*) … GROUP BY action`: a row for each action that occurs.
abbrev pub counted : List AuditLog → List AuditAction → List ActionCount
counted logs [] = []
counted logs (a ∷ rest) =
    let n = tally (λ (l : AuditLog). action_eq l.action a) logs in
    if n == 0 then counted logs rest else record { action = a; count = n } ∷ counted logs rest

abbrev pub all_actions : List AuditAction
all_actions =
    AuditAction.kyc_verified ∷ AuditAction.lottery_drawn ∷ AuditAction.ticket_minted
    ∷ AuditAction.ticket_refunded ∷ AuditAction.gate_verified ∷ AuditAction.data_cleanup ∷ []

-- `actionCounts.reduce((sum, r) => sum + r.count, 0)`
abbrev pub sum_counts : ℕ → List ActionCount → ℕ
sum_counts sum [] = sum
sum_counts sum (r ∷ rest) = sum_counts (sum + r.count) rest

-- MIN and MAX of createdAt; null of no rows
abbrev pub first_at : List AuditLog → Option ℕ
first_at [] = none
first_at (l ∷ rest) = elim (first_at rest) [
  | none ↦ some l.created_at
  | some t ↦ some (if ltb l.created_at t then l.created_at else t)
]

abbrev pub last_at : List AuditLog → Option ℕ
last_at [] = none
last_at (l ∷ rest) = elim (last_at rest) [
  | none ↦ some l.created_at
  | some t ↦ some (if ltb t l.created_at then l.created_at else t)
]

abbrev pub summary_of : String → List AuditLog → AuditSummary
summary_of event_id logs =
    let counts = counted logs all_actions in
    record {
      event_id = event_id;
      total_logs = sum_counts 0 counts;
      action_counts = counts;
      first_log_at = first_at logs;
      last_log_at = last_at logs;
    }

unfoldable pub get_event_summary : (event_id : String) → App AuditSummary
get_event_summary event_id = gets (λ s. summary_of event_id (keep (of_event event_id) s.audit_logs))

-- `NOT EXISTS (SELECT 1 … WHERE cleanup.eventId = gl.eventId AND cleanup.action = 'data_cleanup')`
abbrev pub is_cleaned : String → List AuditLog → Bool
is_cleaned event_id logs =
    is_some
      (find_by (λ (l : AuditLog). l.event_id == event_id && action_eq l.action data_cleanup) logs)

abbrev pub add_distinct : String → List String → List String
add_distinct e found = if is_some (find_by (λ x. x == e) found) then found else e ∷ found

-- `verifiedAt <= now - 24h`, with no subtraction
abbrev pub is_due : (now : ℕ) → GateLog → Bool
is_due now g = leb (g.verified_at + 24 * 60 * 60 * 1000) now

unfoldable pub events_to_clean : (now : ℕ) → List GateLog → List AuditLog → List String
events_to_clean now [] logs = []
events_to_clean now (g ∷ rest) logs =
    let found = events_to_clean now rest logs in
    if is_due now g && not (is_cleaned g.event_id logs)
    then add_distinct g.event_id found
    else found

module _ (w : World) where
  abbrev pub new_log :
      (event_id : String)
      → Option String
      → AuditAction
      → (details ip : Option String) → State
      → AuditLog
  new_log event_id user_id action details ip s = record {
    id = w.new_id (map AuditLog.id s.audit_logs);
    event_id = event_id;
    user_id = user_id;
    action = action;
    details = details;
    ip_address = ip;
    created_at = w.now s.trace;
  }

  unfoldable pub log_action :
      (event_id : String)
      → Option String
      → AuditAction
      → (details ip : Option String) → App AuditLog
  log_action event_id user_id action details ip = do
    l ← gets (new_log event_id user_id action details ip)
    modify (λ s. put_audit_logs (s.audit_logs ++ l ∷ []) s)
    pure l

  -- `!response.ok && response.status !== 404`: nothing is recorded, and the next run tries again.
  abbrev pub cleanup_reply : (event_id : String) → HttpReply (Unit {0}) → App (Unit {0})
  cleanup_reply event_id rejected = throw (failure "fetch")
  cleanup_reply event_id (response status body) =
      if not (is_ok status) && not (status == 404)
      then pure tt
      else (log_action event_id none data_cleanup
            (some ("{\"reason\":\"scheduled_24h_post_event\",\"status\":" <> decimal status <> "}"))
            none
          >>= λ _. pure tt)

  unfoldable pub clean_event : (event_id : String) → App (Unit {0})
  unfolding call log_action ◌>>=◌
  clean_event event_id =
      try_catch
        (do
          reply ← call (compreface_delete_subject event_id) w.delete_face
          cleanup_reply event_id reply)
        (λ _. pure tt)

  unfoldable pub cleanup_event_data : App (Unit {0})
  unfolding events_to_clean clean_event for_each
  cleanup_event_data = do
    events ← gets (λ s. events_to_clean (w.now s.trace) s.gate_logs s.audit_logs)
    for_each events clean_event
