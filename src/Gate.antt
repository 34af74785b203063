-- ===== src/Gate.antt =====
-- gate-verification/gate-verification.service.ts: the QR code of a ticket, entry by QR code and by
-- government id, and the entry statistics. The steps of an entry are in Gate/Entry.antt, the face
-- comparison in Gate/Face.antt.
pub mod Entry
pub mod Face
pub mod Fallback
pub mod Replay
mod Tests
use blocktic_backend.Base.{
  ℕ, ◌+◌, String, Bool, true, false, not, ◌&&◌, Option, none, some, List, ◌==◌, string_eq,
  if◌then◌else◌, find_by, find_id, keep, tally,
}
use blocktic_backend.Exec.{
  bad_request, conflict, pure, throw, gets, throw_if, or_throw, ◌>>=◌, ◌>>◌,
}
use blocktic_backend.Entities.{
  Person, Ticket, TicketStatus, ticket_status_eq, paid, minted, refunded, used, GateLog,
  VerificationMode, VerificationResult, mode_eq, result_eq,
}
use blocktic_backend.State.{World, Config, State, App}
use Entry.{
  qr_ttl_seconds, VerifyResult, check_token, load_ticket, check_ownership, check_face, consume,
  save_log,
}

pub record QrResponse : Type 0 where
  pub qr_token : String
  pub expires_in : ℕ

module _ (w : World) (cfg : Config) where
  unfoldable pub generate_dynamic_qr : (ticket_id : String) → App QrResponse
  generate_dynamic_qr ticket_id = do
    found ← gets (λ s. find_id Ticket.id ticket_id s.tickets)
    ticket ← or_throw found (bad_request "Ticket not found")
    throw_if (ticket_status_eq ticket.status used) (conflict "Ticket has already been used")
    throw_if (ticket_status_eq ticket.status refunded) (bad_request "Ticket has been refunded")
    token ← gets (λ s. w.sign_qr s.trace ticket_id (w.random s.trace))
    pure (record { qr_token = token; expires_in = qr_ttl_seconds })

  unfoldable pub verify_entry :
      (qr_token gate_id staff_id : String) → (face_photo : Option String) → App VerifyResult
  verify_entry qr_token gate_id staff_id face_photo = do
    ticket_id ← check_token w qr_token
    ticket ← load_ticket w gate_id staff_id ticket_id
    check_ownership w gate_id staff_id cfg ticket
    checked ← check_face w gate_id staff_id cfg ticket face_photo
    consume w gate_id staff_id ticket.event_id ticket.id checked.0 VerificationResult.success
        checked.1 "Entry verified successfully"

  abbrev pub ticket_for : (event_id user_id : String) → TicketStatus → Ticket → Bool
  ticket_for event_id user_id st t =
      t.event_id == event_id && t.user_id == user_id && ticket_status_eq t.status st

  -- The MINTED ticket of the person and event, else the PAID one.
  abbrev pub fallback_ticket : (event_id user_id : String) → State → Option Ticket
  fallback_ticket event_id user_id s =
      elim (find_by (ticket_for event_id user_id minted) s.tickets) [
        | some t ↦ some t
        | none ↦ find_by (ticket_for event_id user_id paid) s.tickets
      ]

  abbrev pub has_id_hash : String → Person → Bool
  has_id_hash hash p = elim p.person_id_hash [ none ↦ false | some h ↦ h == hash ]

  -- With a ticket the conditional update, without one a failed log for the ticket 'unknown'.
  unfoldable pub admit_fallback :
      (event_id gate_id staff_id : String) → Option Ticket → App VerifyResult
  unfolding save_log ◌>>=◌
  admit_fallback event_id gate_id staff_id (some t) =
      consume w gate_id staff_id event_id t.id VerificationMode.fallback VerificationResult.fallback
        none "Fallback verification succeeded via government ID"
  admit_fallback event_id gate_id staff_id none = do
    save_log w event_id "unknown" gate_id VerificationMode.fallback VerificationResult.failed none
        staff_id
    throw (bad_request "No valid ticket found for this person and event")

  unfoldable pub fallback_verify :
      (government_id event_id gate_id staff_id : String) → App VerifyResult
  fallback_verify government_id event_id gate_id staff_id = do
    found ← gets (λ s. find_by (has_id_hash (w.sha256 government_id)) s.persons)
    person ← or_throw found (bad_request "No person found with the provided government ID")
    ticket ← gets (fallback_ticket event_id person.id)
    admit_fallback event_id gate_id staff_id ticket

pub record ByMode : Type 0 where
  pub strong : ℕ
  pub normal : ℕ
  pub offline : ℕ
  pub fallback : ℕ

pub record EntryStats : Type 0 where
  pub event_id : String
  pub total : ℕ
  pub success : ℕ
  pub failed : ℕ
  pub fallback : ℕ
  pub by_mode : ByMode

abbrev pub of_event : String → GateLog → Bool
of_event event_id l = l.event_id == event_id

abbrev pub of_result : String → VerificationResult → GateLog → Bool
of_result event_id r l = l.event_id == event_id && result_eq l.result r

abbrev pub of_mode : String → VerificationMode → GateLog → Bool
of_mode event_id m l = l.event_id == event_id && mode_eq l.verification_mode m

abbrev pub stats_of : String → List GateLog → EntryStats
stats_of event_id logs = record {
  event_id = event_id;
  total = tally (of_event event_id) logs;
  success = tally (of_result event_id VerificationResult.success) logs;
  failed = tally (of_result event_id VerificationResult.failed) logs;
  fallback = tally (of_result event_id VerificationResult.fallback) logs;
  by_mode = record {
    strong = tally (of_mode event_id VerificationMode.strong) logs;
    normal = tally (of_mode event_id VerificationMode.normal) logs;
    offline = tally (of_mode event_id VerificationMode.offline) logs;
    fallback = tally (of_mode event_id VerificationMode.fallback) logs;
  };
}

unfoldable pub get_entry_stats : (event_id : String) → App EntryStats
get_entry_stats event_id = gets (λ s. stats_of event_id s.gate_logs)
