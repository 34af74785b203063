-- ===== src/State/Actions.antt =====
-- The state of the application and the actions that the services are made of.
use blocktic_backend.Base.{ℕ, String, List, ◌∷◌}
use blocktic_backend.Exec.{Result, ok, err, Exec}
use blocktic_backend.Entities.{
  User, Person, LotteryEntry, DrawResult, Seat, Ticket, GateLog, Event, AuditLog, Notification,
}
use blocktic_backend.State.Calls.{Call, Trace}

pub record Db : Type 0 where
  pub users : List User
  pub persons : List Person
  pub entries : List LotteryEntry
  pub draw_results : List DrawResult
  pub seats : List Seat
  pub tickets : List Ticket
  pub gate_logs : List GateLog
  pub audit_logs : List AuditLog
  pub notifications : List Notification
  pub events : List Event

-- A record of AuthService.otpStore.
pub record OtpRecord : Type 0 where
  pub attempts : ℕ
  pub expires_at : ℕ

pub record State : Type 0 where
  pub db : Db
  pub open db use *
  -- AuthService.otpStore, by phone number
  pub otp_store : List (String × OtpRecord)
  -- the nonces in Redis, each with the time in milliseconds at which it expires
  pub nonces : List (String × ℕ)
  pub trace : Trace

abbrev pub App : Type 0 → Type 0
App A = Exec State A

abbrev pub put_users : List User → State → State
put_users l s = record s { db = record s.db { users = l } }

abbrev pub put_persons : List Person → State → State
put_persons l s = record s { db = record s.db { persons = l } }

abbrev pub put_entries : List LotteryEntry → State → State
put_entries l s = record s { db = record s.db { entries = l } }

abbrev pub put_draw_results : List DrawResult → State → State
put_draw_results l s = record s { db = record s.db { draw_results = l } }

abbrev pub put_seats : List Seat → State → State
put_seats l s = record s { db = record s.db { seats = l } }

abbrev pub put_tickets : List Ticket → State → State
put_tickets l s = record s { db = record s.db { tickets = l } }

abbrev pub put_gate_logs : List GateLog → State → State
put_gate_logs l s = record s { db = record s.db { gate_logs = l } }

abbrev pub put_audit_logs : List AuditLog → State → State
put_audit_logs l s = record s { db = record s.db { audit_logs = l } }

abbrev pub put_notifications : List Notification → State → State
put_notifications l s = record s { db = record s.db { notifications = l } }

abbrev pub put_events : List Event → State → State
put_events l s = record s { db = record s.db { events = l } }

-- Make a call: the answer depends on what was called before, and the call joins the trace.
unfoldable pub call : {A : Type 0} → Call → (Trace → Call → A) → App A
call c answer s = (ok (answer s.trace c), record s { trace = c ∷ s.trace })

abbrev settle : {A : Type 0} → Db → Result A × State → Result A × State
settle before (ok a, s) = (ok a, s)
settle before (err e, s) = (err e, record s { db = before })

-- `dataSource.transaction(m)`: a throw gives back the database as it was before, and nothing else.
unfoldable pub transaction : {A : Type 0} → App A → App A
unfolding call
transaction m s = settle s.db (m s)
