-- ===== src/Lifecycle/Admission.antt =====
-- The two ways into an event of gate-verification/gate-verification.service.ts: verifyEntry and
-- fallbackVerify.
use blocktic_backend.Base.{String, ◌≡◌, Option, Distinct}
use blocktic_backend.Exec.{ok}
use blocktic_backend.Exec.Keeps.{Moves}
use blocktic_backend.Entities.{Ticket}
use blocktic_backend.State.{World, Config, State, App}
use blocktic_backend.Gate.Entry.{VerifyResult}
use blocktic_backend.Gate.{verify_entry, fallback_verify}
use blocktic_backend.Lifecycle.Order.{MovesOn}
use blocktic_backend.Lifecycle.Gate.{verify_entry-MovesOn, fallback_verify-MovesOn}
use blocktic_backend.Lifecycle.Entry.{Admits, verify_entry-Admits, fallback_verify-Admits}

-- An entry at the gate.
pub data Entry : Type 0 where
  scan : (token gate_id staff_id : String) → (photo : Option String) → Entry
  by_id : (government_id event_id gate_id staff_id : String) → Entry

module _ (w : World) (cfg : Config) where
  abbrev pub admit : Entry → App VerifyResult
  admit (scan token gate staff photo) = verify_entry w cfg token gate staff photo
  admit (by_id id event gate staff) = fallback_verify w cfg id event gate staff

  pub admit-MovesOn : (e : Entry) → Moves MovesOn (admit e)
  admit-MovesOn (scan token gate staff photo) = verify_entry-MovesOn w cfg token gate staff photo
  admit-MovesOn (by_id id event gate staff) = fallback_verify-MovesOn w cfg id event gate staff

  pub admit-Admits :
      (e : Entry) (s : State) (r : VerifyResult)
      → Distinct Ticket.id s.tickets
      → (admit e s).0 ≡ ok r
      → Admits w s (admit e s).1 r.ticket_id
  admit-Admits (scan token gate staff photo) s r d h =
      verify_entry-Admits w cfg token gate staff photo s r d h
  admit-Admits (by_id id event gate staff) s r d h =
      fallback_verify-Admits w cfg id event gate staff s r d h
