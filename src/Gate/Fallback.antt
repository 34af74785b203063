-- ===== src/Gate/Fallback.antt =====
-- gate-verification/gate-verification.service.ts, fallbackVerify, of a person without a valid ticket.
use blocktic_backend.Base.{String, ◌≡◌, refl, false, none, some, find_by, Bool-cases, inl, inr}
use blocktic_backend.Exec.{err, failure, ◌>>=◌}
use blocktic_backend.Entities.{Person}
use blocktic_backend.State.{World, Config, State}
use blocktic_backend.Gate.Entry.{save_log}
use blocktic_backend.Gate.{has_id_hash, fallback_ticket, admit_fallback, fallback_verify}

module _ (w : World) (cfg : Config) where
  -- Where the database does not take 'unknown' for a uuid: a known person who has no valid ticket for
  -- the event is refused by the database's error on the log, not by the exception that was meant,
  -- and no log is written.
  pub fallback_verify_unlogged :
      (government_id event_id gate_id staff_id : String) (p : Person) (s : State)
      → w.is_uuid "unknown" ≡ false
      → find_by (has_id_hash w cfg (w.sha256 government_id)) s.persons ≡ some p
      → fallback_ticket w cfg event_id p.id s ≡ none
      → fallback_verify w cfg government_id event_id gate_id staff_id s
        ≡ (err (failure "invalid input syntax for type uuid"), s)
  unfolding fallback_verify admit_fallback save_log ◌>>=◌
  fallback_verify_unlogged government_id event_id gate_id staff_id p s no_uuid known no_ticket =
      elim (Bool-cases (w.is_uuid event_id)) [
        | inl valid ↦ rw (known, no_ticket, valid, no_uuid) refl
        | inr invalid ↦ rw (known, no_ticket, invalid) refl
      ]
