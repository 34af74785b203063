-- ===== src/Lifecycle/Gate.antt =====
-- gate-verification/gate-verification.service.ts: the steps of an entry on the tickets table.
use blocktic_backend.Base.{
  ℕ, String, ◌≡◌, refl, true, Option, none, some, arith, update_where, update_where-Distinct, ◌==◌,
  string_eq, ◌&&◌,
}
use blocktic_backend.Exec.{◌>>=◌}
use blocktic_backend.Exec.Keeps.{Moves, Moves-bind, Moves-gets, Moves-or_throw, Moves-throw}
use blocktic_backend.Entities.{Ticket, VerificationMode, VerificationResult, used}
use blocktic_backend.State.{World, Config, State, App}
use blocktic_backend.Gate.Entry.{
  save_log, check_token, load_ticket, check_ownership, check_face, consume, is_valid_status,
}
use blocktic_backend.Gate.{verify_entry, fallback_verify, admit_fallback}
use blocktic_backend.Lifecycle.Order.{
  Evolves, MovesOn, MovesOn-IsPreorder, TicketsEvolve-refl, update_where-TicketsEvolve,
}

-- An action that leaves the tickets table alone.
pub Moves-of_same :
    {A : Type 0} (m : App A) → ((s : State) → (m s).1.tickets ≡ s.tickets) → Moves MovesOn m
Moves-of_same m h = record { at = λ s d. rw (h s) (d, TicketsEvolve-refl s.tickets) }

module _ (w : World) where
  pub tickets-check_token :
      (token : String) (s : State) → (check_token w token s).1.tickets ≡ s.tickets
  unfolding check_token ◌>>=◌
  tickets-check_token token s = ground arith

  module _ (gate_id staff_id : String) where
    pub tickets-load_ticket :
        (id : String) (s : State) → (load_ticket w gate_id staff_id id s).1.tickets ≡ s.tickets
    unfolding load_ticket ◌>>=◌
    tickets-load_ticket id s = ground arith

    pub tickets-check_ownership :
        (cfg : Config) (t : Ticket) (s : State)
        → (check_ownership w gate_id staff_id cfg t s).1.tickets ≡ s.tickets
    unfolding check_ownership ◌>>=◌
    tickets-check_ownership cfg t s = ground arith

    pub tickets-check_face :
        (cfg : Config) (t : Ticket) (photo : Option String) (s : State)
        → (check_face w gate_id staff_id cfg t photo s).1.tickets ≡ s.tickets
    unfolding check_face ◌>>=◌
    tickets-check_face cfg t photo s = ground arith

    pub tickets-consume :
        (event_id id : String) (mode : VerificationMode) (result : VerificationResult)
        (score : Option ℕ) (message : String) (s : State)
        → (consume w gate_id staff_id event_id id mode result score message s).1.tickets
          ≡ update_where
              (λ t. t.id == id && is_valid_status t.status)
              (λ t. record t { status = used })
              s.tickets
    unfolding consume ◌>>=◌
    tickets-consume event_id id mode result score message s = ground arith

    Evolves-used :
        (id : String) (t : Ticket)
        → t.id == id && is_valid_status t.status ≡ true
        → Evolves t (record t { status = used })
    Evolves-used id t h = record {
      id = refl;
      event_id = refl;
      user_id = refl;
      amount = refl;
      trade_no = refl;
      status = ground arith;
    }

    consume-MovesOn :
        (event_id id : String) (mode : VerificationMode) (result : VerificationResult)
        (score : Option ℕ) (message : String)
        → Moves MovesOn (consume w gate_id staff_id event_id id mode result score message)
    consume-MovesOn event_id id mode result score message = record {
      at = λ s d. rw (tickets-consume event_id id mode result score message s) (
        update_where-Distinct Ticket.id _ _ (λ t. refl) s.tickets d,
        update_where-TicketsEvolve _ _ s.tickets (λ t. refl) (Evolves-used id),
      );
    }

  pub verify_entry-MovesOn :
      (cfg : Config) (token gate_id staff_id : String) (photo : Option String)
      → Moves MovesOn (verify_entry w cfg token gate_id staff_id photo)
  unfolding verify_entry
  verify_entry-MovesOn cfg token gate_id staff_id photo =
      Moves-bind MovesOn-IsPreorder _ _ (Moves-of_same _ (tickets-check_token token)) λ id.
        Moves-bind MovesOn-IsPreorder _ _
          (Moves-of_same _ (tickets-load_ticket gate_id staff_id id))
          λ t.
            Moves-bind MovesOn-IsPreorder _ _
              (Moves-of_same _ (tickets-check_ownership gate_id staff_id cfg t))
              λ _.
                Moves-bind MovesOn-IsPreorder _ _
                  (Moves-of_same _ (tickets-check_face gate_id staff_id cfg t photo))
                  λ checked.
                    consume-MovesOn gate_id staff_id t.event_id t.id checked.0
                      VerificationResult.success checked.1 _

  tickets-save_log :
      (event_id id gate_id : String) (mode : VerificationMode) (result : VerificationResult)
      (score : Option ℕ) (staff_id : String) (s : State)
      → (save_log w event_id id gate_id mode result score staff_id s).1.tickets ≡ s.tickets
  unfolding save_log ◌>>=◌
  tickets-save_log event_id id gate_id mode result score staff_id s = ground arith

  admitted :
      (cfg : Config) (event_id gate_id staff_id : String) (ticket : Option Ticket)
      → Moves MovesOn (admit_fallback w cfg event_id gate_id staff_id ticket)
  unfolding admit_fallback
  admitted cfg event_id gate_id staff_id (some t) =
      consume-MovesOn gate_id staff_id event_id t.id VerificationMode.fallback
        VerificationResult.fallback none _
  admitted cfg event_id gate_id staff_id none =
      Moves-bind MovesOn-IsPreorder _ _
        (Moves-of_same _ (
          tickets-save_log event_id "unknown" gate_id VerificationMode.fallback
            VerificationResult.failed none staff_id))
        (λ _. Moves-throw MovesOn-IsPreorder _)

  pub fallback_verify-MovesOn :
      (cfg : Config) (government_id event_id gate_id staff_id : String)
      → Moves MovesOn (fallback_verify w cfg government_id event_id gate_id staff_id)
  unfolding fallback_verify
  fallback_verify-MovesOn cfg government_id event_id gate_id staff_id =
      Moves-bind MovesOn-IsPreorder _ _ (Moves-gets MovesOn-IsPreorder _) λ found.
        Moves-bind MovesOn-IsPreorder _ _ (Moves-or_throw MovesOn-IsPreorder found _) λ person.
          Moves-bind MovesOn-IsPreorder _ _ (Moves-gets MovesOn-IsPreorder _)
            (admitted cfg event_id gate_id staff_id)
