-- ===== src/Ticketing/Refund.antt =====
-- ticketing/ticketing.service.ts, refundTicket: what a refund does on each branch.
use blocktic_backend.Base.{
  String, ◌≡◌, true, false, Option, some, arith, find_id, save, Option-cases, inl, inr,
}
use blocktic_backend.Exec.{Fault, ok, err, ◌>>=◌}
use blocktic_backend.Entities.{Ticket, refunded}
use blocktic_backend.State.{World, Config, State}
use blocktic_backend.Ticketing.{
  is_refundable, is_stranger, void_payment, return_seat, burn_token, refund_ticket,
}

module _ (w : World) (cfg : Config) (t : Ticket) (s : State) where
  db-void_payment : (void_payment w cfg t s).1.db ≡ s.db
  unfolding void_payment ◌>>=◌
  db-void_payment = ground arith

  burn_token-ok : (burn_token w cfg t s).0 ≡ ok tt
  unfolding burn_token ◌>>=◌
  burn_token-ok = ground arith

  db-burn_token : (burn_token w cfg t s).1.db ≡ s.db
  unfolding burn_token ◌>>=◌
  db-burn_token = ground arith

  tickets-return_seat : (return_seat w cfg t s).1.tickets ≡ s.tickets
  unfolding return_seat ◌>>=◌
  tickets-return_seat = ground arith

  db-return_seat_err :
      (e : Fault) → (return_seat w cfg t s).0 ≡ err e → (return_seat w cfg t s).1.db ≡ s.db
  unfolding return_seat ◌>>=◌
  db-return_seat_err e h = ground arith

module _ (w : World) (cfg : Config) where
  -- A refund that throws, because of the ticket, the requester, ECPay or the seat, leaves the database
  -- as it was: the ticket keeps its status, and the seat is not given back. The last save, after the
  -- seat has been given back, does not throw in the model.
  pub refund_ticket-err :
      (ticket_id : String) (requester : Option String) (s : State) (e : Fault)
      → (refund_ticket w cfg ticket_id requester s).0 ≡ err e
      → (refund_ticket w cfg ticket_id requester s).1.db ≡ s.db
  unfolding refund_ticket ◌>>=◌
  refund_ticket-err ticket_id requester s e h =
      elim (Option-cases (find_id Ticket.id ticket_id s.tickets)) [
        | inl missing ↦ ground arith
        | inr (t, found) ↦
            let voided = (void_payment w cfg t s).1 in
            let returned = (return_seat w cfg t voided).1 in
            ground (
              arith,
              db-void_payment w cfg t s,
              db-return_seat_err w cfg t voided e,
              burn_token-ok w cfg t returned,
            )
      ]

  -- A refund that returns has found a refundable ticket, of the requester if one is given, and
  -- changes of the tickets only that one: its status and refundedAt.
  pub refund_ticket-ok :
      (ticket_id : String) (requester : Option String) (s : State) (u : Ticket)
      → (refund_ticket w cfg ticket_id requester s).0 ≡ ok u
      → (t : Ticket) × (find_id Ticket.id ticket_id s.tickets ≡ some t)
        × (is_stranger w cfg requester t ≡ false)
        × (is_refundable t.status ≡ true)
        × (u ≡ record t {
          status = refunded;
          refunded_at = some (w.now (refund_ticket w cfg ticket_id requester s).1.trace);
        })
        × ((refund_ticket w cfg ticket_id requester s).1.tickets ≡ save Ticket.id u s.tickets)
  unfolding refund_ticket ◌>>=◌
  refund_ticket-ok ticket_id requester s u h =
      elim (Option-cases (find_id Ticket.id ticket_id s.tickets)) [
        | inl missing ↦ ground arith
        | inr (t, found) ↦
            let voided = (void_payment w cfg t s).1 in
            let returned = (return_seat w cfg t voided).1 in
            (
              t,
              found,
              ground arith,
              ground arith,
              ground arith,
              ground (
                arith,
                db-void_payment w cfg t s,
                tickets-return_seat w cfg t voided,
                db-burn_token w cfg t returned,
              ),
            )
      ]
