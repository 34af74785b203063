-- ===== src/Lifecycle/Tickets.antt =====
-- ticketing/ticketing.service.ts: the operations on the tickets table.
use blocktic_backend.Base.{
  ℕ, String, ◌≡◌, Option, some, map, arith, inl, inr, find_id, find_by, save, Distinct,
  save-Distinct, find_id-find_by, Option-cases, Bool-cases, non_empty, lookup, find_id-new, ap, ◌⊎◌,
}
use blocktic_backend.Exec.{◌>>=◌, Result-cases}
use blocktic_backend.Exec.Keeps.{Moves}
use blocktic_backend.Entities.{Ticket}
use blocktic_backend.State.{World, Config, State, Db, App, FreshIds}
use blocktic_backend.Ecpay.{Params}
use blocktic_backend.Ticketing.{
  new_ticket, preauthorize, capture_payment, mint_ticket, refund_ticket, handle_ecpay_callback,
  has_trade_no, mac_matches,
}
use blocktic_backend.Ticketing.Form.{generate_trade_no}
use blocktic_backend.Ticketing.Capture.{capture_payment-err, capture_payment-ok}
use blocktic_backend.Ticketing.Mint.{mint_ticket-err, mint_ticket-ok}
use blocktic_backend.Ticketing.Refund.{refund_ticket-err, refund_ticket-ok}
use blocktic_backend.Lifecycle.Order.{
  Evolves, MovesOn, save-TicketsEvolve, insert-TicketsEvolve, TicketsEvolve-refl,
}

-- The tickets table is as before, or has a later version of one row.
abbrev WritesOne : State → State → Type 0
WritesOne s s' =
    (s'.tickets ≡ s.tickets)
    ⊎ ((key : String) × (t : Ticket) × (u : Ticket) × (find_id Ticket.id key s.tickets ≡ some t)
        × Evolves t u
        × (s'.tickets ≡ save Ticket.id u s.tickets))

WritesOne-MovesOn : (s s' : State) → WritesOne s s' → MovesOn s s'
WritesOne-MovesOn s s' (inl same) d = rw same (d, TicketsEvolve-refl s.tickets)
WritesOne-MovesOn s s' (inr (key, t, u, found, ev, written)) d =
    rw written
      (save-Distinct Ticket.id u s.tickets d, save-TicketsEvolve s.tickets key t u found ev)

Moves-of_WritesOne :
    {A : Type 0} (m : App A) → ((s : State) → WritesOne s (m s).1) → Moves MovesOn m
Moves-of_WritesOne m h = record { at = λ s. WritesOne-MovesOn s (m s).1 (h s) }

module _ (w : World) (cfg : Config) where
  pub capture_payment-MovesOn :
      (ticket_id : String) → Moves MovesOn (capture_payment w cfg ticket_id)
  capture_payment-MovesOn ticket_id = Moves-of_WritesOne (capture_payment w cfg ticket_id) λ s.
      elim (Result-cases (capture_payment w cfg ticket_id s).0) [
        | inl (e, failed) ↦ inl (ap Db.tickets (capture_payment-err w cfg ticket_id s e failed))
        | inr (u, done) ↦
            let (t, found, before, called, made, written) =
              capture_payment-ok w cfg ticket_id s u done in
            inr (ticket_id, t, u, found, ground arith, ap Db.tickets written)
      ]

  pub mint_ticket-MovesOn : (ticket_id : String) → Moves MovesOn (mint_ticket w cfg ticket_id)
  mint_ticket-MovesOn ticket_id = Moves-of_WritesOne (mint_ticket w cfg ticket_id) λ s.
      elim (Result-cases (mint_ticket w cfg ticket_id s).0) [
        | inl (e, failed) ↦ inl (ap Db.tickets (mint_ticket-err w cfg ticket_id s e failed))
        | inr (u, done) ↦
            let (t, p, wallet, tx, found, before, known, held, sent, called, made, written) =
              mint_ticket-ok w cfg ticket_id s u done in
            inr (ticket_id, t, u, found, ground arith, ap Db.tickets written)
      ]

  pub refund_ticket-MovesOn :
      (ticket_id : String) (requester : Option String)
      → Moves MovesOn (refund_ticket w cfg ticket_id requester)
  refund_ticket-MovesOn ticket_id requester =
      Moves-of_WritesOne (refund_ticket w cfg ticket_id requester) λ s.
        elim (Result-cases (refund_ticket w cfg ticket_id requester s).0) [
          | inl (e, failed) ↦
              inl (ap Db.tickets (refund_ticket-err w cfg ticket_id requester s e failed))
          | inr (u, done) ↦
              let (t, found, own, before, made, written) =
                refund_ticket-ok w cfg ticket_id requester s u done in
              inr (ticket_id, t, u, found, ground arith, written)
        ]

  handle_ecpay_callback-WritesOne :
      (body : Params) (s : State)
      → Distinct Ticket.id s.tickets
      → WritesOne s (handle_ecpay_callback w cfg body s).1
  unfolding handle_ecpay_callback ◌>>=◌
  handle_ecpay_callback-WritesOne body s d = elim (Bool-cases (mac_matches w cfg body)) [
    | inl signed ↦
        elim (Option-cases
          (find_by (has_trade_no w cfg (lookup "MerchantTradeNo" body)) s.tickets)) [
            | inl missing ↦ inl (ground arith)
            | inr (t, found) ↦ elim (Option-cases (non_empty (lookup "TradeNo" body))) [
              | inl absent ↦ inl (ground arith)
              | inr (number, given) ↦ inr (
                t.id,
                t,
                record t { ecpay_trade_no = some number },
                find_id-find_by Ticket.id _ s.tickets t d found,
                ground arith,
                ground arith,
              )
            ]
          ]
    | inr forged ↦ inl (ground arith)
  ]

  pub handle_ecpay_callback-MovesOn :
      (body : Params) → Moves MovesOn (handle_ecpay_callback w cfg body)
  handle_ecpay_callback-MovesOn body = record {
    at = λ s d.
        WritesOne-MovesOn s (handle_ecpay_callback w cfg body s).1
          (handle_ecpay_callback-WritesOne body s d) d;
  }

  -- The database gives a new ticket an id that no ticket has.
  pub preauthorize-MovesOn :
      FreshIds w
      → (event_id user_id : String) (amount : ℕ) (return_url : String)
      → Moves MovesOn (preauthorize w cfg event_id user_id amount return_url)
  unfolding preauthorize ◌>>=◌
  preauthorize-MovesOn fresh event_id user_id amount return_url = record {
    at = λ s d.
        let u = new_ticket w cfg event_id user_id amount (generate_trade_no w s.trace) s in
        (
          save-Distinct Ticket.id u s.tickets d,
          insert-TicketsEvolve s.tickets u (
              find_id-new Ticket.id (w.new_id (map Ticket.id s.tickets)) s.tickets
                (fresh (map Ticket.id s.tickets))),
        );
  }
