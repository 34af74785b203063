-- ===== src/Ticketing/Capture.antt =====
-- ticketing/ticketing.service.ts, capturePayment: what a capture does on each branch.
use blocktic_backend.Base.{String, ◌≡◌, some, ◌∷◌, arith, find_id, Option-cases, inl, inr, get_or}
use blocktic_backend.Exec.{Fault, ok, err, ◌>>=◌}
use blocktic_backend.Entities.{Ticket, preauthorized, paid}
use blocktic_backend.State.{World, Config, Call, State, capture, ecpay_do_action}
use blocktic_backend.Ecpay.{generate_check_mac_value}
use blocktic_backend.Ticketing.{save_ticket, do_action_params, capture_payment}

module _ (w : World) (cfg : Config) where
  -- The call that a capture of `t` makes.
  abbrev pub capture_call : Ticket → Call
  capture_call t =
      let merchant = get_or t.preauth_trade_no "null" in
      let trade = get_or t.ecpay_trade_no merchant in
      ecpay_do_action merchant trade capture t.amount (
        generate_check_mac_value w (do_action_params w cfg merchant trade capture t.amount)
          cfg.ecpay_hash_key cfg.ecpay_hash_iv)

  pub capture_payment-err :
      (ticket_id : String) (s : State) (e : Fault)
      → (capture_payment w cfg ticket_id s).0 ≡ err e
      → (capture_payment w cfg ticket_id s).1.db ≡ s.db
  unfolding capture_payment ◌>>=◌
  capture_payment-err ticket_id s e h = ground arith

  -- A capture that returns has found a pre-authorised ticket, has made one call, to ECPay for the
  -- ticket's amount, and writes that ticket alone: its status and paidAt.
  pub capture_payment-ok :
      (ticket_id : String) (s : State) (u : Ticket)
      → (capture_payment w cfg ticket_id s).0 ≡ ok u
      → (t : Ticket) × (find_id Ticket.id ticket_id s.tickets ≡ some t)
        × (t.status ≡ preauthorized)
        × ((capture_payment w cfg ticket_id s).1.trace ≡ capture_call t ∷ s.trace)
        × (u ≡ record t {
          status = paid;
          paid_at = some (w.now (capture_payment w cfg ticket_id s).1.trace);
        })
        × ((capture_payment w cfg ticket_id s).1.db ≡ (save_ticket u s).db)
  unfolding capture_payment ◌>>=◌
  capture_payment-ok ticket_id s u h = elim (Option-cases (find_id Ticket.id ticket_id s.tickets)) [
    | inl e ↦ ground arith
    | inr (t, e) ↦ (t, e, ground arith, ground arith, ground arith, ground arith)
  ]
