-- ===== src/Ticketing/Tests.antt =====
-- The payments of ticketing at concrete inputs.
use blocktic_backend.Base.{
  String, ◌≡◌, ◌≢◌, refl, sym, ap, ◌∙◌, some≢none, none, some, [], ◌∷◌, true, false, find_id,
  find_by, save, lookup, non_empty, Option,
}
use blocktic_backend.Exec.{not_found, err, internal, ok, ◌>>=◌}
use blocktic_backend.Entities.{Ticket, Person, paid, minted, preauthorized, refunded}
use blocktic_backend.State.{World, no_receipt, State, sbt_mint, mined}
use blocktic_backend.Ecpay.{Params, generate_check_mac_value}
use blocktic_backend.Blockchain.{send_contract_tx, mint_ticket_sbt}
use blocktic_backend.Ticketing.{
  derive_token_id, capture_payment, mint_ticket, refund_ticket, save_ticket, is_stranger,
  is_refundable, handle_ecpay_callback, store_trade_no, has_trade_no, mac_matches, void_payment,
  return_seat, burn_token,
}
use blocktic_backend.Ticketing.Capture.{capture_call, capture_payment-ok}
use blocktic_backend.Ticketing.Mint.{mint_ticket-ok}
use blocktic_backend.Ticketing.Refund.{refund_ticket-err, refund_ticket-ok}
use blocktic_backend.Ticketing.Callback.{
  signed, handle_ecpay_callback-signed, handle_ecpay_callback_effect,
}
use blocktic_backend.Samples.{
  world, config, two_tickets, paid_ticket, held_ticket, state_of, empty_db,
}
use blocktic_backend.Seats.{release_seat}

runs : Unit {0}
unfolding capture_payment mint_ticket mint_ticket_sbt derive_token_id refund_ticket void_payment
    return_seat burn_token handle_ecpay_callback generate_check_mac_value ◌>>=◌
runs = tt

abbrev captured : Ticket
captured = record held_ticket { status = paid; paid_at = some 1000000 }

capture_held : (capture_payment world config "t2" two_tickets).0 ≡ ok captured
unfolding runs
capture_held = refl

capture_payment-ok_example :
    (t : Ticket) × (find_id Ticket.id "t2" two_tickets.tickets ≡ some t)
    × (t.status ≡ preauthorized)
    × ((capture_payment world config "t2" two_tickets).1.trace ≡ capture_call world config t ∷ [])
    × (captured ≡ record t {
      status = paid;
      paid_at = some (world.now (capture_payment world config "t2" two_tickets).1.trace);
    })
    × ((capture_payment world config "t2" two_tickets).1.db ≡ (save_ticket captured two_tickets).db)
capture_payment-ok_example = capture_payment-ok world config "t2" two_tickets captured capture_held

abbrev minted_ticket : Ticket
minted_ticket = record paid_ticket {
  status = minted;
  sbt_token_id = some 1007;
  aa_wallet_address = some "0xwallet";
  tx_hash = some "0xabc";
  minted_at = some 1000000;
}

mint_paid : (mint_ticket world config "t1" two_tickets).0 ≡ ok minted_ticket
unfolding runs
mint_paid = refl

mint_ticket-ok_example :
    (t : Ticket) × (p : Person) × (wallet : String) × (tx : String) × (find_id Ticket.id "t1"
        two_tickets.tickets
      ≡ some t)
    × (t.status ≡ paid)
    × (find_id Person.id t.user_id two_tickets.persons ≡ some p)
    × (non_empty p.aa_wallet_address ≡ some wallet)
    × (world.transact [] (sbt_mint wallet (derive_token_id world config t.id)) ≡ mined tx)
    × ((mint_ticket world config "t1" two_tickets).1.trace
        ≡ sbt_mint wallet (derive_token_id world config t.id) ∷ [])
    × (minted_ticket ≡ record t {
      status = minted;
      sbt_token_id = some (derive_token_id world config t.id);
      aa_wallet_address = some wallet;
      tx_hash = some tx;
      minted_at = some (world.now (mint_ticket world config "t1" two_tickets).1.trace);
    })
    × ((mint_ticket world config "t1" two_tickets).1.db
        ≡ (save_ticket minted_ticket two_tickets).db)
mint_ticket-ok_example = mint_ticket-ok world config "t1" two_tickets minted_ticket mint_paid

abbrev refunded_ticket : Ticket
refunded_ticket = record paid_ticket { status = refunded; refunded_at = some 1000000 }

refund_paid : (refund_ticket world config "t1" (some "u1") two_tickets).0 ≡ ok refunded_ticket
unfolding runs
refund_paid = refl

refund_ticket-ok_example :
    (t : Ticket) × (find_id Ticket.id "t1" two_tickets.tickets ≡ some t)
    × (is_stranger world config (some "u1") t ≡ false)
    × (is_refundable t.status ≡ true)
    × (refunded_ticket ≡ record t {
      status = refunded;
      refunded_at =
          some (world.now (refund_ticket world config "t1" (some "u1") two_tickets).1.trace);
    })
    × ((refund_ticket world config "t1" (some "u1") two_tickets).1.tickets
        ≡ save Ticket.id refunded_ticket two_tickets.tickets)
refund_ticket-ok_example =
    refund_ticket-ok world config "t1" (some "u1") two_tickets refunded_ticket refund_paid

abbrev first_fields : Params
first_fields = ("MerchantTradeNo", "BT1") ∷ []

abbrev last_fields : Params
last_fields = ("TradeNo", "E77") ∷ []

handle_ecpay_callback-signed_example :
    handle_ecpay_callback world config (signed world config first_fields last_fields) two_tickets
    ≡ (
      ok "1|OK",
      store_trade_no world config
          (lookup "TradeNo" (signed world config first_fields last_fields))
          paid_ticket
          two_tickets,
    )
handle_ecpay_callback-signed_example =
    handle_ecpay_callback-signed world config first_fields last_fields paid_ticket two_tickets refl
      refl refl

abbrev callback_body : Params
callback_body = signed world config first_fields last_fields

-- The TradeNo of the first ticket.
abbrev trade_no_of : State → Option String
trade_no_of s = elim (find_id Ticket.id "t1" s.tickets) [ none ↦ none | some t ↦ t.ecpay_trade_no ]

trade_no_stored :
    trade_no_of (handle_ecpay_callback world config callback_body two_tickets).1 ≡ some "E77"
unfolding runs
trade_no_stored = refl

state_changed : (handle_ecpay_callback world config callback_body two_tickets).1 ≢ two_tickets
state_changed e = some≢none (sym trade_no_stored ∙ ap trade_no_of e)

handle_ecpay_callback_effect_example :
    (t : Ticket) × (trade : String) × (mac_matches world config callback_body ≡ true)
    × (find_by
          (has_trade_no world config (lookup "MerchantTradeNo" callback_body))
          two_tickets.tickets
        ≡ some t)
    × (lookup "TradeNo" callback_body ≡ some trade)
    × ((handle_ecpay_callback world config callback_body two_tickets).1
        ≡ save_ticket (record t { ecpay_trade_no = some trade }) two_tickets)
handle_ecpay_callback_effect_example =
    handle_ecpay_callback_effect world config callback_body two_tickets state_changed

-- A ticket whose seat is not in the table: ECPay has voided the payment when the release throws.
abbrev seatless : State
seatless = state_of (record empty_db { tickets = record paid_ticket { seat_id = some "s9" } ∷ [] })

refund_refused :
    (refund_ticket world config "t1" (some "u1") seatless).0 ≡ err (not_found "Seat s9 not found")
unfolding runs release_seat
refund_refused = refl

payment_voided : (refund_ticket world config "t1" (some "u1") seatless).1.trace ≢ seatless.trace
unfolding runs release_seat
payment_voided e = cc

refund_ticket-err_example :
    (refund_ticket world config "t1" (some "u1") seatless).1.db ≡ seatless.db
refund_ticket-err_example =
    refund_ticket-err world config "t1" (some "u1") seatless (not_found "Seat s9 not found")
      refund_refused

-- The node is down.
abbrev broken_world : World
broken_world = record world { transact = λ t c. no_receipt }

mint_refused :
    (mint_ticket broken_world config "t1" two_tickets).0 ≡ err (internal "區塊鏈交易失敗：鑄造票券 SBT")
unfolding runs send_contract_tx
mint_refused = refl
