-- ===== src/Frames/Sales.antt =====
-- ticketing/ticketing.service.ts and gate-verification/gate-verification.service.ts: the tables
-- that their operations do not write.
use blocktic_backend.Base.{
  ℕ, String, Option, ◌≡◌, refl, Option-cases, Bool-cases, inl, inr, non_empty, find_by, lookup,
}
use blocktic_backend.Exec.{◌>>=◌}
use blocktic_backend.Exec.Keeps.{Moves}
use blocktic_backend.Entities.{Ticket}
use blocktic_backend.State.{
  World, Config, Db, State, put_tickets, put_seats, DoAction, HttpReply, rejected, response,
}
use blocktic_backend.State.Frame.{Same, Ignores, frame_rules}
use blocktic_backend.Ecpay.{Params}
use blocktic_backend.Ticketing
use blocktic_backend.Frames.Chain.{mint_ticket_sbt-Same, burn_ticket_sbt-Same}
use blocktic_backend.Frames.Records.{release_seat-Same}
use blocktic_backend.Frames.Reads.{get_kyc_status-Same, find_one_or_fail-Same}

module _ {X : Type 0} (v : Db → X) where
  result-Same :
      (a : DoAction) (r : HttpReply (Unit {0})) → Moves (Same v) (Ticketing.do_action_result a r)
  result-Same a rejected = search frame_rules
  result-Same a (response status body) = search frame_rules

  module _ (w : World) (cfg : Config) where
    do_action-Same :
        (merchant : String) (trade : Option String) (a : DoAction) (amount : ℕ)
        → Moves (Same v) (Ticketing.ecpay_do_action_call w cfg merchant trade a amount)
    unfolding Ticketing.ecpay_do_action_call
    do_action-Same merchant trade a amount = search (frame_rules, result-Same) depth 16

    void_payment-Same : (t : Ticket) → Moves (Same v) (Ticketing.void_payment w cfg t)
    unfolding Ticketing.void_payment
    void_payment-Same t = elim (Option-cases (non_empty t.preauth_trade_no)) [
      | inl missing ↦ rw (Ticketing.void_payment, missing) (search frame_rules)
      | inr (n, given) ↦ rw (Ticketing.void_payment, given) (search (frame_rules, do_action-Same))
    ]

    burn_token-Same : (t : Ticket) → Moves (Same v) (Ticketing.burn_token w cfg t)
    unfolding Ticketing.burn_token
    burn_token-Same t = elim (Option-cases (non_empty t.aa_wallet_address)) [
      | inl missing ↦ rw (Ticketing.burn_token, missing) (search frame_rules)
      | inr (wallet, given) ↦ elim (Option-cases t.sbt_token_id) [
        | inl missing ↦ rw (Ticketing.burn_token, given, missing) (search frame_rules)
        | inr (n, token) ↦
            rw (Ticketing.burn_token, given, token)
              (search (frame_rules, burn_ticket_sbt-Same) depth 16)
      ]
    ]

    module _ (seats : Ignores v put_seats) where
      return_seat-Same : (t : Ticket) → Moves (Same v) (Ticketing.return_seat w cfg t)
      unfolding Ticketing.return_seat
      return_seat-Same t = elim (Option-cases (non_empty t.seat_id)) [
        | inl missing ↦ rw (Ticketing.return_seat, missing) (search frame_rules)
        | inr (n, given) ↦
            rw (Ticketing.return_seat, given) (search (frame_rules, release_seat-Same, seats))
      ]

      pub refund_ticket-Same :
          Ignores v put_tickets
          → (id : String) (user : Option String)
          → Moves (Same v) (Ticketing.refund_ticket w cfg id user)
      unfolding Ticketing.refund_ticket
      refund_ticket-Same tickets id user =
          search
            (
              frame_rules, find_one_or_fail-Same, void_payment-Same, return_seat-Same,
              burn_token-Same, tickets,
            )
            depth 40

    module _ (tickets : Ignores v put_tickets) where
      pub preauthorize-Same :
          (event user : String) (amount : ℕ) (url : String)
          → Moves (Same v) (Ticketing.preauthorize w cfg event user amount url)
      unfolding Ticketing.preauthorize
      preauthorize-Same event user amount url = search (frame_rules, tickets) depth 24

      pub capture_payment-Same : (id : String) → Moves (Same v) (Ticketing.capture_payment w cfg id)
      unfolding Ticketing.capture_payment
      capture_payment-Same id =
          search (frame_rules, find_one_or_fail-Same, do_action-Same, tickets) depth 24

      finish_mint-Same :
          (t : Ticket) (wallet : String) (token : ℕ) (tx : String)
          → Moves (Same v) (Ticketing.finish_mint w cfg t wallet token tx)
      unfolding Ticketing.finish_mint
      finish_mint-Same t wallet token tx = search (frame_rules, tickets) depth 24

      pub mint_ticket-Same : (id : String) → Moves (Same v) (Ticketing.mint_ticket w cfg id)
      unfolding Ticketing.mint_ticket
      mint_ticket-Same id =
          search
            (
              frame_rules, find_one_or_fail-Same, get_kyc_status-Same, mint_ticket_sbt-Same,
              finish_mint-Same,
            )
            depth 40

      store_trade_no-Same :
          (trade : Option String) (t : Ticket) (s : State)
          → v (Ticketing.store_trade_no w cfg trade t s).db ≡ v s.db
      store_trade_no-Same trade t s = elim (Option-cases (non_empty trade)) [
        | inl missing ↦ rw (Ticketing.store_trade_no, missing) refl
        | inr (n, given) ↦ rw (Ticketing.store_trade_no, given) (tickets _ s)
      ]

      pub handle_ecpay_callback-Same :
          (body : Params) → Moves (Same v) (Ticketing.handle_ecpay_callback w cfg body)
      unfolding Ticketing.handle_ecpay_callback ◌>>=◌
      handle_ecpay_callback-Same body = record {
        at = λ s. record {
          same = elim (Bool-cases (Ticketing.mac_matches w cfg body)) [
            | inl good ↦
                elim (Option-cases (
                  find_by (Ticketing.has_trade_no w cfg (lookup "MerchantTradeNo" body))
                    s.tickets)) [
                      | inl missing ↦ rw (Ticketing.handle_ecpay_callback, good, missing) refl
                      | inr (t, found) ↦
                          rw (Ticketing.handle_ecpay_callback, good, found)
                            (store_trade_no-Same (lookup "TradeNo" body) t s)
                    ]
            | inr bad ↦ rw (Ticketing.handle_ecpay_callback, bad) refl
          ];
        };
      }
