-- ===== src/Ticketing.antt =====
-- ticketing/ticketing.service.ts: pre-authorisation, capture, minting, refund and the callback of
-- ECPay. The form that the browser posts is built in Ticketing/Form.antt.
pub mod Callback
pub mod Tests
pub mod Form
pub mod Capture
pub mod Mint
pub mod Refund
use blocktic_backend.Base.{
  ℕ, ◌+◌, ◌%◌, String, Bool, true, false, not, ◌&&◌, ◌||◌, Option, none, some, List, [], ◌∷◌, ◌<>◌,
  ◌==◌, string_eq, if◌then◌else◌, find_id, find_by, save, keep, map, leb, lookup, without, truthy,
  non_empty, get_or, decimal,
}
use blocktic_backend.Base.Sorting.{sort}
use blocktic_backend.Exec.{
  Fault, bad_request, not_found, internal, failure, pure, throw, gets, modify, throw_if, or_throw,
  try_catch, ◌>>=◌, ◌>>◌,
}
use blocktic_backend.Entities.{
  Ticket, TicketStatus, preauthorized, paid, minted, refunded, ticket_status_eq, status_text,
}
use blocktic_backend.State.{
  World, Config, State, App, put_tickets, call, DoAction, capture, void, ecpay_do_action, HttpReply,
  rejected, response, is_ok,
}
use blocktic_backend.Ecpay.{Params, generate_check_mac_value}
use blocktic_backend.Blockchain.{mint_ticket_sbt, burn_ticket_sbt}
use blocktic_backend.Seats.{release_seat}
use blocktic_backend.Kyc.{get_kyc_status}
use Form.{generate_trade_no, build_ecpay_form_data}

abbrev pub ticket_token_id_base : ℕ
ticket_token_id_base = 1000

abbrev pub action_text : DoAction → String
action_text DoAction.capture = "C"
action_text DoAction.refund = "R"
action_text DoAction.cancel = "E"
action_text DoAction.void = "N"

abbrev pub save_ticket : Ticket → State → State
save_ticket t s = put_tickets (save Ticket.id t s.tickets) s

unfoldable pub find_one_or_fail : (ticket_id : String) → App Ticket
find_one_or_fail ticket_id = do
  found ← gets (λ s. find_id Ticket.id ticket_id s.tickets)
  or_throw found (not_found ("Ticket " <> ticket_id <> " not found"))

-- The statuses of `refundable`.
abbrev pub is_refundable : TicketStatus → Bool
is_refundable st =
    ticket_status_eq st preauthorized || ticket_status_eq st paid || ticket_status_eq st minted

abbrev pub do_action_result : DoAction → HttpReply (Unit {0}) → App (Unit {0})
do_action_result action rejected = throw (failure "fetch")
do_action_result action (response status body) =
    throw_if (not (is_ok status))
      (internal ("ECPay " <> action_text action <> " operation failed."))

module _ (w : World) (cfg : Config) where
  unfoldable pub derive_token_id : (ticket_id : String) → ℕ
  derive_token_id ticket_id = ticket_token_id_base + w.sha256_u32 ticket_id % 1000000000

  abbrev pub do_action_params : (merchant trade : String) → DoAction → ℕ → Params
  do_action_params merchant trade action amount =
      ("MerchantID", cfg.ecpay_merchant_id)
      ∷ ("MerchantTradeNo", merchant)
      ∷ ("TradeNo", trade)
      ∷ ("Action", action_text action)
      ∷ ("TotalAmount", decimal amount)
      ∷ []

  unfoldable pub ecpay_do_action_call :
      (merchant : String) → Option String → DoAction → (amount : ℕ) → App (Unit {0})
  unfolding call
  ecpay_do_action_call merchant trade action amount = do
    let trade_no = get_or trade merchant
    let mac =
        generate_check_mac_value w (do_action_params merchant trade_no action amount)
          cfg.ecpay_hash_key cfg.ecpay_hash_iv
    reply ← call (ecpay_do_action merchant trade_no action amount mac) w.ecpay
    do_action_result action reply

  abbrev pub new_ticket :
      (event_id user_id : String) → (amount : ℕ) → (trade_no : String) → State → Ticket
  new_ticket event_id user_id amount trade_no s = record {
    id = w.new_id (map Ticket.id s.tickets);
    event_id = event_id;
    user_id = user_id;
    seat_id = none;
    status = preauthorized;
    sbt_token_id = none;
    aa_wallet_address = none;
    tx_hash = none;
    amount = amount;
    preauth_trade_no = some trade_no;
    ecpay_trade_no = none;
    paid_at = none;
    minted_at = none;
    refunded_at = none;
    created_at = w.now s.trace;
  }

  unfoldable pub preauthorize :
      (event_id user_id : String) → (amount : ℕ) → (return_url : String) → App (Ticket × Params)
  preauthorize event_id user_id amount return_url = do
    trade_no ← gets (λ s. generate_trade_no w s.trace)
    ticket ← gets (new_ticket event_id user_id amount trade_no)
    modify (save_ticket ticket)
    form ← gets (λ s. build_ecpay_form_data w cfg (w.now s.trace) trade_no amount return_url)
    pure (ticket, form)

  unfoldable pub capture_payment : (ticket_id : String) → App Ticket
  unfolding find_one_or_fail ecpay_do_action_call
  capture_payment ticket_id = do
    ticket ← find_one_or_fail ticket_id
    throw_if (not (ticket_status_eq ticket.status preauthorized)) (
        bad_request (
          "Ticket "
          <> ticket_id
          <> " is not in preauthorized state (current: "
          <> status_text ticket.status
          <> ")"))
    ecpay_do_action_call (get_or ticket.preauth_trade_no "null") ticket.ecpay_trade_no capture
        ticket.amount
    now ← gets (λ s. w.now s.trace)
    let ticket' = record ticket { status = paid; paid_at = some now }
    modify (save_ticket ticket')
    pure ticket'

  -- What mintTicket does after the transaction is mined.
  unfoldable pub finish_mint : Ticket → (wallet : String) → (token : ℕ) → (tx : String) → App Ticket
  finish_mint ticket wallet token tx = do
    now ← gets (λ s. w.now s.trace)
    let ticket' = record ticket {
      status = minted;
      sbt_token_id = some token;
      aa_wallet_address = some wallet;
      tx_hash = some tx;
      minted_at = some now;
    }
    modify (save_ticket ticket')
    pure ticket'

  unfoldable pub mint_ticket : (ticket_id : String) → App Ticket
  unfolding find_one_or_fail get_kyc_status finish_mint
  mint_ticket ticket_id = do
    ticket ← find_one_or_fail ticket_id
    throw_if (not (ticket_status_eq ticket.status paid)) (
        bad_request (
          "Ticket "
          <> ticket_id
          <> " must be paid before minting (current: "
          <> status_text ticket.status
          <> ")"))
    kyc ← get_kyc_status ticket.user_id
    wallet ← or_throw (non_empty kyc.aa_wallet_address) (
        bad_request (
          "User " <> ticket.user_id <> " does not have an AA wallet. KYC must be completed first."))
    let token = derive_token_id ticket.id
    tx ← mint_ticket_sbt w cfg wallet token
    finish_mint ticket wallet token tx

  -- `if (ticket.preauthTradeNo) …`
  unfoldable pub void_payment : Ticket → App (Unit {0})
  unfolding ecpay_do_action_call
  void_payment ticket = elim (non_empty ticket.preauth_trade_no) [
    | none ↦ pure tt
    | some trade ↦ ecpay_do_action_call trade ticket.ecpay_trade_no void ticket.amount
  ]

  -- `if (ticket.seatId) …`
  unfoldable pub return_seat : Ticket → App (Unit {0})
  unfolding release_seat
  return_seat ticket = elim (non_empty ticket.seat_id) [
    | none ↦ pure tt
    | some seat ↦ release_seat seat
  ]

  -- `if (ticket.sbtTokenId && ticket.aaWalletAddress) try …`
  unfoldable pub burn_token : Ticket → App (Unit {0})
  unfolding burn_ticket_sbt
  burn_token ticket = elim (non_empty ticket.aa_wallet_address) [
    | none ↦ pure tt
    | some wallet ↦ elim ticket.sbt_token_id [
      | none ↦ pure tt
      | some token ↦ try_catch (burn_ticket_sbt w cfg wallet token >>= λ _. pure tt) (λ _. pure tt)
    ]
  ]

  -- `requestUserId && ticket.userId !== requestUserId`
  abbrev pub is_stranger : Option String → Ticket → Bool
  is_stranger none ticket = false
  is_stranger (some user) ticket = not (user == "") && not (ticket.user_id == user)

  unfoldable pub refund_ticket :
      (ticket_id : String) → (request_user_id : Option String) → App Ticket
  unfolding find_one_or_fail
  refund_ticket ticket_id request_user_id = do
    ticket ← find_one_or_fail ticket_id
    throw_if (is_stranger request_user_id ticket)
        (bad_request "You can only refund your own tickets")
    throw_if (not (is_refundable ticket.status)) (
        bad_request (
          "Ticket "
          <> ticket_id
          <> " cannot be refunded (current: "
          <> status_text ticket.status
          <> ")"))
    void_payment ticket
    return_seat ticket
    burn_token ticket
    now ← gets (λ s. w.now s.trace)
    let ticket' = record ticket { status = refunded; refunded_at = some now }
    modify (save_ticket ticket')
    pure ticket'

  abbrev pub expected_mac : Params → String
  expected_mac body =
      generate_check_mac_value w (without "CheckMacValue" body) cfg.ecpay_hash_key cfg.ecpay_hash_iv

  -- `receivedMac !== expectedMac`; a body without the field gives `undefined`.
  abbrev pub mac_matches : Params → Bool
  mac_matches body = elim (lookup "CheckMacValue" body) [
    | none ↦ false
    | some mac ↦ mac == expected_mac body
  ]

  abbrev pub has_trade_no : Option String → Ticket → Bool
  has_trade_no trade t = elim trade [
    -- `where: { preauthTradeNo: undefined }` restricts nothing
    | none ↦ true
    | some number ↦ elim t.preauth_trade_no [ none ↦ false | some mine ↦ mine == number ]
  ]

  -- `if (ecpayTradeNo) …`
  abbrev pub store_trade_no : Option String → Ticket → State → State
  store_trade_no trade t s = elim (non_empty trade) [
    | none ↦ s
    | some number ↦ save_ticket (record t { ecpay_trade_no = some number }) s
  ]

  unfoldable pub handle_ecpay_callback : (body : Params) → App String
  handle_ecpay_callback body s =
      if not (mac_matches body)
      then pure "0|CheckMacValue Error" s
      else elim (find_by (has_trade_no (lookup "MerchantTradeNo" body)) s.tickets) [
        | none ↦ pure "0|Order Not Found" s
        | some t ↦ (do modify (store_trade_no (lookup "TradeNo" body) t); pure "1|OK") s
      ]

abbrev pub newest_first : Ticket → Ticket → Bool
newest_first a b = leb b.created_at a.created_at

unfoldable pub find_by_user : (user_id : String) → App (List Ticket)
unfolding sort
find_by_user user_id =
    gets (λ s. sort newest_first (keep (λ (t : Ticket). t.user_id == user_id) s.tickets))
