-- ===== src/Entities/Tickets.antt =====
-- ticketing/entities/ticket.entity.ts. The column sbtTokenId holds a number as decimal text, which
-- every reader parses: it is the number here.
use blocktic_backend.Base.{ℕ, String, Bool, true, false, Option}

pub data TicketStatus : Type 0 where
  preauthorized paid minted refunded used : TicketStatus

abbrev pub ticket_status_eq : TicketStatus → TicketStatus → Bool
ticket_status_eq preauthorized preauthorized = true
ticket_status_eq paid paid = true
ticket_status_eq minted minted = true
ticket_status_eq refunded refunded = true
ticket_status_eq used used = true
ticket_status_eq _ _ = false

-- `${ticket.status}`
abbrev pub status_text : TicketStatus → String
status_text preauthorized = "preauthorized"
status_text paid = "paid"
status_text minted = "minted"
status_text refunded = "refunded"
status_text used = "used"

pub record Ticket : Type 0 where
  pub id : String
  pub event_id : String
  pub user_id : String
  pub seat_id : Option String
  pub status : TicketStatus
  pub sbt_token_id : Option ℕ
  pub aa_wallet_address : Option String
  pub tx_hash : Option String
  pub amount : ℕ
  pub preauth_trade_no : Option String
  pub ecpay_trade_no : Option String
  pub paid_at : Option ℕ
  pub minted_at : Option ℕ
  pub refunded_at : Option ℕ
  pub created_at : ℕ
