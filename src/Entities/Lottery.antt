-- ===== src/Entities/Lottery.antt =====
-- lottery/entities/lottery-entry.entity.ts and draw-result.entity.ts.
use blocktic_backend.Base.{ℕ, String, Bool, true, false, Option}

pub data LotteryEntryStatus : Type 0 where
  pending won lost : LotteryEntryStatus

pub record LotteryEntry : Type 0 where
  pub id : String
  pub event_id : String
  pub user_id : String
  pub zone_id : String
  pub group_size : ℕ
  pub status : LotteryEntryStatus
  pub draw_proof_tx_hash : Option String

abbrev pub is_won : LotteryEntryStatus → Bool
is_won won = true
is_won _ = false

pub record DrawResult : Type 0 where
  pub id : String
  pub event_id : String
  pub vrf_request_id : Option String
  pub random_seed : Option String
  pub draw_proof_tx_hash : Option String
  pub drawn_at : ℕ
