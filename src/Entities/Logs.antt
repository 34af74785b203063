-- ===== src/Entities/Logs.antt =====
-- audit/entities/audit-log.entity.ts and notifications/entities/notification.entity.ts. The free
-- JSON columns are texts.
use blocktic_backend.Base.{ℕ, String, Bool, true, false, Option}

pub data AuditAction : Type 0 where
  kyc_verified lottery_drawn ticket_minted ticket_refunded gate_verified data_cleanup : AuditAction

abbrev pub action_eq : AuditAction → AuditAction → Bool
action_eq kyc_verified kyc_verified = true
action_eq lottery_drawn lottery_drawn = true
action_eq ticket_minted ticket_minted = true
action_eq ticket_refunded ticket_refunded = true
action_eq gate_verified gate_verified = true
action_eq data_cleanup data_cleanup = true
action_eq _ _ = false

pub record AuditLog : Type 0 where
  pub id : String
  pub event_id : String
  pub user_id : Option String
  pub action : AuditAction
  pub details : Option String
  pub ip_address : Option String
  pub created_at : ℕ

pub data NotificationType : Type 0 where
  lottery_result ticket_issued ticket_refunded kyc_status system : NotificationType

pub record Notification : Type 0 where
  pub id : String
  pub user_id : String
  pub title : String
  pub body : String
  pub type : NotificationType
  pub is_read : Bool
  pub metadata : Option String
  pub created_at : ℕ
