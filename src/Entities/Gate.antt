-- ===== src/Entities/Gate.antt =====
-- gate-verification/entities/gate-log.entity.ts.
use blocktic_backend.Base.{ℕ, String, Bool, true, false, Option}

pub data VerificationMode : Type 0 where
  strong normal offline fallback : VerificationMode

abbrev pub mode_eq : VerificationMode → VerificationMode → Bool
mode_eq strong strong = true
mode_eq normal normal = true
mode_eq offline offline = true
mode_eq fallback fallback = true
mode_eq _ _ = false

pub data VerificationResult : Type 0 where
  success failed fallback : VerificationResult

abbrev pub result_eq : VerificationResult → VerificationResult → Bool
result_eq success success = true
result_eq failed failed = true
result_eq fallback fallback = true
result_eq _ _ = false

pub record GateLog : Type 0 where
  pub id : String
  pub event_id : String
  pub ticket_id : String
  pub gate_id : String
  pub verification_mode : VerificationMode
  pub result : VerificationResult
  pub face_score : Option ℕ
  pub staff_id : String
  pub verified_at : ℕ
