-- ===== src/Entities/Auth.antt =====
-- auth/entities/user.entity.ts, common/decorators/roles.decorator.ts and
-- identity/entities/person.entity.ts.
use blocktic_backend.Base.{ℕ, String, Bool, true, false, Option}

pub data Role : Type 0 where
  user admin : Role

abbrev pub role_eq : Role → Role → Bool
role_eq user user = true
role_eq admin admin = true
role_eq _ _ = false

pub record User : Type 0 where
  pub id : String
  pub phone : String
  pub name : Option String
  pub nickname : Option String
  pub role : Role
  pub person_id : Option String

pub data KycStatus : Type 0 where
  pending id_verified liveness_passed face_matched approved rejected : KycStatus

pub record Person : Type 0 where
  pub id : String
  pub person_id_hash : Option String
  pub kyc_status : KycStatus
  pub face_embedding_ref : Option String
  pub aa_wallet_address : Option String
  pub kyc_attestation_tx_hash : Option String
  pub consent_recorded_at : Option ℕ
