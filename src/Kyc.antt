-- ===== src/Kyc.antt =====
-- identity/identity.service.ts, the part that the ticketing and lottery services call: the KYC
-- status of a person. The submission is modelled in Identity.antt.
use blocktic_backend.Base.{ℕ, String, Option, ◌<>◌, find_id}
use blocktic_backend.Exec.{not_found, pure, gets, or_throw, ◌>>=◌}
use blocktic_backend.Entities.{KycStatus, Person}
use blocktic_backend.State.{App}

-- dto/kyc-status.dto.ts
pub record KycStatusResponse : Type 0 where
  pub user_id : String
  pub kyc_status : KycStatus
  pub aa_wallet_address : Option String
  pub kyc_attestation_tx_hash : Option String
  pub consent_recorded_at : Option ℕ

abbrev pub kyc_response : Person → KycStatusResponse
kyc_response p = record {
  user_id = p.id;
  kyc_status = p.kyc_status;
  aa_wallet_address = p.aa_wallet_address;
  kyc_attestation_tx_hash = p.kyc_attestation_tx_hash;
  consent_recorded_at = p.consent_recorded_at;
}

unfoldable pub get_kyc_status : (user_id : String) → App KycStatusResponse
get_kyc_status user_id = do
  found ← gets (λ s. find_id Person.id user_id s.persons)
  person ← or_throw found (not_found ("Person with id " <> user_id <> " not found."))
  pure (kyc_response person)
