-- ===== src/Api/Gate.antt =====
-- gate-verification/gate-verification.controller.ts.
use blocktic_backend.Base.{String, Option}
use blocktic_backend.Exec.{◌>>=◌, ◌>>◌}
use blocktic_backend.State.{World, Config, App}
use blocktic_backend.Gate
use blocktic_backend.Gate.Entry.{VerifyResult}
use blocktic_backend.Api.Http.{Web, jwt_auth, admin_only, parse_uuid, validate_body}
use blocktic_backend.Api.Dto.{
  GenerateQr, accepts_generate_qr, VerifyEntry, accepts_verify_entry, FallbackVerify,
  accepts_fallback_verify,
}

module _ (w : World) (cfg : Config) (web : Web) where
  unfoldable pub generate_qr : (authorization : Option String) → GenerateQr → App Gate.QrResponse
  unfolding jwt_auth validate_body
  generate_qr authorization dto = do
    user ← jwt_auth web authorization
    validate_body (accepts_generate_qr web dto)
    Gate.generate_dynamic_qr w cfg dto.ticket_id

  unfoldable pub verify_entry : (authorization : Option String) → VerifyEntry → App VerifyResult
  unfolding admin_only validate_body
  verify_entry authorization dto = do
    user ← admin_only web authorization
    validate_body (accepts_verify_entry web dto)
    Gate.verify_entry w cfg dto.qr_token dto.gate_id dto.staff_id dto.face_photo

  unfoldable pub fallback_verify :
      (authorization : Option String) → FallbackVerify → App VerifyResult
  unfolding admin_only validate_body
  fallback_verify authorization dto = do
    user ← admin_only web authorization
    validate_body (accepts_fallback_verify dto)
    Gate.fallback_verify w cfg dto.government_id_number dto.event_id dto.gate_id dto.staff_id

  unfoldable pub get_stats :
      (authorization : Option String) → (event_id : String) → App Gate.EntryStats
  unfolding admin_only parse_uuid
  get_stats authorization event_id = do
    user ← admin_only web authorization
    parse_uuid web event_id
    Gate.get_entry_stats event_id
