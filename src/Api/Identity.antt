-- ===== src/Api/Identity.antt =====
-- identity/identity.controller.ts.
use blocktic_backend.Base.{String, Bool, Option, some}
use blocktic_backend.Exec.{◌>>=◌, ◌>>◌}
use blocktic_backend.State.{World, Config, App}
use blocktic_backend.Identity
use blocktic_backend.Kyc
use blocktic_backend.Api.Http.{Web, current_sub, jwt_auth, admin_only, parse_uuid, validate_body}
use blocktic_backend.Api.Dto.{accepts_submit_kyc}

module _ (w : World) (cfg : Config) (web : Web) where
  unfoldable pub submit_kyc :
      (authorization : Option String) → Identity.SubmitKyc → App Identity.KycSubmitResponse
  unfolding jwt_auth validate_body
  submit_kyc authorization dto = do
    user ← jwt_auth web authorization
    validate_body (accepts_submit_kyc dto)
    Identity.submit_kyc w cfg dto (current_sub (some user))

  unfoldable pub get_kyc_status :
      (authorization : Option String) → (user_id : String) → App Kyc.KycStatusResponse
  unfolding jwt_auth parse_uuid
  get_kyc_status authorization user_id = do
    user ← jwt_auth web authorization
    parse_uuid web user_id
    Kyc.get_kyc_status user_id

  unfoldable pub delete_user_data : (authorization : Option String) → (user_id : String) → App Bool
  unfolding admin_only parse_uuid
  delete_user_data authorization user_id = do
    user ← admin_only web authorization
    parse_uuid web user_id
    Identity.delete_user_data w cfg user_id
