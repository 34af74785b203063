-- ===== src/Api/Auth.antt =====
-- auth/auth.controller.ts.
use blocktic_backend.Base.{String, Option}
use blocktic_backend.Exec.{◌>>=◌, ◌>>◌}
use blocktic_backend.Entities.{User}
use blocktic_backend.State.{World, App}
use blocktic_backend.Auth
use blocktic_backend.Api.Http.{Web, jwt_auth, validate_body}
use blocktic_backend.Api.Dto.{
  SendOtp, accepts_send_otp, VerifyOtp, accepts_verify_otp, Register, accepts_register,
}

module _ (w : World) where
  unfoldable pub send_otp : SendOtp → App String
  unfolding validate_body
  send_otp dto = do validate_body (accepts_send_otp dto); Auth.send_otp w dto.phone

  unfoldable pub verify_otp : VerifyOtp → App Auth.VerifyOtpResponse
  unfolding validate_body
  verify_otp dto = do validate_body (accepts_verify_otp dto); Auth.verify_otp w dto.phone dto.code

unfoldable pub register : Web → (authorization : Option String) → Register → App User
unfolding jwt_auth validate_body
register web authorization dto = do
  user ← jwt_auth web authorization
  validate_body (accepts_register dto)
  Auth.register user.sub dto.name dto.nickname
