-- ===== src/Api/Lottery.antt =====
-- lottery/lottery.controller.ts.
use blocktic_backend.Base.{String, Option}
use blocktic_backend.Exec.{◌>>=◌, ◌>>◌}
use blocktic_backend.Entities.{LotteryEntry}
use blocktic_backend.State.{World, Config, App}
use blocktic_backend.Lottery
use blocktic_backend.Api.Http.{Web, jwt_auth, admin_only, parse_uuid, validate_body}
use blocktic_backend.Api.Dto.{accepts_register_lottery}

module _ (w : World) (cfg : Config) (web : Web) where
  unfoldable pub register :
      (authorization : Option String)
      → (event_id : String) → Lottery.RegisterLottery
      → App LotteryEntry
  unfolding jwt_auth parse_uuid validate_body
  register authorization event_id dto = do
    user ← jwt_auth web authorization
    parse_uuid web event_id
    validate_body (accepts_register_lottery dto)
    Lottery.register w event_id user.sub dto

  unfoldable pub draw :
      (authorization : Option String) → (event_id : String) → App Lottery.DrawResultResponse
  unfolding admin_only parse_uuid
  draw authorization event_id = do
    user ← admin_only web authorization
    parse_uuid web event_id
    Lottery.draw w cfg event_id

  unfoldable pub get_results : (event_id : String) → App Lottery.DrawResultResponse
  unfolding parse_uuid
  get_results event_id = do parse_uuid web event_id; Lottery.get_results event_id

  unfoldable pub get_proof : (event_id : String) → App Lottery.DrawProofResponse
  unfolding parse_uuid
  get_proof event_id = do parse_uuid web event_id; Lottery.get_proof event_id
