-- ===== src/Api/Tickets.antt =====
-- ticketing/ticketing.controller.ts.
use blocktic_backend.Base.{String, Option, some, List}
use blocktic_backend.Exec.{◌>>=◌, ◌>>◌}
use blocktic_backend.Entities.{Ticket}
use blocktic_backend.State.{World, Config, App}
use blocktic_backend.Ecpay.{Params}
use blocktic_backend.Ticketing
use blocktic_backend.Api.Http.{Web, current_sub, jwt_auth, admin_only, parse_uuid, validate_body}
use blocktic_backend.Api.Dto.{Preauth, accepts_preauth}

module _ (w : World) (cfg : Config) (web : Web) where
  -- `dto.userId = userId`: the body's user gives way to the token's.
  unfoldable pub preauthorize :
      (authorization : Option String) → (event_id : String) → Preauth → App (Ticket × Params)
  unfolding jwt_auth parse_uuid validate_body
  preauthorize authorization event_id dto = do
    user ← jwt_auth web authorization
    parse_uuid web event_id
    validate_body (accepts_preauth web dto)
    let dto' = record dto { user_id = user.sub }
    Ticketing.preauthorize w cfg event_id dto'.user_id dto'.amount dto'.return_url

  unfoldable pub capture : (authorization : Option String) → (ticket_id : String) → App Ticket
  unfolding admin_only parse_uuid
  capture authorization ticket_id = do
    user ← admin_only web authorization
    parse_uuid web ticket_id
    Ticketing.capture_payment w cfg ticket_id

  unfoldable pub mint : (authorization : Option String) → (ticket_id : String) → App Ticket
  unfolding admin_only parse_uuid
  mint authorization ticket_id = do
    user ← admin_only web authorization
    parse_uuid web ticket_id
    Ticketing.mint_ticket w cfg ticket_id

  unfoldable pub refund : (authorization : Option String) → (ticket_id : String) → App Ticket
  unfolding jwt_auth parse_uuid
  refund authorization ticket_id = do
    user ← jwt_auth web authorization
    parse_uuid web ticket_id
    Ticketing.refund_ticket w cfg ticket_id (current_sub (some user))

  -- No guard: ECPay's server calls it.
  unfoldable pub ecpay_callback : (body : Params) → App String
  ecpay_callback body = Ticketing.handle_ecpay_callback w cfg body

  unfoldable pub find_my_tickets : (authorization : Option String) → App (List Ticket)
  unfolding jwt_auth
  find_my_tickets authorization = do
    user ← jwt_auth web authorization
    Ticketing.find_by_user user.sub

  unfoldable pub find_by_user :
      (authorization : Option String) → (user_id : String) → App (List Ticket)
  unfolding admin_only parse_uuid
  find_by_user authorization user_id = do
    user ← admin_only web authorization
    parse_uuid web user_id
    Ticketing.find_by_user user_id

  unfoldable pub find_by_id : (authorization : Option String) → (ticket_id : String) → App Ticket
  unfolding jwt_auth parse_uuid
  find_by_id authorization ticket_id = do
    user ← jwt_auth web authorization
    parse_uuid web ticket_id
    Ticketing.find_one_or_fail ticket_id
