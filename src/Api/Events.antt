-- ===== src/Api/Events.antt =====
-- events/events.controller.ts.
use blocktic_backend.Base.{String, Option}
use blocktic_backend.Exec.{◌>>=◌, ◌>>◌}
use blocktic_backend.Base.Pages.{Page}
use blocktic_backend.Entities.{Event}
use blocktic_backend.State.{World, App}
use blocktic_backend.Events
use blocktic_backend.Api.Http.{Web, admin_only, parse_uuid, validate_body}
use blocktic_backend.Api.Dto.{
  EventQuery, accepts_page, page_or, limit_or, accepts_create_event, accepts_update_event,
}

unfoldable pub find_all : EventQuery → App (Page Event)
unfolding validate_body
find_all query = do
  validate_body (accepts_page query.page query.limit)
  Events.find_all (page_or query.page) (limit_or query.limit) query.status

module _ (w : World) (web : Web) where
  unfoldable pub find_one : (id : String) → App Event
  unfolding parse_uuid
  find_one id = do parse_uuid web id; Events.find_one id

  unfoldable pub create : (authorization : Option String) → Events.CreateEvent → App Event
  unfolding admin_only validate_body
  create authorization dto = do
    user ← admin_only web authorization
    validate_body (accepts_create_event dto)
    Events.create w dto

  unfoldable pub update :
      (authorization : Option String) → (id : String) → Events.UpdateEvent → App Event
  unfolding admin_only parse_uuid validate_body
  update authorization id dto = do
    user ← admin_only web authorization
    parse_uuid web id
    validate_body (accepts_update_event dto)
    Events.update w id dto

  unfoldable pub remove : (authorization : Option String) → (id : String) → App (Unit {0})
  unfolding admin_only parse_uuid
  remove authorization id = do
    user ← admin_only web authorization
    parse_uuid web id
    Events.remove id
