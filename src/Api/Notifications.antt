-- ===== src/Api/Notifications.antt =====
-- notifications/notifications.controller.ts.
use blocktic_backend.Base.{String, Option}
use blocktic_backend.Exec.{◌>>=◌, ◌>>◌}
use blocktic_backend.Base.Pages.{Page}
use blocktic_backend.Entities.{Notification}
use blocktic_backend.State.{App}
use blocktic_backend.Notifications
use blocktic_backend.Api.Http.{Web, jwt_auth, parse_uuid, validate_body}
use blocktic_backend.Api.Dto.{NotificationQuery, accepts_page, page_or, limit_or}

module _ (web : Web) where
  unfoldable pub find_all :
      (authorization : Option String) → NotificationQuery → App (Page Notification)
  unfolding jwt_auth validate_body
  find_all authorization query = do
    user ← jwt_auth web authorization
    validate_body (accepts_page query.page query.limit)
    Notifications.find_by_user user.sub (page_or query.page) (limit_or query.limit)

  unfoldable pub mark_as_read : (authorization : Option String) → (id : String) → App Notification
  unfolding jwt_auth parse_uuid
  mark_as_read authorization id = do
    user ← jwt_auth web authorization
    parse_uuid web id
    Notifications.mark_as_read id user.sub
