-- ===== src/Api/Notices/Tests.antt =====
-- Notifications with requests of others.
use blocktic_backend.Base.{◌≡◌, refl, String, false, Option, none, some, List, [], ◌∷◌, find_id}
use blocktic_backend.Entities.{Notification, system}
use blocktic_backend.State.{State}
use blocktic_backend.Samples.{world, config, empty_db, state_of}
use blocktic_backend.Api.Sample.{web}
use blocktic_backend.Api.Notices.{kept_by_others}
use blocktic_backend.Api.Routes.{Endpoint, respond_all}

abbrev notice : Notification
notice = record {
  id = "n1";
  user_id = "u1";
  title = "t";
  body = "b";
  type = system;
  is_read = false;
  metadata = none;
  created_at = 3;
}

abbrev noticed : State
noticed = state_of (record empty_db { notifications = notice ∷ [] })

abbrev prying : List (Option String × Endpoint)
prying =
    (some "Bearer uu2", Endpoint.mark_as_read "n1")
    ∷ (none, Endpoint.mark_as_read "n1")
    ∷ (some "Bearer aroot", Endpoint.draw "e1")
    ∷ []

kept_by_others_example :
    find_id Notification.id "n1" (respond_all world config web prying noticed).notifications
    ≡ some notice
kept_by_others_example =
    kept_by_others world config web prying noticed "n1" notice
      ((λ made. refl), ((λ made. tt), ((λ made. refl), tt))) (refl, tt) refl
