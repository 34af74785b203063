-- ===== src/Notifications.antt =====
-- notifications/notifications.service.ts.
use blocktic_backend.Base.{
  ℕ, String, Bool, true, false, ◌&&◌, Option, [], ◌∷◌, ◌++◌, leb, ◌==◌, string_eq, find_by, keep,
  save, map,
}
use blocktic_backend.Base.Pages.{Page, paged}
use blocktic_backend.Base.Sorting.{sort}
use blocktic_backend.Exec.{not_found, pure, gets, modify, or_throw, ◌>>=◌, ◌>>◌}
use blocktic_backend.Entities.{Notification, NotificationType}
use blocktic_backend.State.{World, State, App, put_notifications}

abbrev pub newest_first : Notification → Notification → Bool
newest_first a b = leb b.created_at a.created_at

module _ (w : World) where
  abbrev pub new_notification :
      (user_id title body : String)
      → NotificationType
      → (metadata : Option String) → State
      → Notification
  new_notification user_id title body type metadata s = record {
    id = w.new_id (map Notification.id s.notifications);
    user_id = user_id;
    title = title;
    body = body;
    type = type;
    is_read = false;
    metadata = metadata;
    created_at = w.now s.trace;
  }

  unfoldable pub create :
      (user_id title body : String)
      → NotificationType
      → (metadata : Option String) → App Notification
  create user_id title body type metadata = do
    n ← gets (new_notification user_id title body type metadata)
    modify (λ s. put_notifications (s.notifications ++ n ∷ []) s)
    pure n

unfoldable pub find_by_user : (user_id : String) → (page limit : ℕ) → App (Page Notification)
unfolding sort
find_by_user user_id page limit = gets (λ s.
    paged page limit
      (sort newest_first (keep (λ (n : Notification). n.user_id == user_id) s.notifications)))

unfoldable pub mark_as_read : (id user_id : String) → App Notification
mark_as_read id user_id = do
  found ←
      gets (λ s. find_by (λ (n : Notification). n.id == id && n.user_id == user_id) s.notifications)
  n ← or_throw found (not_found "通知不存在")
  let n' = record n { is_read = true }
  modify (λ s. put_notifications (save Notification.id n' s.notifications) s)
  pure n'
