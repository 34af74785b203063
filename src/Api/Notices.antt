-- ===== src/Api/Notices.antt =====
-- The notifications of a user under the requests of others: notifications/notifications.controller.ts
-- among the other controllers.
mod Tests
use blocktic_backend.Base.{
  ◌≡◌, ◌≢◌, refl, sym, ◌∙◌, subst, String, true, false, Option, none, some, some_inj, List, [], ◌∷◌,
  Bool, ◌&&◌, ◌==◌, string_eq, eq_iff, arith, All, Distinct, find_id, find_by, find_id-save,
  find_id-find_by, save-Distinct, find_by-holds, key-find_id, Bool-cases, Option-cases, inl, inr,
  ap,
}
use blocktic_backend.Exec.{unauthorized, ◌>>=◌}
use blocktic_backend.Exec.Keeps.{Moves, IsPreorder, Moves-bind}
use blocktic_backend.Entities.{Notification}
use blocktic_backend.State.{World, Config, Db, State, Trace, App}
use blocktic_backend.State.Frame.{Same}
use blocktic_backend.Notifications
use blocktic_backend.Api.Http.{Web, JwtPayload, parse_uuid}
use blocktic_backend.Api.Notifications as NoticesApi
use blocktic_backend.Api.Access.{respond-turned_away}
use blocktic_backend.Api.Effects.{respond-Same, writes}
use blocktic_backend.Api.Guarding.{parse_uuid-Same, finish-Moves, jwt_auth-at, finish-at}
use blocktic_backend.Api.Views.{Untouched-notices}
use blocktic_backend.Api.Routes.{Endpoint, respond, respond_all, finish, mark_as_read}

-- Ids of notifications are unique, and the key finds the notification.
abbrev pub Has : (k : String) → Notification → State → Type 0
Has k n s =
    Distinct Notification.id s.notifications × (find_id Notification.id k s.notifications ≡ some n)

pub record Leaves (k : String) (n : Notification) (s t : State) : Type 0 where
  pub left : Has k n s → Has k n t

-- The caller is not the notification's user.
abbrev pub IsAnother : (caller : Option JwtPayload) → Notification → Type 0
IsAnother none n = Unit
IsAnother (some user) n = (n.user_id == user.sub) ≡ false

true≢false : true ≢ false
true≢false e = cc

module _ (k : String) (n : Notification) where
  Leaves-IsPreorder : IsPreorder (Leaves k n)
  Leaves-IsPreorder = record {
    same = λ s. record { left = λ h. h };
    chain = λ a b c p q. record { left = λ h. q.left (p.left h) };
  }

  Leaves-Same : (s t : State) → t.notifications ≡ s.notifications → Leaves k n s t
  Leaves-Same s t same = record { left = λ h. rw same h }

  mark_as_read-Leaves :
      (id user : String)
      → (n.user_id == user) ≡ false
      → Moves (Leaves k n) (Notifications.mark_as_read id user)
  unfolding Notifications.mark_as_read ◌>>=◌
  mark_as_read-Leaves id user other = record {
    at = λ s.
        let mine : Notification → Bool = λ m. m.id == id && m.user_id == user in
        elim (Option-cases (find_by mine s.notifications)) [
          | inl missing ↦ rw missing (record { left = λ h. h })
          | inr (m, found) ↦ rw found (record {
            left = λ (d, at_k).
                let m' = record m { is_read = true } in
                (
                  save-Distinct Notification.id m' s.notifications d,
                  elim (Bool-cases (m.id == k)) [
                    | inl hit ↦
                        let at_m = find_id-find_by Notification.id mine s.notifications m d found in
                        let is_n : m ≡ n = some_inj (sym at_m ∙ rw ((eq_iff m.id k).0 hit) at_k) in
                        let holds = find_by-holds mine s.notifications m found in
                        let owned : (m.user_id == user) ≡ true = ground arith in
                        absurd (
                          true≢false
                            (sym owned ∙ ap (λ (y : Notification). y.user_id == user) is_n ∙ other))
                    | inr miss ↦ rw (find_id-save Notification.id k m' s.notifications, miss) at_k
                  ],
                );
          })
        ];
  }

  module _ (w : World) (cfg : Config) (web : Web) (auth : Option String) where
    checked-Leaves :
        (id sub : String)
        → (n.user_id == sub) ≡ false
        → Moves (Leaves k n) (finish (parse_uuid web id >>= λ _. Notifications.mark_as_read id sub))
    checked-Leaves id sub other = finish-Moves Leaves-IsPreorder _ (
        Moves-bind Leaves-IsPreorder (parse_uuid web id) _
          (record {
            at = λ s. Leaves-Same s _ (((parse_uuid-Same Db.notifications web id).at s).same);
          })
          λ _. mark_as_read-Leaves id sub other)

    mark_as_read-endpoint-Leaves :
        (id : String) (s : State)
        → IsAnother (web.bearer s.trace auth) n
        → Leaves k n s (respond w cfg web auth (mark_as_read id) s).1
    unfolding respond finish NoticesApi.mark_as_read
    mark_as_read-endpoint-Leaves id s another = elim (Option-cases (web.bearer s.trace auth)) [
      | inl missing ↦
          let away =
            respond-turned_away w cfg web auth (mark_as_read id) s (unauthorized "Unauthorized")
              (rw missing refl) in
          Leaves-Same s _ (ap (λ x. x.1.notifications) away)
      | inr (user, found) ↦
          let rest : App Notification =
            parse_uuid web id >>= λ _. Notifications.mark_as_read id user.sub in
          let path : respond w cfg web auth (mark_as_read id) s ≡ finish rest s =
            finish-at (NoticesApi.mark_as_read web auth id) rest s (
              jwt_auth-at web auth s user
                (λ u. parse_uuid web id >>= λ _. Notifications.mark_as_read id u.sub) found) in
          let kept = checked-Leaves id user.sub (rw (found) at another) in
          subst (λ x. Leaves k n s x.1) (sym path) (kept.at s)
    ]

    respond-Leaves :
        (e : Endpoint) (s : State)
        → IsAnother (web.bearer s.trace auth) n
        → Leaves k n s (respond w cfg web auth e s).1
    respond-Leaves (mark_as_read id) s another = mark_as_read-endpoint-Leaves id s another
    respond-Leaves e s another = Leaves-Same s _ (
        ((respond-Same Db.notifications w cfg web auth e (Untouched-notices (writes e) refl)).at
          s).same)

-- A notification stays as it is, unread if it was, whatever requests are served one after the other,
-- as long as ids of notifications are unique and the requests come from callers other than its user,
-- whenever their token is read.
pub kept_by_others :
    (w : World) (cfg : Config) (web : Web) (requests : List (Option String × Endpoint)) (s : State)
    (k : String) (n : Notification)
    → All (λ r. (made : Trace) → IsAnother (web.bearer made r.0) n) requests
    → Distinct Notification.id s.notifications
    → find_id Notification.id k s.notifications ≡ some n
    → find_id Notification.id k (respond_all w cfg web requests s).notifications ≡ some n
unfolding respond_all
kept_by_others w cfg web [] s k n h d found = found
kept_by_others w cfg web (r ∷ rest) s k n (another, later) d found =
    let one = respond-Leaves k n w cfg web r.0 r.1 s (another s.trace) in
    let (d', found') = one.left (d, found) in
    kept_by_others w cfg web rest (respond w cfg web r.0 r.1 s).1 k n later d' found'
