-- ===== src/Api/Roles.antt =====
-- The roles of users under the requests of the controllers.
use blocktic_backend.Base.{◌≡◌, refl, String, Option, some, List, [], ◌∷◌, find_id}
use blocktic_backend.Exec.Keeps.{Moves, moves_rules}
use blocktic_backend.Entities.{User, admin}
use blocktic_backend.State.{World, Config, Db, State}
use blocktic_backend.Frames.Admins.{
  NoNewAdmin, NoNewAdmin-IsPreorder, NoNewAdmin-same, NoNewAdmin-Same, verify_otp-NoNewAdmin,
  register-NoNewAdmin, submit_kyc-NoNewAdmin,
}
use blocktic_backend.Api.Http.{Web}
use blocktic_backend.Api.Effects.{respond-Same, writes}
use blocktic_backend.Api.Guarding.{guard_rules}
use blocktic_backend.Api.Views.{Untouched-users}
use blocktic_backend.Api.Routes.{Endpoint, respond, respond_all, verify_otp, register, submit_kyc}
use blocktic_backend.Api.Auth
use blocktic_backend.Api.Identity

respond-NoNewAdmin :
    (w : World) (cfg : Config) (web : Web) (auth : Option String) (e : Endpoint)
    → Moves NoNewAdmin (respond w cfg web auth e)
unfolding respond Auth.verify_otp Auth.register Identity.submit_kyc
respond-NoNewAdmin w cfg web auth (verify_otp dto) =
    search (NoNewAdmin-IsPreorder, moves_rules, NoNewAdmin-Same, guard_rules, verify_otp-NoNewAdmin)
      depth 16
respond-NoNewAdmin w cfg web auth (register dto) =
    search (NoNewAdmin-IsPreorder, moves_rules, NoNewAdmin-Same, guard_rules, register-NoNewAdmin)
      depth 16
respond-NoNewAdmin w cfg web auth (submit_kyc dto) =
    search (NoNewAdmin-IsPreorder, moves_rules, NoNewAdmin-Same, guard_rules, submit_kyc-NoNewAdmin)
      depth 16
respond-NoNewAdmin w cfg web auth e =
    NoNewAdmin-Same _ (respond-Same Db.users w cfg web auth e (Untouched-users (writes e) refl))

respond_all-NoNewAdmin :
    (w : World) (cfg : Config) (web : Web) (requests : List (Option String × Endpoint)) (s : State)
    → NoNewAdmin s (respond_all w cfg web requests s)
unfolding respond_all
respond_all-NoNewAdmin w cfg web [] s = NoNewAdmin-same s s refl
respond_all-NoNewAdmin w cfg web (r ∷ rest) s =
    let s' = (respond w cfg web r.0 r.1 s).1 in
    NoNewAdmin-IsPreorder.chain s s' _ ((respond-NoNewAdmin w cfg web r.0 r.1).at s)
      (respond_all-NoNewAdmin w cfg web rest s')

-- No sequence of requests makes an admin: a user who is an admin after them, whoever sent them, was
-- one before.
pub respond_all_admins :
    (w : World) (cfg : Config) (web : Web) (requests : List (Option String × Endpoint)) (s : State)
    (k : String) (u' : User)
    → find_id User.id k (respond_all w cfg web requests s).users ≡ some u'
    → u'.role ≡ admin
    → (u : User) × (find_id User.id k s.users ≡ some u) × (u.role ≡ admin)
respond_all_admins w cfg web requests s k u' found is_admin =
    (respond_all-NoNewAdmin w cfg web requests s).before k u' found is_admin
