-- ===== src/Api/Guarding.antt =====
-- The guards and pipes of the controllers change nothing.
use blocktic_backend.Base.{String, Bool, Option, some, List, ◌≡◌, refl}
use blocktic_backend.Exec.{◌>>=◌}
use blocktic_backend.Exec.Keeps.{Moves, IsPreorder, Moves-bind, Moves-pure}
use blocktic_backend.Entities.{Role}
use blocktic_backend.State.{Db, State, App}
use blocktic_backend.State.Frame.{Same, frame_rules}
use blocktic_backend.Api.Http.{
  Web, JwtPayload, jwt_auth, roles_guard, admin_only, parse_uuid, validate_body,
}
use blocktic_backend.Api.Routes.{finish}

module _ {X : Type 0} (v : Db → X) (web : Web) where
  pub jwt_auth-Same : (auth : Option String) → Moves (Same v) (jwt_auth web auth)
  unfolding jwt_auth
  jwt_auth-Same auth = search frame_rules depth 16

  roles_guard-Same :
      (roles : List Role) (user : JwtPayload) → Moves (Same v) (roles_guard web roles user)
  unfolding roles_guard
  roles_guard-Same roles user = search frame_rules

  pub admin_only-Same : (auth : Option String) → Moves (Same v) (admin_only web auth)
  unfolding admin_only
  admin_only-Same auth = search (frame_rules, jwt_auth-Same, roles_guard-Same) depth 16

  pub parse_uuid-Same : (text : String) → Moves (Same v) (parse_uuid web text)
  unfolding parse_uuid
  parse_uuid-Same text = search frame_rules

pub validate_body-Same :
    {X : Type 0} (v : Db → X) (accepted : Bool) → Moves (Same v) (validate_body accepted)
unfolding validate_body
validate_body-Same v accepted = search frame_rules

pub finish-Moves :
    {A : Type 0} {R : State → State → Type 0} (o : IsPreorder R) (m : App A)
    → Moves R m
    → Moves R (finish m)
unfolding finish
finish-Moves o m h = Moves-bind o m _ h λ a. Moves-pure o tt

pub jwt_auth-at :
    {A : Type 0} (web : Web) (auth : Option String) (s : State) (user : JwtPayload)
    (rest : JwtPayload → App A)
    → web.bearer s.trace auth ≡ some user
    → (jwt_auth web auth >>= rest) s ≡ rest user s
unfolding jwt_auth ◌>>=◌
jwt_auth-at web auth s user rest h = rw h refl

pub finish-at : {A : Type 0} (m n : App A) (s : State) → m s ≡ n s → finish m s ≡ finish n s
unfolding finish ◌>>=◌
finish-at m n s h = rw h refl

pub ruleset guard_rules =
    (jwt_auth-Same, admin_only-Same, parse_uuid-Same, validate_body-Same, finish-Moves)
