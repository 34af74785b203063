-- ===== src/Api/Login.antt =====
-- auth/auth.controller.ts with auth/jwt.strategy.ts: the token of a verification at the guards of
-- the other controllers.
use blocktic_backend.Base.{
  find_by, ◌==◌, string_eq, ◌≡◌, refl, sym, ap, ◌∙◌, String, some, ◌<>◌, ◌⊎◌, inl, inr,
}
use blocktic_backend.Exec.{ok, err, forbidden, bind-ok}
use blocktic_backend.Entities.{User, Role}
use blocktic_backend.State.{World, Config, State, Trace}
use blocktic_backend.Guards.{role_text}
use blocktic_backend.Auth.{VerifyOtpResponse, verify_otp}
use blocktic_backend.Auth.Otp.{verify_otp-ok}
use blocktic_backend.Ticketing
use blocktic_backend.Api.Http.{Web, JwtPayload, validate_body}
use blocktic_backend.Api.Dto.{VerifyOtp, accepts_verify_otp}
use blocktic_backend.Api.Auth
use blocktic_backend.Api.Tickets
use blocktic_backend.Api.Access.{respond-turned_away, audience, admins}
use blocktic_backend.Api.Guarding.{jwt_auth-at}
use blocktic_backend.Api.Routes.{Endpoint, respond}

-- The header `Authorization: Bearer <token>`.
abbrev pub bearer_header : String → String
bearer_header token = "Bearer " <> token

-- At this point a token signed for the id and role is accepted as such: until it expires, that is
-- what jsonwebtoken's `verify` does with the secret of its `sign`.
pub record Honours (w : World) (web : Web) (at_trace : Trace) (id : String) (role : Role)
    : Type 0 where
  pub payload : JwtPayload
  pub accepted : web.bearer at_trace (some (bearer_header (w.sign_user id role))) ≡ some payload
  pub same_sub : payload.sub ≡ id
  pub same_role : payload.role ≡ role_text role

module _ (w : World) (cfg : Config) (web : Web) where
  my_tickets-at :
      (token : String) (user : JwtPayload) (t : State)
      → web.bearer t.trace (some (bearer_header token)) ≡ some user
      → Tickets.find_my_tickets w cfg web (some (bearer_header token)) t
        ≡ Ticketing.find_by_user user.sub t
  unfolding Tickets.find_my_tickets
  my_tickets-at token user t h =
      jwt_auth-at web (some (bearer_header token)) t user (λ u. Ticketing.find_by_user u.sub) h

  refused-at :
      (token : String) (user : JwtPayload) (role : Role) (e : Endpoint) (t : State)
      → web.bearer t.trace (some (bearer_header token)) ≡ some user
      → user.role ≡ role_text role
      → audience e ≡ admins
      → (role ≡ Role.admin)
        ⊎ (respond w cfg web (some (bearer_header token)) e t
            ≡ (err (forbidden "Forbidden resource"), t))
  refused-at token user Role.admin e t h same level = inl refl
  refused-at token user Role.user e t h same level = inr (
      respond-turned_away w cfg web (some (bearer_header token)) e t
        (forbidden "Forbidden resource") (rw (level, h, same) refl))

  -- Where tokens are honoured: the token that a verification over HTTP returns logs in, at a later
  -- state, as the user that the users table has for the request's phone number after the verification,
  -- and is signed for that user's id and role. `tickets/my` answers with that user's tickets, and
  -- unless the user is an admin each endpoint for admins answers Forbidden and changes nothing.
  pub login :
      (dto : VerifyOtp) (s t : State) (reply : VerifyOtpResponse) (e : Endpoint)
      → (Auth.verify_otp w dto s).0 ≡ ok reply
      → ((id : String) (role : Role) → Honours w web t.trace id role)
      → audience e ≡ admins
      → (u : User) × (find_by (λ (x : User). x.phone == dto.phone) (Auth.verify_otp w dto s).1.users
          ≡ some u)
        × (reply.user_id ≡ u.id)
        × (reply.token ≡ w.sign_user u.id u.role)
        × (Tickets.find_my_tickets w cfg web (some (bearer_header reply.token)) t
            ≡ Ticketing.find_by_user u.id t)
        × ((u.role ≡ Role.admin)
            ⊎ (respond w cfg web (some (bearer_header reply.token)) e t
                ≡ (err (forbidden "Forbidden resource"), t)))
  unfolding Auth.verify_otp
  login dto s t reply e h honours level =
      let (_, valid, path) =
        bind-ok (validate_body (accepts_verify_otp dto)) (λ _. verify_otp w dto.phone dto.code) s
          h in
      let s1 = (validate_body (accepts_verify_otp dto) s).1 in
      let (r, u, held, fresh, few, right, gone, made, phone, users, row) =
        verify_otp-ok w dto.phone dto.code s1 reply (ap (λ x. x.0) (sym path) ∙ h) in
      let a = honours u.id u.role in
      let token : reply.token ≡ w.sign_user u.id u.role = ap VerifyOtpResponse.token made in
      (
        u,
        ap (λ x. find_by (λ (y : User). y.phone == dto.phone) x.1.users) path ∙ row,
        ap VerifyOtpResponse.user_id made,
        token,
        rw (token, my_tickets-at (w.sign_user u.id u.role) a.payload t a.accepted, a.same_sub) refl,
        rw token (
            refused-at (w.sign_user u.id u.role) a.payload u.role e t a.accepted a.same_role level),
      )
