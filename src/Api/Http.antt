-- ===== src/Api/Http.antt =====
-- auth/jwt.strategy.ts, common/guards/jwt-auth.guard.ts, common/guards/roles.guard.ts and
-- common/decorators/current-user.decorator.ts as a request meets them, and the pipes of NestJS.
use blocktic_backend.Base.{ℕ, String, Bool, not, Option, none, some, List, [], ◌∷◌}
use blocktic_backend.Exec.{
  unauthorized, forbidden, bad_request, pure, gets, throw_if, or_throw, ◌>>=◌, ◌>>◌,
}
use blocktic_backend.Entities.{Role}
use blocktic_backend.State.{App, Trace}
use blocktic_backend.Guards.{can_activate}

pub record JwtPayload : Type 0 where
  pub sub : String
  pub role : String
  pub iat : Option ℕ
  pub exp : Option ℕ

-- The web packages: what passport-jwt reads from the Authorization header (the payload of a bearer
-- token whose signature and expiry pass), ParseUUIDPipe's test, and tests of class-validator.
pub record Web : Type 0 where
  pub bearer : Trace → (authorization : Option String) → Option JwtPayload
  pub is_uuid : String → Bool
  pub is_url : String → Bool
  pub is_base64 : String → Bool

-- JwtStrategy.validate: the payload becomes `request.user`.
abbrev pub validate : JwtPayload → JwtPayload
validate payload = payload

-- `@CurrentUser('sub')`
abbrev pub current_sub : Option JwtPayload → Option String
current_sub none = none
current_sub (some user) = some user.sub

module _ (web : Web) where
  -- `@UseGuards(JwtAuthGuard)`
  unfoldable pub jwt_auth : (authorization : Option String) → App JwtPayload
  jwt_auth authorization = do
    payload ← gets (λ s. web.bearer s.trace authorization)
    found ← or_throw payload (unauthorized "Unauthorized")
    pure (validate found)

  -- `RolesGuard`, which a refusal makes a ForbiddenException
  unfoldable pub roles_guard : List Role → JwtPayload → App (Unit {0})
  roles_guard roles user =
      throw_if (not (can_activate (some roles) none (some user.role)))
        (forbidden "Forbidden resource")

  -- `@UseGuards(JwtAuthGuard, RolesGuard)` with `@Roles(Role.ADMIN)`
  unfoldable pub admin_only : (authorization : Option String) → App JwtPayload
  unfolding jwt_auth roles_guard
  admin_only authorization = do
    user ← jwt_auth authorization
    roles_guard (Role.admin ∷ []) user
    pure user

  -- `@Param(…, ParseUUIDPipe)`
  unfoldable pub parse_uuid : String → App (Unit {0})
  parse_uuid text =
      throw_if (not (web.is_uuid text)) (bad_request "Validation failed (uuid is expected)")

-- The global ValidationPipe of main.ts, given whether the decorators of the DTO accept the body.
unfoldable pub validate_body : Bool → App (Unit {0})
validate_body accepted = throw_if (not accepted) (bad_request "Bad Request")
