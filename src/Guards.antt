-- ===== src/Guards.antt =====
-- common/guards/roles.guard.ts, the role check behind `@Roles`. The role of a request is the text in
-- the JWT's payload; the metadata of the handler and its class is the reflector's.
pub mod Access
pub mod Tests
use blocktic_backend.Base.{
  String, Bool, true, false, ◌||◌, Option, none, some, List, [], ◌∷◌, ◌==◌, string_eq,
  if◌then◌else◌,
}
use blocktic_backend.Entities.{Role, user, admin}

abbrev pub role_text : Role → String
role_text user = "user"
role_text admin = "admin"

-- `requiredRoles.includes(user.role)`
abbrev pub includes : List Role → String → Bool
includes [] r = false
includes (a ∷ rest) r = role_text a == r || includes rest r

-- `getAllAndOverride(ROLES_KEY, [handler, class])`: the handler's metadata, else the class's.
abbrev pub all_and_override : (handler class : Option (List Role)) → Option (List Role)
all_and_override (some roles) class = some roles
all_and_override none class = class

-- `user?.role` of the request is none where no strategy has set the user.
abbrev pub passes : (required : Option (List Role)) → (role : Option String) → Bool
passes none role = true
passes (some []) role = true
passes (some (a ∷ rest)) none = false
passes (some (a ∷ rest)) (some r) = if r == "" then false else includes (a ∷ rest) r

unfoldable pub can_activate : (handler class : Option (List Role)) → (role : Option String) → Bool
can_activate handler class role = passes (all_and_override handler class) role
