-- ===== src/Api/Sample.antt =====
-- How the tests read the Authorization header.
use Prim.Native.Char.{code}
use blocktic_backend.Base.{String, true, Option, none, some, nat_eq, string_eq, if◌then◌else◌, ◌==◌}
use blocktic_backend.Api.Http.{Web, JwtPayload}

abbrev pub payload : (id role : String) → JwtPayload
payload id role = record { sub = id; role = role; iat = none; exp = none }

abbrev pub read_token : String → Option JwtPayload
read_token String.[] = none
read_token (String.◌∷◌ c id) =
    if code c == b'u'
    then some (payload id "user")
    else if code c == b'a'
    then some (payload id "admin")
    else none

-- The header without its first seven characters.
abbrev pub after_bearer : String → String
after_bearer
      (String.◌∷◌ a (
        String.◌∷◌ b
          (String.◌∷◌ c (String.◌∷◌ d (String.◌∷◌ e (String.◌∷◌ f (String.◌∷◌ g s))))))) =
    s
after_bearer _ = ""

abbrev pub web : Web
web = record {
  bearer = λ t header. elim header [ none ↦ none | some h ↦ read_token (after_bearer h) ];
  is_uuid = λ s. true;
  is_url = λ s. true;
  is_base64 = λ s. true;
}
