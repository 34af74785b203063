-- ===== src/Ecpay.antt =====
-- ticketing/ecpay.util.ts: the CheckMacValue that signs the parameters of an ECPay request. Values
-- that are numbers stand as their decimal text.
pub mod Signing
pub mod Tests
use Prim.Native.Char.{code}
use Prim.Native.String.{slice}
use blocktic_backend.Base.{
  ℕ, ◌+◌, ◌-◌, ◌/◌, ◌%◌, String, Bool, ◌&&◌, ◌||◌, List, [], ◌∷◌, ◌<>◌, ltb, leb, ◌==◌, nat_eq,
  if◌then◌else◌,
}
use blocktic_backend.Base.Sorting.{sort}
use blocktic_backend.State.{World}

abbrev pub Params : Type 0
Params = List (String × String)

abbrev upper_digit : ℕ → String
upper_digit d = slice "0123456789ABCDEF" d (d + 1)

-- `%XX`
abbrev pub percent : ℕ → String
percent b = "%" <> upper_digit (b / 16) <> upper_digit (b % 16)

-- The characters that `encodeURIComponent` leaves: A-Z a-z 0-9 - _ . ! ~ * ' ( )
abbrev pub is_unreserved : ℕ → Bool
is_unreserved c =
    leb b'A' c && leb c b'Z'
    || leb b'a' c && leb c b'z'
    || leb b'0' c && leb c b'9'
    || c == b'-'
    || c == b'_'
    || c == b'.'
    || c == b'!'
    || c == b'~'
    || c == b'*'
    || c == 0x27
    || c == b'('
    || c == b')'

-- The UTF-8 bytes of a code point, each as `%XX`.
abbrev pub percent_utf8 : ℕ → String
percent_utf8 c =
    if ltb c 0x80
    then percent c
    else if ltb c 0x800
    then percent (0xc0 + c / 0x40) <> percent (0x80 + c % 0x40)
    else if ltb c 0x10000
    then percent (0xe0 + c / 0x1000)
      <> percent (0x80 + c / 0x40 % 0x40)
      <> percent (0x80 + c % 0x40)
    else percent (0xf0 + c / 0x40000)
      <> percent (0x80 + c / 0x1000 % 0x40)
      <> percent (0x80 + c / 0x40 % 0x40)
      <> percent (0x80 + c % 0x40)

unfoldable pub encode_uri_component : String → String
encode_uri_component String.[] = ""
encode_uri_component (String.◌∷◌ c s) =
    (if is_unreserved (code c) then String.◌∷◌ c "" else percent_utf8 (code c))
    <> encode_uri_component s

-- `text.replace(/%xy/g, r)`, for the two characters x and y
unfoldable pub replace_percent : (x y : ℕ) (r : String) → String → String
replace_percent x y r (String.◌∷◌ a (String.◌∷◌ b (String.◌∷◌ c s))) =
    let found = r <> replace_percent x y r s in
    let passed = String.◌∷◌ a (replace_percent x y r (String.◌∷◌ b (String.◌∷◌ c s))) in
    if code a == b'%' && code b == x && code c == y then found else passed
replace_percent x y r s = s

-- The eight replacements of step 3, in their order.
unfoldable pub ecpay_replacements : String → String
unfolding replace_percent
ecpay_replacements s = replace_percent b'2' b'9' ")" (
    replace_percent b'2' b'8' "(" (
      replace_percent b'2' b'a' "*" (
        replace_percent b'2' b'1' "!" (
          replace_percent b'2' b'e' "." (
            replace_percent b'5' b'f' "_"
              (replace_percent b'2' b'd' "-" (replace_percent b'2' b'0' "+" s)))))))

abbrev lower_char : ℕ → String → String
lower_char c s =
    if leb b'A' c && leb c b'Z'
    then slice "abcdefghijklmnopqrstuvwxyz" (c - b'A') (c - b'A' + 1)
    else s

abbrev upper_char : ℕ → String → String
upper_char c s =
    if leb b'a' c && leb c b'z'
    then slice "ABCDEFGHIJKLMNOPQRSTUVWXYZ" (c - b'a') (c - b'a' + 1)
    else s

-- `toLowerCase` and `toUpperCase`, of an ASCII text
unfoldable pub to_lower_case : String → String
to_lower_case String.[] = ""
to_lower_case (String.◌∷◌ c s) = lower_char (code c) (String.◌∷◌ c "") <> to_lower_case s

unfoldable pub to_upper_case : String → String
to_upper_case String.[] = ""
to_upper_case (String.◌∷◌ c s) = upper_char (code c) (String.◌∷◌ c "") <> to_upper_case s

abbrev pub joined : Params → String
joined [] = ""
joined ((k, v) ∷ []) = k <> "=" <> v
joined ((k, v) ∷ p ∷ rest) = k <> "=" <> v <> "&" <> joined (p ∷ rest)

module _ (w : World) where
  abbrev pub param_le : String × String → String × String → Bool
  param_le p q = w.key_le p.0 q.0

  -- The text before it is encoded.
  abbrev pub raw_text : Params → String → String → String
  raw_text sorted hash_key hash_iv =
      "HashKey=" <> hash_key <> "&" <> joined sorted <> "&HashIV=" <> hash_iv

  unfoldable pub generate_check_mac_value : Params → (hash_key hash_iv : String) → String
  unfolding sort encode_uri_component ecpay_replacements to_lower_case to_upper_case
  generate_check_mac_value params hash_key hash_iv = to_upper_case (
      w.sha256 (
        to_lower_case (
          ecpay_replacements
            (encode_uri_component (raw_text (sort param_le params) hash_key hash_iv)))))
