-- ===== src/Base/Text.antt =====
-- Numbers as text: `${n}` and `n.toString(16)`, `padStart` and JavaScript's falsy strings.
use Prim.Native.String.{String, slice, count}
use Prim.Native.Nat.{ℕ, zero, suc, ◌+◌, ◌-◌, ◌/◌, ◌%◌}
use mathlib.Core.Bool.{Bool, false, not}
use mathlib.Core.Option.{Option, none, some}
use blocktic_backend.Base.Tests.{◌==◌, nat_eq, string_eq, if◌then◌else◌, ◌<>◌}

abbrev digit : ℕ → String
digit d = slice "0123456789abcdef" d (d + 1)

digits_from : (base fuel n : ℕ) → String → String
digits_from base zero n acc = acc
digits_from base (suc fuel) n acc =
    let acc' = digit (n % base) <> acc in
    let rest = digits_from base fuel (n / base) acc' in if n / base == 0 then acc' else rest

-- `n` has fewer than `n + 1` digits, so the fuel is enough.
unfoldable pub decimal : ℕ → String
unfolding digits_from
decimal n = digits_from 10 (suc n) n ""

unfoldable pub hexadecimal : ℕ → String
unfolding digits_from
hexadecimal n = digits_from 16 (suc n) n ""

abbrev pub repeat : ℕ → String → String
repeat zero s = ""
repeat (suc n) s = s <> repeat n s

-- `s.padStart(width, fill)` for a `fill` of one character
abbrev pub pad_start : ℕ → String → String → String
pad_start width fill s = repeat (width - count s) fill <> s

-- A string that JavaScript takes for true.
abbrev pub truthy : Option String → Bool
truthy none = false
truthy (some s) = not (s == "")

-- `s || null`
abbrev pub non_empty : Option String → Option String
non_empty none = none
non_empty (some s) = if s == "" then none else some s
