-- ===== src/Guards/Access.antt =====
-- common/guards/roles.guard.ts, canActivate: who passes.
use blocktic_backend.Base.{
  String, ◌≡◌, refl, sym, ◌↔◌, ◌⊎◌, inl, inr, true, false, Option, none, some, List, [], ◌∷◌, arith,
  Bool-cases, ◌==◌, string_eq, eq_iff, eq_refl, ap, some≢none, some_inj,
}
use blocktic_backend.Entities.{Role}
use blocktic_backend.Guards.{role_text, includes, all_and_override, passes, can_activate}

-- The role stands in the list.
abbrev pub Lists : Role → List Role → Type 0
Lists r [] = ⊥
Lists r (a ∷ rest) = (r ≡ a) ⊎ Lists r rest

-- What `@Roles` asks of the request's role: nothing, or that it is one of the roles listed.
abbrev pub Allows : Option (List Role) → Option String → Type 0
Allows none role = Unit
Allows (some []) role = Unit
Allows (some (a ∷ rest)) role = (r : Role) × Lists r (a ∷ rest) × (role ≡ some (role_text r))

includes-Lists :
    (roles : List Role) (s : String)
    → includes roles s ≡ true
    → (r : Role) × Lists r roles × (s ≡ role_text r)
includes-Lists [] s h = ground arith
includes-Lists (a ∷ rest) s h = elim (Bool-cases (role_text a == s)) [
  | inl this ↦ (a, inl refl, sym ((eq_iff (role_text a) s).0 this))
  | inr other ↦ let (r, listed, e) = includes-Lists rest s (rw (other) at h) in (r, inr listed, e)
]

Lists-includes :
    (roles : List Role) (r : Role) → Lists r roles → includes roles (role_text r) ≡ true
Lists-includes [] r h = absurd h
Lists-includes (a ∷ rest) r (inl e) = rw (e, eq_refl (role_text a)) refl
Lists-includes (a ∷ rest) r (inr h) = ground (arith, Lists-includes rest r h)

named : (r : Role) → (role_text r == "") ≡ false
named Role.user = refl
named Role.admin = refl

passes-Allows :
    (required : Option (List Role)) (role : Option String)
    → passes required role ≡ true
    → Allows required role
passes-Allows none role h = tt
passes-Allows (some []) role h = tt
passes-Allows (some (a ∷ rest)) none h = ground arith
passes-Allows (some (a ∷ rest)) (some s) h = elim (Bool-cases (s == "")) [
  | inl blank ↦ ground arith
  | inr given ↦
      let (r, listed, e) = includes-Lists (a ∷ rest) s (rw (given) at h) in (r, listed, ap some e)
]

Allows-passes :
    (required : Option (List Role)) (role : Option String)
    → Allows required role
    → passes required role ≡ true
Allows-passes none role h = refl
Allows-passes (some []) role h = refl
Allows-passes (some (a ∷ rest)) none (r, listed, e) = absurd (some≢none (sym e))
Allows-passes (some (a ∷ rest)) (some s) (r, listed, e) =
    let same : s ≡ role_text r = some_inj e in
    let found : includes (a ∷ rest) s ≡ true = rw same (Lists-includes (a ∷ rest) r listed) in
    let given : (s == "") ≡ false = rw same (named r) in rw given found

-- The guard lets a request pass exactly where the handler's roles, or else those of its class, are
-- missing or empty, or the request has a user whose role is one of them.
pub can_activate_iff :
    (handler class : Option (List Role)) (role : Option String)
    → (can_activate handler class role ≡ true) ↔ Allows (all_and_override handler class) role
unfolding can_activate
can_activate_iff handler class role =
    let required = all_and_override handler class in
    (passes-Allows required role, Allows-passes required role)
