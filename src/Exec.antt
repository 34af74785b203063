-- ===== src/Exec.antt =====
-- Handlers of the services: actions that read and write the application's state and may throw a
-- NestJS exception. What was written before a throw stays written; `transaction` of State.antt
-- gives the database back.
pub mod Keeps
use Prim.Native.String.{String}
use blocktic_backend.Base.{
  Bool, true, false, ◌≡◌, refl, ◌⊎◌, inl, inr, Option, none, some, List, [], ◌∷◌,
}

-- The exception classes of @nestjs/common that the services and guards throw, with their messages; `failure`
-- is any other error, such as one that a client library throws.
pub data Fault : Type 0 where
  bad_request unauthorized forbidden not_found conflict internal failure : String → Fault

pub data Result (A : Type 0) : Type 0 where
  ok : A → Result A
  err : Fault → Result A

abbrev pub Exec : Type 0 → Type 0 → Type 0
Exec S A = S → Result A × S

module _ {S A : Type 0} where
  unfoldable pub pure : A → Exec S A
  pure a s = (ok a, s)

  unfoldable pub throw : Fault → Exec S A
  throw e s = (err e, s)

  unfoldable pub gets : (view : S → A) → Exec S A
  gets view s = (ok (view s), s)

  abbrev pub recover : Result A → (Fault → Exec S A) → Exec S A
  recover (ok a) h s = (ok a, s)
  recover (err e) h s = h e s

  -- `try { m } catch (e) { h(e) }`
  unfoldable pub try_catch : Exec S A → (Fault → Exec S A) → Exec S A
  try_catch m h s = let (r, s') = m s in recover r h s'

  -- `if (!value) throw e`
  unfoldable pub or_throw : Option A → Fault → Exec S A
  or_throw none e s = (err e, s)
  or_throw (some a) e s = (ok a, s)

unfoldable pub modify : {S : Type 0} → (S → S) → Exec S (Unit {0})
modify f s = (ok tt, f s)

-- `if (test) throw e`
unfoldable pub throw_if : {S : Type 0} → Bool → Fault → Exec S (Unit {0})
throw_if true e s = (err e, s)
throw_if false e s = (ok tt, s)

module _ {S A B : Type 0} where
  abbrev pub resume : Result A → (rest : A → Exec S B) → Exec S B
  resume (err e) rest s = (err e, s)
  resume (ok a) rest s = rest a s

  infixl 10 ◌>>=◌ ◌>>◌
  -- Opening this opens the other ways to build an action too.
  unfoldable pub ◌>>=◌ : (first : Exec S A) (rest : A → Exec S B) → Exec S B
  unfolding throw throw_if or_throw try_catch modify gets pure
  ◌>>=◌ first rest s = let (outcome, after) = first s in resume outcome rest after

  abbrev pub ◌>>◌ : (first : Exec S A) (second : Exec S B) → Exec S B
  first >> second = first >>= λ _. second

-- `for (const a of list) await body(a)`
unfoldable pub for_each : {S A : Type 0} → List A → (A → Exec S (Unit {0})) → Exec S (Unit {0})
unfolding ◌>>=◌
for_each [] body = pure tt
for_each (a ∷ rest) body = body a >>= λ _. for_each rest body

pub Result-cases :
    {A : Type 0} (r : Result A) → ((e : Fault) × (r ≡ err e)) ⊎ ((a : A) × (r ≡ ok a))
Result-cases (ok a) = inr (a, refl)
Result-cases (err e) = inl (e, refl)

module _ {S A B : Type 0} where
  resume-ok :
      (r : Result A) (f : A → Exec S B) (s : S) {b : B}
      → (resume r f s).0 ≡ ok b
      → (a : A) × (r ≡ ok a) × (resume r f s ≡ f a s)
  resume-ok (ok a) f s h = (a, refl, refl)
  resume-ok (err e) f s h = cc

  -- A bind that returns is a first action that returns and the rest from there.
  pub bind-ok :
      (m : Exec S A) (f : A → Exec S B) (s : S) {b : B}
      → ((m >>= f) s).0 ≡ ok b
      → (a : A) × ((m s).0 ≡ ok a) × ((m >>= f) s ≡ f a (m s).1)
  unfolding ◌>>=◌
  bind-ok m f s h = resume-ok (m s).0 f (m s).1 h
