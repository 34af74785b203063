-- ===== src/Exec/Keeps.antt =====
-- What an action keeps whether it returns or throws, one rule for each way to build an action.
use blocktic_backend.Base.{All, Bool, true, false, if◌then◌else◌, Option, none, some, List, [], ◌∷◌}
use blocktic_backend.Exec.{
  Fault, Result, ok, err, Exec, pure, throw, gets, try_catch, or_throw, throw_if, ◌>>=◌, for_each,
  recover, resume,
}

-- `R` relates the state before `m` to the state after it.
pub record Moves {S A : Type 0} (R : S → S → Type 0) (m : Exec S A) : Type 0 where
  pub at : (s : S) → R s (m s).1

-- An action moves by a preorder where its parts do.
pub record IsPreorder {S : Type 0} (R : S → S → Type 0) : Type 0 where
  pub same : (s : S) → R s s
  pub chain : (s t u : S) → R s t → R t u → R s u

module _ {S : Type 0} {R : S → S → Type 0} (o : IsPreorder R) where
  module _ {A : Type 0} where
    pub Moves-pure : (a : A) → Moves R (pure {S = S} a)
    unfolding ◌>>=◌
    Moves-pure a = record { at = λ s. o.same s }

    pub Moves-throw : (e : Fault) → Moves R (throw {S = S} {A = A} e)
    unfolding ◌>>=◌
    Moves-throw e = record { at = λ s. o.same s }

    pub Moves-gets : (f : S → A) → Moves R (gets f)
    unfolding ◌>>=◌
    Moves-gets f = record { at = λ s. o.same s }

    pub Moves-or_throw : (x : Option A) (e : Fault) → Moves R (or_throw {S = S} x e)
    unfolding ◌>>=◌
    Moves-or_throw none e = record { at = λ s. o.same s }
    Moves-or_throw (some a) e = record { at = λ s. o.same s }

    pub Moves-if :
        (b : Bool) (m n : Exec S A) → Moves R m → Moves R n → Moves R (if b then m else n)
    Moves-if true m n km kn = km
    Moves-if false m n km kn = kn

    recover-Moves :
        (r : Result A) (h : Fault → Exec S A) (s t : S)
        → ((e : Fault) → Moves R (h e))
        → R s t
        → R s (recover r h t).1
    recover-Moves (ok a) h s t kh st = st
    recover-Moves (err e) h s t kh st = o.chain s t _ st ((kh e).at t)

    pub Moves-try_catch :
        (m : Exec S A) (h : Fault → Exec S A)
        → Moves R m
        → ((e : Fault) → Moves R (h e))
        → Moves R (try_catch m h)
    unfolding ◌>>=◌
    Moves-try_catch m h km kh = record {
      at = λ s. let (r, t) = m s in recover-Moves r h s t kh (km.at s);
    }

  pub Moves-throw_if : (b : Bool) (e : Fault) → Moves R (throw_if {S = S} b e)
  unfolding ◌>>=◌
  Moves-throw_if true e = record { at = λ s. o.same s }
  Moves-throw_if false e = record { at = λ s. o.same s }

  module _ {A B : Type 0} where
    resume-Moves :
        (r : Result A) (f : A → Exec S B) (s t : S)
        → ((a : A) → Moves R (f a))
        → R s t
        → R s (resume r f t).1
    resume-Moves (ok a) f s t kf st = o.chain s t _ st ((kf a).at t)
    resume-Moves (err e) f s t kf st = st

    pub Moves-bind :
        (m : Exec S A) (f : A → Exec S B)
        → Moves R m
        → ((a : A) → Moves R (f a))
        → Moves R (m >>= f)
    unfolding ◌>>=◌
    Moves-bind m f km kf = record {
      at = λ s. let (r, t) = m s in resume-Moves r f s t kf (km.at s);
    }

  pub Moves-for_each :
      {A : Type 0} (l : List A) (body : A → Exec S (Unit {0}))
      → ((a : A) → Moves R (body a))
      → Moves R (for_each l body)
  unfolding for_each
  Moves-for_each [] body k = Moves-pure tt
  Moves-for_each (a ∷ l) body k =
      Moves-bind (body a) (λ _. for_each l body) (k a) (λ _. Moves-for_each l body k)

  pub Moves-for_each-All :
      {A : Type 0} (l : List A) (body : A → Exec S (Unit {0}))
      → All (λ a. Moves R (body a)) l
      → Moves R (for_each l body)
  unfolding for_each
  Moves-for_each-All [] body k = Moves-pure tt
  Moves-for_each-All (a ∷ l) body k =
      Moves-bind (body a) (λ _. for_each l body) k.0 (λ _. Moves-for_each-All l body k.1)

pub ruleset moves_rules = (
  Moves-pure, Moves-throw, Moves-gets, Moves-or_throw, Moves-throw_if, Moves-try_catch, Moves-bind,
  Moves-if, Moves-for_each,
)
