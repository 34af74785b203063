-- ===== src/State/Frame.antt =====
-- What an action leaves alone, whether it returns or throws: a view of the database.
use blocktic_backend.Base.{◌≡◌, refl, ◌∙◌, inl, inr, List}
use blocktic_backend.Exec.{modify, ◌>>=◌, Result-cases}
use blocktic_backend.Exec.Keeps.{Moves, IsPreorder, moves_rules}
use blocktic_backend.State.Calls.{Call, Trace}
use blocktic_backend.State.Actions.{Db, State, App, call, transaction}

pub record Same {X : Type 0} (v : Db → X) (s t : State) : Type 0 where
  pub same : v t.db ≡ v s.db

module _ {X : Type 0} (v : Db → X) where
  pub Same-IsPreorder : IsPreorder (Same v)
  Same-IsPreorder = record {
    same = λ s. record { same = refl };
    chain = λ s t u a b. record { same = b.same ∙ a.same };
  }

  pub Same-modify :
      (f : State → State) → ((s : State) → v (f s).db ≡ v s.db) → Moves (Same v) (modify f)
  unfolding ◌>>=◌
  Same-modify f h = record { at = λ s. record { same = h s } }

  pub Same-call :
      {A : Type 0} (c : Call) (answer : Trace → Call → A) → Moves (Same v) (call c answer)
  unfolding call
  Same-call c answer = record { at = λ s. record { same = refl } }

  pub Same-transaction :
      {A : Type 0} (m : App A) → Moves (Same v) m → Moves (Same v) (transaction m)
  unfolding transaction
  Same-transaction m h = record {
    at = λ s. record {
      same = elim (Result-cases (m s).0) [
        | inl (e, failed) ↦ rw failed refl
        | inr (a, done) ↦ rw done (h.at s).same
      ];
    };
  }

-- A write to a table that the view does not read.
abbrev pub Ignores : {X A : Type 0} → (Db → X) → (List A → State → State) → Type 0
Ignores {A = A} v put = (rows : List A) (s : State) → v (put rows s).db ≡ v s.db

pub ruleset frame_rules = (moves_rules, Same-IsPreorder, Same-modify, Same-call, Same-transaction)
