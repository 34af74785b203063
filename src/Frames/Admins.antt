-- ===== src/Frames/Admins.antt =====
-- The roles of users under auth/auth.service.ts and identity/identity.service.ts.
use blocktic_backend.Base.{
  ◌≡◌, ◌≢◌, refl, sym, ◌∙◌, String, Bool, Option, none, some, some_inj, some≢none, update_where,
  subst, truthy, List, ◌==◌, string_eq, Option-cases, Bool-cases, inl, inr, find_id, save,
  find_id-save, find_id-update_where, find_by, key-find_id, eq_iff,
}
use blocktic_backend.Exec.{Result-cases, modify, ◌>>=◌}
use blocktic_backend.Exec.Keeps.{Moves, IsPreorder, moves_rules}
use blocktic_backend.Entities.{User, Person, Role, admin}
use blocktic_backend.State.{World, Config, Db, State, App, transaction}
use blocktic_backend.State.Frame.{Same, Same-modify}
use blocktic_backend.Auth
use blocktic_backend.Identity
use blocktic_backend.Frames.People.{
  check_otp-Same, load_person-Same, attest-Same, reject-Same, give_up-Same, detect_liveness-Same,
  compare_faces-Same, deduplicate_face-Same,
}

-- Every admin of the later state is one of the earlier.
pub record NoNewAdmin (s s' : State) : Type 0 where
  pub before :
      (k : String) (u' : User)
      → find_id User.id k s'.users ≡ some u'
      → u'.role ≡ admin
      → (u : User) × (find_id User.id k s.users ≡ some u) × (u.role ≡ admin)

pub NoNewAdmin-IsPreorder : IsPreorder NoNewAdmin
NoNewAdmin-IsPreorder = record {
  same = λ s. record { before = λ k u e h. (u, e, h) };
  chain = λ a b c p q. record {
    before = λ k u e h. let (v, e', h') = q.before k u e h in p.before k v e' h';
  };
}

pub NoNewAdmin-same : (s s' : State) → s'.users ≡ s.users → NoNewAdmin s s'
NoNewAdmin-same s s' same = record { before = λ k u e h. (u, rw (← same) e, h) }

pub NoNewAdmin-Same : {A : Type 0} (m : App A) → Moves (Same Db.users) m → Moves NoNewAdmin m
NoNewAdmin-Same m h = record { at = λ s. NoNewAdmin-same s _ ((h.at s).same) }

NoNewAdmin-transaction :
    {A : Type 0} (m : App A) → Moves NoNewAdmin m → Moves NoNewAdmin (transaction m)
unfolding transaction
NoNewAdmin-transaction m h = record {
  at = λ s. elim (Result-cases (m s).0) [
    | inl (e, failed) ↦ rw failed (NoNewAdmin-same s _ refl)
    | inr (a, done) ↦ rw done (h.at s)
  ];
}

user≢admin : Role.user ≢ Role.admin
user≢admin e = cc

-- A row saved for a user without that role, or over a row with the same role.
save-NoNewAdmin :
    (u : User) (s : State)
    → (u.role ≡ admin → (v : User) × (find_id User.id u.id s.users ≡ some v) × (v.role ≡ admin))
    → NoNewAdmin s (record s { db = record s.db { users = save User.id u s.users } })
save-NoNewAdmin u s old = record {
  before = λ k u' e h. elim (Bool-cases (u.id == k)) [
    | inl hit ↦
        let same : u ≡ u' = some_inj (rw (find_id-save User.id k u s.users, hit) at e) in
        rw (← (eq_iff u.id k).0 hit) (old (rw same h))
    | inr miss ↦ (u', rw (find_id-save User.id k u s.users, miss) at e, h)
  ];
}

module _ (w : World) where
  find_or_create-NoNewAdmin : (phone : String) → Moves NoNewAdmin (Auth.find_or_create w phone)
  unfolding Auth.find_or_create ◌>>=◌
  find_or_create-NoNewAdmin phone = record {
    at = λ s. elim (Option-cases (find_by (λ (u : User). u.phone == phone) s.users)) [
      | inl missing ↦
          rw (Auth.find_or_create, missing)
            (save-NoNewAdmin (Auth.new_user w phone s) s (λ e. absurd (user≢admin e)))
      | inr (u, found) ↦ rw (Auth.find_or_create, found) (NoNewAdmin-same s s refl)
    ];
  }

  pub verify_otp-NoNewAdmin :
      (phone code : String) → Moves NoNewAdmin (Auth.verify_otp w phone code)
  unfolding Auth.verify_otp
  verify_otp-NoNewAdmin phone code =
      search
        (
          NoNewAdmin-IsPreorder, moves_rules, NoNewAdmin-Same, check_otp-Same,
          find_or_create-NoNewAdmin,
        )
        depth 24

pub register-NoNewAdmin :
    (id name nickname : String) → Moves NoNewAdmin (Auth.register id name nickname)
unfolding Auth.register ◌>>=◌
register-NoNewAdmin id name nickname = record {
  at = λ s. elim (Option-cases (find_id User.id id s.users)) [
    | inl missing ↦ rw (Auth.register, missing) (NoNewAdmin-same s s refl)
    | inr (u, found) ↦ elim (Bool-cases (truthy u.name)) [
      | inl twice ↦ rw (Auth.register, found, twice) (NoNewAdmin-same s s refl)
      | inr first ↦
          rw (Auth.register, found, first)
            (save-NoNewAdmin (record u { name = some name; nickname = some nickname }) s
              (λ e. (
                u,
                subst (λ key. find_id User.id key s.users ≡ some u)
                    (sym (key-find_id User.id id s.users u found)) found,
                e,
              )))
    ]
  ];
}

-- An update that writes neither the keys nor the roles.
update-NoNewAdmin :
    (p : User → Bool) (f : User → User) (s : State)
    → ((u : User) → (f u).id ≡ u.id)
    → ((u : User) → (f u).role ≡ u.role)
    → NoNewAdmin s (record s { db = record s.db { users = update_where p f s.users } })
update-NoNewAdmin p f s ids roles = record {
  before = λ k u' e h.
      let row = sym (find_id-update_where User.id p f ids k s.users) ∙ e in
      elim (Option-cases (find_id User.id k s.users)) [
        | inl missing ↦ absurd (some≢none (sym (rw (missing) at row)))
        | inr (u, found) ↦ elim (Bool-cases (p u)) [
          | inl hit ↦
              let same : f u ≡ u' = some_inj (rw (found, hit) at row) in
              (u, found, sym (roles u) ∙ rw same h)
          | inr miss ↦
              let same : u ≡ u' = some_inj (rw (found, miss) at row) in (u, found, rw same h)
        ]
      ];
}

link_user-NoNewAdmin :
    (id : Option String) (p : Person) → Moves NoNewAdmin (modify (Identity.link_user id p))
unfolding ◌>>=◌
link_user-NoNewAdmin none p = record { at = λ s. NoNewAdmin-same s s refl }
link_user-NoNewAdmin (some id) p = record {
  at = λ s. elim (Bool-cases (id == "")) [
    | inl empty ↦ rw (Identity.link_user, empty) (NoNewAdmin-same s s refl)
    | inr given ↦
        rw (Identity.link_user, given)
          (update-NoNewAdmin (λ u. u.id == id) (λ u. record u { person_id = some p.id }) s
            (λ u. refl) (λ u. refl))
  ];
}

module _ (w : World) (cfg : Config) where
  approve-NoNewAdmin :
      (id : Option String) (p : Person) → Moves NoNewAdmin (Identity.approve w cfg id p)
  unfolding Identity.approve
  approve-NoNewAdmin id p =
      search
        (
          NoNewAdmin-IsPreorder,
          moves_rules,
          Same-modify,
          NoNewAdmin-Same,
          attest-Same,
          link_user-NoNewAdmin,
          λ (rows : List Person) (s : State). refl {a = s.db.users},
        )
        depth 24

  run_layers-NoNewAdmin :
      (card selfie : String) (id : Option String) (p : Person)
      → Moves NoNewAdmin (Identity.run_layers w cfg card selfie id p)
  unfolding Identity.run_layers
  run_layers-NoNewAdmin card selfie id p =
      search
        (
          NoNewAdmin-IsPreorder,
          moves_rules,
          NoNewAdmin-Same,
          detect_liveness-Same,
          compare_faces-Same,
          deduplicate_face-Same,
          reject-Same,
          approve-NoNewAdmin,
          λ (rows : List Person) (s : State). refl {a = s.db.users},
        )
        depth 32

  pipeline-NoNewAdmin :
      (card selfie : String) (id : Option String) (p : Person)
      → Moves NoNewAdmin (Identity.pipeline w cfg card selfie id p)
  unfolding Identity.pipeline
  pipeline-NoNewAdmin card selfie id p =
      search
        (
          NoNewAdmin-IsPreorder,
          moves_rules,
          NoNewAdmin-Same,
          reject-Same,
          run_layers-NoNewAdmin,
          λ (rows : List Person) (s : State). refl {a = s.db.users},
        )
        depth 24

  pub submit_kyc-NoNewAdmin :
      (dto : Identity.SubmitKyc) (id : Option String)
      → Moves NoNewAdmin (Identity.submit_kyc w cfg dto id)
  unfolding Identity.submit_kyc
  submit_kyc-NoNewAdmin dto id =
      search
        (
          NoNewAdmin-IsPreorder,
          moves_rules,
          NoNewAdmin-transaction,
          NoNewAdmin-Same,
          load_person-Same,
          pipeline-NoNewAdmin,
          give_up-Same,
          λ (rows : List Person) (s : State). refl {a = s.db.users},
        )
        depth 24
