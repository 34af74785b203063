-- ===== src/Frames/People.antt =====
-- auth/auth.service.ts and identity/identity.service.ts: the tables that their operations do not
-- write.
use blocktic_backend.Base.{
  ℕ, String, true, false, ◌≡◌, refl, Bool-cases, Option, none, some, List, inl, inr, non_empty,
  Option-cases, find_by, ◌==◌, string_eq,
}
use blocktic_backend.Exec.Keeps.{Moves}
use blocktic_backend.Exec.{Fault, pure, ◌>>=◌, ◌>>◌}
use blocktic_backend.Entities.{User, Person}
use blocktic_backend.State.{
  World, Config, Db, State, App, put_users, put_persons, call, compreface_add_face, HttpReply,
  rejected, response, SubjectMatch,
}
use blocktic_backend.State.Frame.{Same, Ignores, frame_rules}
use blocktic_backend.Auth
use blocktic_backend.Frames.Chain.{create_aa_wallet-Same, mint_kyc_sbt-Same}
use blocktic_backend.Identity
use blocktic_backend.Identity.Layers

module _ {X : Type 0} (v : Db → X) where
  pub send_otp-Same : (w : World) (phone : String) → Moves (Same v) (Auth.send_otp w phone)
  unfolding Auth.send_otp
  send_otp-Same w phone = search frame_rules depth 16

  pub check_otp-Same :
      (w : World) (phone code : String) → Moves (Same v) (Auth.check_otp w phone code)
  unfolding Auth.check_otp
  check_otp-Same w phone code = search frame_rules depth 24

  module _ (w : World) where
    find_or_create-Same :
        Ignores v put_users → (phone : String) → Moves (Same v) (Auth.find_or_create w phone)
    unfolding Auth.find_or_create ◌>>=◌
    find_or_create-Same ignored phone = record {
      at = λ s. elim (Option-cases (find_by (λ (u : User). u.phone == phone) s.users)) [
        | inl missing ↦ rw (Auth.find_or_create, missing) (record { same = ignored _ s })
        | inr (u, found) ↦ rw (Auth.find_or_create, found) (record { same = refl })
      ];
    }

    pub verify_otp-Same :
        Ignores v put_users → (phone code : String) → Moves (Same v) (Auth.verify_otp w phone code)
    unfolding Auth.verify_otp
    verify_otp-Same ignored phone code =
        search (frame_rules, check_otp-Same, find_or_create-Same, ignored) depth 24

    deleted-Same : (r : HttpReply (Unit {0})) → Moves (Same v) (Layers.deleted w r)
    deleted-Same rejected = search frame_rules
    deleted-Same (response status body) = search frame_rules

    module _ (cfg : Config) where
      matched-Same : (r : HttpReply (Option ℕ)) → Moves (Same v) (Layers.matched w cfg r)
      matched-Same rejected = search frame_rules
      matched-Same (response status body) = search frame_rules depth 16

      recognized-Same :
          (r : HttpReply (List SubjectMatch)) → Moves (Same v) (Layers.recognized w cfg r)
      recognized-Same rejected = search frame_rules
      recognized-Same (response status body) = search frame_rules depth 16

      added-Same : (r : HttpReply (Unit {0})) → Moves (Same v) (Layers.added w cfg r)
      added-Same rejected = search frame_rules
      added-Same (response status body) = search frame_rules

      pub detect_liveness-Same :
          (selfie : String) → Moves (Same v) (Layers.detect_liveness w cfg selfie)
      unfolding Layers.detect_liveness
      detect_liveness-Same selfie = search frame_rules depth 16

      pub compare_faces-Same :
          (id_card selfie : String) → Moves (Same v) (Layers.compare_faces w cfg id_card selfie)
      unfolding Layers.compare_faces
      compare_faces-Same id_card selfie = search (frame_rules, matched-Same) depth 16

      registered-Same :
          (selfie person_id : String) (top : Option SubjectMatch)
          → Moves (Same v) (elim top as (λ _. App Layers.Dedup) [
            | some m ↦ pure (record { duplicate_found = true; subject_id = m.subject })
            | none ↦ (do
              registered ← call (compreface_add_face person_id selfie) w.add_face
              Layers.added w cfg registered
              pure (record { duplicate_found = false; subject_id = person_id }))
          ])
      registered-Same selfie person_id none = search (frame_rules, added-Same) depth 16
      registered-Same selfie person_id (some m) = search frame_rules

      pub deduplicate_face-Same :
          (selfie id : String) → Moves (Same v) (Layers.deduplicate_face w cfg selfie id)
      unfolding Layers.deduplicate_face
      deduplicate_face-Same selfie id =
          search (frame_rules, recognized-Same, registered-Same) depth 16

      module _ (persons : Ignores v put_persons) where
        pub attest-Same : (p : Person) → Moves (Same v) (Identity.attest w cfg p)
        unfolding Identity.attest
        attest-Same p =
            search (frame_rules, create_aa_wallet-Same, mint_kyc_sbt-Same, persons) depth 24

        pub load_person-Same : (id : Option String) → Moves (Same v) (Identity.load_person w cfg id)
        unfolding Identity.load_person
        load_person-Same id = elim (Option-cases (non_empty id)) [
          | inl missing ↦
              rw (Identity.load_person, missing) (search (frame_rules, persons) depth 16)
          | inr (i, given) ↦ rw (Identity.load_person, given) (search frame_rules depth 16)
        ]

        pub reject-Same : (p : Person) (m : String) → Moves (Same v) (Identity.reject p m)
        reject-Same p m = search (frame_rules, persons) depth 16

        pub give_up-Same : (p : Person) (e : Fault) → Moves (Same v) (Identity.give_up w cfg p e)
        give_up-Same p e = search (frame_rules, persons) depth 16

        module _ (users : Ignores v put_users) where
          link_user-Same :
              (user : Option String) (p : Person) (s : State)
              → v (Identity.link_user user p s).db ≡ v s.db
          link_user-Same none p s = refl
          link_user-Same (some user) p s = elim (Bool-cases (user == "")) [
            | inl empty ↦ rw empty refl
            | inr given ↦ rw given (users _ s)
          ]

          approve-Same :
              (user : Option String) (p : Person) → Moves (Same v) (Identity.approve w cfg user p)
          unfolding Identity.approve
          approve-Same user p = search (frame_rules, persons, attest-Same, link_user-Same) depth 24

          run_layers-Same :
              (id_card selfie : String) (user : Option String) (p : Person)
              → Moves (Same v) (Identity.run_layers w cfg id_card selfie user p)
          unfolding Identity.run_layers
          run_layers-Same id_card selfie user p =
              search
                (
                  frame_rules, detect_liveness-Same, compare_faces-Same, deduplicate_face-Same,
                  reject-Same, approve-Same,
                )
                depth 32

          pipeline-Same :
              (id_card selfie : String) (user : Option String) (p : Person)
              → Moves (Same v) (Identity.pipeline w cfg id_card selfie user p)
          unfolding Identity.pipeline
          pipeline-Same id_card selfie user p =
              search (frame_rules, reject-Same, run_layers-Same) depth 24

          pub submit_kyc-Same :
              (dto : Identity.SubmitKyc) (user : Option String)
              → Moves (Same v) (Identity.submit_kyc w cfg dto user)
          unfolding Identity.submit_kyc
          submit_kyc-Same dto user =
              search (frame_rules, load_person-Same, pipeline-Same, give_up-Same) depth 24

        delete_face-Same :
            (subject : Option String)
            → Moves (Same v) (Layers.delete_face_from_compreface w subject)
        unfolding Layers.delete_face_from_compreface
        delete_face-Same none = search frame_rules
        delete_face-Same (some subject) = search (frame_rules, deleted-Same) depth 16

        pub delete_user_data-Same :
            (id : String) → Moves (Same v) (Identity.delete_user_data w cfg id)
        unfolding Identity.delete_user_data
        delete_user_data-Same id = search (frame_rules, delete_face-Same, persons) depth 24

  pub register-Same :
      Ignores v put_users
      → (id name nickname : String) → Moves (Same v) (Auth.register id name nickname)
  unfolding Auth.register
  register-Same users id name nickname = search (frame_rules, users) depth 24
