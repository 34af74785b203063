-- ===== src/Identity/Approval.antt =====
-- identity/identity.service.ts, submitKyc: what an error leaves behind, and what an approval proves.
use blocktic_backend.Base.{
  String, ◌≡◌, ◌≢◌, refl, sym, ap, ◌∙◌, Bool, true, false, not, Option, some, find_by, inl, inr,
  arith, if◌then◌else◌,
}
use blocktic_backend.Exec.{Fault, Result-cases, ok, err, throw_if, bind-ok, try_catch, ◌>>=◌}
use blocktic_backend.Entities.{Person, approved, id_verified}
use blocktic_backend.State.{World, Config, State, App, transaction}
use blocktic_backend.Identity.Layers.{
  strip_data_url_prefix, hash_document, detect_liveness, compare_faces, Dedup, deduplicate_face,
}
use blocktic_backend.Identity.{
  SubmitKyc, KycSubmitResponse, reject, holds_hash, is_other, load_person, run_layers, pipeline,
  give_up, submit_kyc,
}

module _ {A : Type 0} (m : App A) (s : State) where
  transaction-ok : (a : A) → (transaction m s).0 ≡ ok a → (m s).0 ≡ ok a
  unfolding transaction
  transaction-ok a h = elim (Result-cases (m s).0) [
    | inl (f, failed) ↦ absurd (err≢ok (rw (failed) at h))
    | inr (b, done) ↦ done ∙ rw (done) at h
  ]
    where
      err≢ok : {f : Fault} → err f ≢ ok a
      err≢ok h = cc

module _ (w : World) (cfg : Config) where
  -- The transaction's body.
  abbrev pub body : SubmitKyc → Option String → App KycSubmitResponse
  body dto auth_user_id = load_person w cfg dto.user_id >>= λ person.
      try_catch
        (pipeline w cfg (strip_data_url_prefix dto.id_card_image)
          (strip_data_url_prefix dto.selfie_image) auth_user_id person)
        (give_up w cfg person)

  -- The layers, in the `try`.
  abbrev pub layers : SubmitKyc → Option String → Person → App KycSubmitResponse
  layers dto auth_user_id p =
      pipeline w cfg (strip_data_url_prefix dto.id_card_image)
        (strip_data_url_prefix dto.selfie_image) auth_user_id p

  -- What the layers found, each in the state that the one before left.
  pub record Passed (id_card selfie : String) (p : Person) (s : State) : Type 0 where
    pub live : (detect_liveness w cfg selfie s).0 ≡ ok true
    pub match : (compare_faces w cfg id_card selfie (detect_liveness w cfg selfie s).1).0 ≡ ok true
    pub dedup : Dedup
    pub searched :
        (deduplicate_face w cfg selfie p.id
          (compare_faces w cfg id_card selfie (detect_liveness w cfg selfie s).1).1).0
        ≡ ok dedup
    pub new_face : dedup.duplicate_found ≡ false

  reject-status :
      (p : Person) (message : String) (s : State) (r : KycSubmitResponse)
      → (reject p message s).0 ≡ ok r
      → r.kyc_status ≢ approved
  unfolding ◌>>=◌
  reject-status p message s r h e = ground arith

  -- The branch that is taken where a test rejects.
  if-approved :
      (test : Bool) (p : Person) (message : String) (m : App KycSubmitResponse) (s : State)
      (r : KycSubmitResponse)
      → ((if test then reject p message else m) s).0 ≡ ok r
      → r.kyc_status ≡ approved
      → (test ≡ false) × ((m s).0 ≡ ok r)
  if-approved true p message m s r h e = absurd (reject-status p message s r h e)
  if-approved false p message m s r h e = (refl, h)

  module _ (id_card selfie : String) (auth_user_id : Option String) (p : Person) where
    run_layers-Passed :
        (s : State) (r : KycSubmitResponse)
        → (run_layers w cfg id_card selfie auth_user_id p s).0 ≡ ok r
        → r.kyc_status ≡ approved
        → Passed id_card selfie p s
    unfolding run_layers
    run_layers-Passed s r h e =
        let (live, live_ok, step1) = bind-ok (detect_liveness w cfg selfie) _ s h in
        let (alive, h1) = if-approved (not live) p _ _ _ r (sym (ap (λ x. x.0) step1) ∙ h) e in
        let (match, match_ok, step2) = bind-ok (compare_faces w cfg id_card selfie) _ _ h1 in
        let (same_face, h2) =
          if-approved (not match) p _ _ _ r (sym (ap (λ x. x.0) step2) ∙ h1) e in
        let (dedup, searched, step3) = bind-ok (deduplicate_face w cfg selfie p.id) _ _ h2 in
        let (new, _) =
          if-approved dedup.duplicate_found p _ _ _ r (sym (ap (λ x. x.0) step3) ∙ h2) e in
        record {
          live = live_ok ∙ ap ok (is_true live alive);
          match = match_ok ∙ ap ok (is_true match same_face);
          dedup = dedup;
          searched = searched;
          new_face = new;
        }
      where
        is_true : (b : Bool) → not b ≡ false → b ≡ true
        is_true b h = ground arith

  pipeline-Passed :
      (id_card selfie : String) (auth_user_id : Option String) (p : Person) (s : State)
      (r : KycSubmitResponse)
      → (pipeline w cfg id_card selfie auth_user_id p s).0 ≡ ok r
      → r.kyc_status ≡ approved
      → (is_other (find_by (holds_hash (hash_document w id_card)) s.persons) p ≡ false)
        × Passed id_card selfie p s
  unfolding pipeline ◌>>=◌
  pipeline-Passed id_card selfie auth_user_id p s r h e =
      let verified = record p {
        person_id_hash = some (hash_document w id_card);
        kyc_status = id_verified;
      } in
      let (own, h1) =
        if-approved (is_other (find_by (holds_hash (hash_document w id_card)) s.persons) p) p _
          (run_layers w cfg id_card selfie auth_user_id verified) s r h e in
      let passed = run_layers-Passed id_card selfie auth_user_id verified s r h1 e in
      (
        own,
        record {
          live = passed.live;
          match = passed.match;
          dedup = passed.dedup;
          searched = passed.searched;
          new_face = passed.new_face;
        },
      )

  try_catch-ok :
      (m : App KycSubmitResponse) (p : Person) (s : State) (r : KycSubmitResponse)
      → (try_catch m (give_up w cfg p) s).0 ≡ ok r
      → (m s).0 ≡ ok r
  unfolding ◌>>=◌
  try_catch-ok m p s r h = elim (Result-cases (m s).0) [
    | inl (f, failed) ↦ absurd (err≢ok (rw (failed) at h))
    | inr (a, done) ↦ done ∙ rw (done) at h
  ]
    where
      err≢ok : {f : Fault} → err f ≢ ok r
      err≢ok h = cc

  consented :
      (consent : Bool) (fault : Fault) (m : App KycSubmitResponse) (s : State)
      (r : KycSubmitResponse)
      → ((throw_if (not consent) fault >>= λ _. m) s).0 ≡ ok r
      → (consent ≡ true) × ((m s).0 ≡ ok r)
  unfolding ◌>>=◌
  consented true fault m s r h = (refl, h)
  consented false fault m s r h = absurd (err≢ok h)
    where
      err≢ok : err fault ≢ ok r
      err≢ok h = cc

  -- A submission that is approved had the user's consent, and its person, loaded or new, has passed
  -- the four layers: no other person has the document's hash, the selfie was found to be live, it
  -- matches the document's face, and the search among the known faces found no duplicate.
  pub submit_kyc-Passed :
      (dto : SubmitKyc) (auth_user_id : Option String) (s : State) (r : KycSubmitResponse)
      → (submit_kyc w cfg dto auth_user_id s).0 ≡ ok r
      → r.kyc_status ≡ approved
      → (dto.consent ≡ true)
        × (p : Person) × ((load_person w cfg dto.user_id s).0 ≡ ok p)
        × (is_other
              (find_by
                (holds_hash (hash_document w (strip_data_url_prefix dto.id_card_image)))
                (load_person w cfg dto.user_id s).1.persons)
              p
            ≡ false)
        × Passed
            (strip_data_url_prefix dto.id_card_image)
            (strip_data_url_prefix dto.selfie_image)
            p
            (load_person w cfg dto.user_id s).1
  unfolding submit_kyc
  submit_kyc-Passed dto auth_user_id s r h e =
      let (agreed, h1) = consented dto.consent _ (transaction (body dto auth_user_id)) s r h in
      let h2 = transaction-ok (body dto auth_user_id) s r h1 in
      let (p, loaded, step) = bind-ok (load_person w cfg dto.user_id) _ s h2 in
      let s1 = (load_person w cfg dto.user_id s).1 in
      let h3 =
        try_catch-ok
          (pipeline w cfg (strip_data_url_prefix dto.id_card_image)
            (strip_data_url_prefix dto.selfie_image) auth_user_id p)
          p s1 r (sym (ap (λ x. x.0) step) ∙ h2) in
      let (own, passed) = pipeline-Passed _ _ auth_user_id p s1 r h3 e in
      (agreed, p, loaded, own, passed)
