-- ===== src/Identity.antt =====
-- identity/identity.service.ts: the KYC submission with its four layers, and the deletion of a
-- person's data. The calls of the layers are in Identity/Layers.antt.
pub mod Layers
pub mod Approval
pub mod Erasure
pub mod Tests
use blocktic_backend.Base.{
  ℕ, String, Bool, true, false, not, ◌&&◌, Option, none, some, List, ◌<>◌, ◌==◌, string_eq,
  if◌then◌else◌, find_by, find_id, save, remove_id, update_where, map, truthy, non_empty,
}
use blocktic_backend.Exec.{
  Fault, bad_request, not_found, pure, throw, gets, modify, throw_if, or_throw, try_catch, ◌>>=◌,
  ◌>>◌,
}
use blocktic_backend.Entities.{
  User, Person, KycStatus, pending, id_verified, liveness_passed, face_matched, approved, rejected,
}
use blocktic_backend.State.{World, Config, State, App, put_persons, put_users, transaction}
use blocktic_backend.Blockchain.{create_aa_wallet, mint_kyc_sbt}
use Layers.{
  strip_data_url_prefix, hash_document, detect_liveness, compare_faces, Dedup, deduplicate_face,
  delete_face_from_compreface,
}

abbrev pub kyc_attestation_token_id : ℕ
kyc_attestation_token_id = 1

-- dto/submit-kyc.dto.ts
pub record SubmitKyc : Type 0 where
  pub id_card_image : String
  pub selfie_image : String
  pub consent : Bool
  pub user_id : Option String

-- dto/kyc-status.dto.ts
pub record KycSubmitResponse : Type 0 where
  pub user_id : String
  pub kyc_status : KycStatus
  pub message : String

abbrev pub build_response : Person → String → KycSubmitResponse
build_response p message = record { user_id = p.id; kyc_status = p.kyc_status; message = message }

abbrev pub save_person : Person → State → State
save_person p s = put_persons (save Person.id p s.persons) s

-- `userRepo.update(authUserId, { personId })`
abbrev pub link_user : Option String → Person → State → State
link_user none p s = s
link_user (some user) p s =
    if user == ""
    then s
    else put_users
        (update_where (λ (u : User). u.id == user) (λ u. record u { person_id = some p.id })
          s.users)
        s

-- The rejection that a layer decides.
abbrev pub reject : Person → String → App KycSubmitResponse
reject p message =
    let p' = record p { kyc_status = rejected } in
    modify (save_person p') >>= λ _. pure (build_response p' message)

abbrev pub holds_hash : String → Person → Bool
holds_hash hash p = elim p.person_id_hash [ none ↦ false | some h ↦ h == hash ]

-- `duplicate && duplicate.id !== person.id`
abbrev pub is_other : Option Person → Person → Bool
is_other none p = false
is_other (some q) p = not (q.id == p.id)

module _ (w : World) (cfg : Config) where
  abbrev pub new_person : State → Person
  new_person s = record {
    id = w.new_id (map Person.id s.persons);
    person_id_hash = none;
    kyc_status = pending;
    face_embedding_ref = none;
    aa_wallet_address = none;
    kyc_attestation_tx_hash = none;
    consent_recorded_at = some (w.now s.trace);
  }

  unfoldable pub load_person : Option String → App Person
  load_person user_id = elim (non_empty user_id) as (λ _. App Person) [
    | some id ↦ (do
      found ← gets (λ s. find_id Person.id id s.persons)
      or_throw found (not_found ("Person with id " <> id <> " not found.")))
    | none ↦ (do p ← gets new_person; modify (save_person p); pure p)
  ]

  -- The wallet and the KYC token of a person that has passed; a failure is only logged.
  -- `person.aaWalletAddress` is set before the minting, so a failing one leaves it in the object.
  unfoldable pub attest : Person → App (Unit {0})
  unfolding create_aa_wallet mint_kyc_sbt ◌>>=◌
  attest p =
      try_catch
        (do
          wallet ← create_aa_wallet w cfg p.id
          tx ← mint_kyc_sbt w cfg wallet.wallet_address kyc_attestation_token_id
          modify (
              save_person (record p {
                aa_wallet_address = some wallet.wallet_address;
                kyc_attestation_tx_hash = some tx;
              })))
        (λ _. pure tt)

  -- The end of the pipeline: layer 4 has found no duplicate.
  unfoldable pub approve : (auth_user_id : Option String) → Person → App KycSubmitResponse
  unfolding attest
  approve auth_user_id p = do
    let p' = record p { kyc_status = approved }
    modify (save_person p')
    attest p'
    modify (link_user auth_user_id p')
    pure (build_response p' "KYC approved. All verification layers passed.")

  -- Layers 2 to 4, of a person whose document is new.
  unfoldable pub run_layers :
      (id_card selfie : String) → (auth_user_id : Option String) → Person → App KycSubmitResponse
  unfolding detect_liveness compare_faces deduplicate_face approve ◌>>=◌
  run_layers id_card selfie auth_user_id p = do
    is_live ← detect_liveness w cfg selfie
    if not is_live then reject p "Rejected: liveness check failed." else do
      is_match ← compare_faces w cfg id_card selfie
      if not is_match then reject p "Rejected: selfie does not match ID document photo." else do
        dedup ← deduplicate_face w cfg selfie p.id
        if dedup.duplicate_found
            then reject p "Rejected: face already registered under another account."
            else approve auth_user_id (record p { face_embedding_ref = some dedup.subject_id })

  -- The body of the `try`.
  unfoldable pub pipeline :
      (id_card selfie : String) → (auth_user_id : Option String) → Person → App KycSubmitResponse
  unfolding run_layers hash_document
  pipeline id_card selfie auth_user_id p = do
    let hash = hash_document w id_card
    duplicate ← gets (λ s. find_by (holds_hash hash) s.persons)
    if is_other duplicate p
        then reject p "Rejected: duplicate ID document detected."
        else run_layers id_card selfie auth_user_id
            (record p { person_id_hash = some hash; kyc_status = id_verified })

  -- The `catch`: the person is marked as rejected and the error thrown again.
  abbrev pub give_up : Person → Fault → App KycSubmitResponse
  give_up p e = modify (save_person (record p { kyc_status = rejected })) >>= λ _. throw e

  unfoldable pub submit_kyc : SubmitKyc → (auth_user_id : Option String) → App KycSubmitResponse
  unfolding load_person pipeline transaction
  submit_kyc dto auth_user_id = do
    throw_if (not dto.consent)
        (bad_request "User must explicitly consent to biometric data processing.")
    let id_card = strip_data_url_prefix dto.id_card_image
    let selfie = strip_data_url_prefix dto.selfie_image
    transaction (do
      person ← load_person dto.user_id
      try_catch (pipeline id_card selfie auth_user_id person) (give_up person))

  unfoldable pub delete_user_data : (user_id : String) → App Bool
  unfolding delete_face_from_compreface
  delete_user_data user_id = do
    found ← gets (λ s. find_id Person.id user_id s.persons)
    person ← or_throw found (not_found ("Person with id " <> user_id <> " not found."))
    delete_face_from_compreface w (non_empty person.face_embedding_ref)
    modify (λ s. put_persons (remove_id Person.id user_id s.persons) s)
    pure true
