-- ===== src/Identity/Tests.antt =====
-- A KYC submission at concrete inputs: all layers pass, and one that fails at a service.
use blocktic_backend.Base.{
  ◌≡◌, refl, true, false, none, some, find_by, find_id, remove_id, non_empty,
}
use blocktic_backend.Exec.{ok, ◌>>=◌}
use blocktic_backend.Entities.{Person, approved, pending}
use blocktic_backend.State.{World, State, response, transaction, put_persons}
use blocktic_backend.Identity.Layers.{
  strip_data_url_prefix, hash_document, detect_liveness, compare_faces, deduplicate_face,
}
use blocktic_backend.Identity.{
  SubmitKyc, KycSubmitResponse, holds_hash, is_other, load_person, attest, approve, run_layers,
  pipeline, submit_kyc, delete_user_data,
}
use blocktic_backend.Identity.Erasure.{face_deleted, delete_user_data-ok}
use blocktic_backend.Identity.Approval.{Passed, submit_kyc-Passed}
use blocktic_backend.Samples.{world, config, empty_db, state_of, two_tickets}

runs : Unit {0}
unfolding submit_kyc pipeline run_layers load_person approve attest strip_data_url_prefix
    detect_liveness compare_faces deduplicate_face transaction hash_document ◌>>=◌
runs = tt

abbrev submission : SubmitKyc
submission = record { id_card_image = "id"; selfie_image = "me"; consent = true; user_id = none }

abbrev start : State
start = state_of empty_db

abbrev welcome : KycSubmitResponse
welcome = record {
  user_id = "x";
  kyc_status = approved;
  message = "KYC approved. All verification layers passed.";
}

submitted : (submit_kyc world config submission none start).0 ≡ ok welcome
unfolding runs
submitted = refl

submit_kyc-Passed_example :
    (submission.consent ≡ true)
    × (p : Person) × ((load_person world config submission.user_id start).0 ≡ ok p)
    × (is_other
          (find_by
            (holds_hash (hash_document world (strip_data_url_prefix submission.id_card_image)))
            (load_person world config submission.user_id start).1.persons)
          p
        ≡ false)
    × Passed world config
        (strip_data_url_prefix submission.id_card_image)
        (strip_data_url_prefix submission.selfie_image)
        p
        (load_person world config submission.user_id start).1
submit_kyc-Passed_example =
    submit_kyc-Passed world config submission none start welcome submitted refl

-- CompreFace is down.
abbrev broken_world : World
broken_world = record world { verify_faces = λ t c. response 503 none }

abbrev unnamed : Person
unnamed = record {
  id = "x";
  person_id_hash = none;
  kyc_status = pending;
  face_embedding_ref = none;
  aa_wallet_address = none;
  kyc_attestation_tx_hash = none;
  consent_recorded_at = some 1000000;
}

erased : (delete_user_data world config "u1" two_tickets).0 ≡ ok true
unfolding delete_user_data ◌>>=◌
erased = refl

delete_user_data-ok_example :
    (p : Person) × (find_id Person.id "u1" two_tickets.persons ≡ some p)
    × (true ≡ true)
    × ((delete_user_data world config "u1" two_tickets).1
        ≡ record (put_persons (remove_id Person.id "u1" two_tickets.persons) two_tickets) {
          trace = face_deleted (non_empty p.face_embedding_ref) two_tickets.trace;
        })
    × (find_id Person.id "u1" (delete_user_data world config "u1" two_tickets).1.persons ≡ none)
delete_user_data-ok_example = delete_user_data-ok world config "u1" two_tickets true erased
