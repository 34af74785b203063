-- ===== src/Identity/Layers.antt =====
-- identity/identity.service.ts, the private helpers: the prefix of a data URL, and the calls of
-- Rekognition and CompreFace with what each of them decides. Confidences and qualities are numbers
-- of hundredths, similarities of ten-thousandths.
use Prim.Native.Char.{code}
use text.Mathlib.Text.{starts_with}
use blocktic_backend.Base.{
  ℕ, String, Bool, true, false, not, ◌&&◌, Option, none, some, List, [], ◌∷◌, ◌==◌, nat_eq,
  if◌then◌else◌, ltb, leb, get_or,
}
use blocktic_backend.Exec.{internal, failure, pure, throw, throw_if, or_throw, ◌>>=◌, ◌>>◌}
use blocktic_backend.State.{
  World, Config, App, call, HttpReply, rejected, response, is_ok, EyesOpen, FaceDetail,
  SubjectMatch, rekognition_detect_faces, compreface_verify, compreface_recognize,
  compreface_add_face, compreface_delete_face,
}

-- `s.slice(s.indexOf(',') + 1)`; none where there is no comma
abbrev pub past_comma : String → Option String
past_comma String.[] = none
past_comma (String.◌∷◌ c s) = let later = past_comma s in if code c == b',' then some s else later

unfoldable pub strip_data_url_prefix : String → String
strip_data_url_prefix image = elim (past_comma image) [
  | none ↦ image
  | some rest ↦ if starts_with image "data:" then rest else image
]

-- `face.EyesOpen?.Value === true && (face.EyesOpen?.Confidence ?? 0) > 80`
abbrev pub eyes_are_open : Option EyesOpen → Bool
eyes_are_open none = false
eyes_are_open (some e) = e.value && ltb 8000 (get_or e.confidence 0)

abbrev pub is_live_face : Config → FaceDetail → Bool
is_live_face cfg f =
    ltb cfg.liveness_confidence_threshold (get_or f.confidence 0)
    && ltb cfg.liveness_sharpness_threshold (get_or f.sharpness 0)
    && ltb cfg.liveness_brightness_threshold (get_or f.brightness 0)
    && eyes_are_open f.eyes_open

-- Exactly one face, which passes.
abbrev pub is_live_response : Config → List FaceDetail → Bool
is_live_response cfg [] = false
is_live_response cfg (f ∷ []) = is_live_face cfg f
is_live_response cfg (f ∷ g ∷ rest) = false

pub record Dedup : Type 0 where
  pub duplicate_found : Bool
  pub subject_id : String

module _ (w : World) where
  unfoldable pub hash_document : String → String
  hash_document image = w.sha256 image

  module _ (cfg : Config) where
    unfoldable pub detect_liveness : (selfie : String) → App Bool
    unfolding call
    detect_liveness selfie = if not cfg.has_rekognition then pure true else (do
      reply ← call (rekognition_detect_faces selfie) w.detect_faces
      faces ← or_throw reply (failure "rekognition")
      pure (is_live_response cfg (get_or faces [])))

    abbrev pub matched : HttpReply (Option ℕ) → App Bool
    matched rejected = throw (failure "fetch")
    matched (response status similarity) =
        throw_if (not (is_ok status)) (internal "Face comparison service unavailable.") >>= λ _.
        pure (leb cfg.face_match_threshold (get_or similarity 0))

    unfoldable pub compare_faces : (id_card selfie : String) → App Bool
    unfolding call
    compare_faces id_card selfie = do
      reply ← call (compreface_verify id_card selfie) w.verify_faces
      matched reply

    -- The first subject, where its similarity reaches the threshold; 400 is an empty collection.
    abbrev pub top_match : List SubjectMatch → Option SubjectMatch
    top_match [] = none
    top_match (m ∷ rest) = if leb cfg.face_match_threshold m.similarity then some m else none

    abbrev pub recognized : HttpReply (List SubjectMatch) → App (Option SubjectMatch)
    recognized rejected = throw (failure "fetch")
    recognized (response status subjects) =
        if is_ok status
        then pure (top_match subjects)
        else (throw_if (not (status == 400)) (internal "Face recognition service unavailable.")
            >>= λ _. pure none)

    abbrev pub added : HttpReply (Unit {0}) → App (Unit {0})
    added rejected = throw (failure "fetch")
    added (response status body) =
        throw_if (not (is_ok status)) (internal "Face registration service unavailable.")

    unfoldable pub deduplicate_face : (selfie person_id : String) → App Dedup
    unfolding call ◌>>=◌
    deduplicate_face selfie person_id = do
      reply ← call (compreface_recognize selfie) w.recognize
      top ← recognized reply
      elim top as (λ _. App Dedup) [
        | some m ↦ pure (record { duplicate_found = true; subject_id = m.subject })
        | none ↦ (do
          registered ← call (compreface_add_face person_id selfie) w.add_face
          added registered
          pure (record { duplicate_found = false; subject_id = person_id }))
      ]

  abbrev pub deleted : HttpReply (Unit {0}) → App (Unit {0})
  deleted rejected = throw (failure "fetch")
  deleted (response status body) = pure tt

  -- A status that is no success is only logged.
  unfoldable pub delete_face_from_compreface : (subject : Option String) → App (Unit {0})
  unfolding call ◌>>=◌
  delete_face_from_compreface none = pure tt
  delete_face_from_compreface (some subject) = do
    reply ← call (compreface_delete_face subject) w.delete_face
    deleted reply
