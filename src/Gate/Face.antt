-- ===== src/Gate/Face.antt =====
-- gate-verification/gate-verification.service.ts, compareFace: the photo at the gate against the
-- face that the person registered, by CompreFace. A similarity is a number of ten-thousandths.
use Prim.Native.Char.{code}
use blocktic_backend.Base.{
  ℕ, String, not, Option, none, some, List, ◌==◌, nat_eq, string_eq, if◌then◌else◌, find_by,
  find_id, non_empty,
}
use blocktic_backend.Exec.{internal, failure, pure, throw, gets, throw_if, ◌>>=◌}
use blocktic_backend.Entities.{Person}
use blocktic_backend.State.{
  World, App, SubjectMatch, compreface_recognize, HttpReply, rejected, response, is_ok, call,
}

-- The text before the first comma.
abbrev pub before_comma : String → String
before_comma String.[] = ""
before_comma (String.◌∷◌ c s) =
    let rest = before_comma s in if code c == b',' then "" else String.◌∷◌ c rest

-- `s.includes(',') ? s.split(',')[1] : s`
abbrev pub after_comma : (whole s : String) → String
after_comma whole String.[] = whole
after_comma whole (String.◌∷◌ c s) =
    let later = after_comma whole s in if code c == b',' then before_comma s else later

abbrev pub similarity_of : Option SubjectMatch → ℕ
similarity_of none = 0
similarity_of (some m) = m.similarity

abbrev pub recognized : String → HttpReply (List SubjectMatch) → App ℕ
recognized subject rejected = throw (failure "fetch")
recognized subject (response status subjects) =
    throw_if (not (is_ok status)) (internal "Face recognition service unavailable.") >>= λ _.
    pure (similarity_of (find_by (λ (m : SubjectMatch). m.subject == subject) subjects))

-- `person?.faceEmbeddingRef`, where it is truthy
abbrev pub embedding_of : Option Person → Option String
embedding_of none = none
embedding_of (some p) = non_empty p.face_embedding_ref

module _ (w : World) where
  abbrev pub scored : (face_photo : String) → (subject : Option String) → App ℕ
  scored face_photo none = pure 0
  scored face_photo (some subject) =
      call (compreface_recognize (after_comma face_photo face_photo)) w.recognize >>= λ reply.
      recognized subject reply

  unfoldable pub compare_face : (user_id face_photo : String) → App ℕ
  unfolding call
  compare_face user_id face_photo = do
    person ← gets (λ s. find_id Person.id user_id s.persons)
    scored face_photo (embedding_of person)
