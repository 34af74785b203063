-- ===== src/Identity/Erasure.antt =====
-- identity/identity.service.ts, deleteUserData: what is deleted, and what stays.
use blocktic_backend.Base.{
  String, ◌≡◌, ◌≢◌, refl, sym, Bool, true, Option, none, some, ◌∷◌, arith, Option-cases, inl, inr,
  find_id, find_id-remove_id, remove_id, non_empty, string_eq,
}
use blocktic_backend.Exec.{Fault, ok, err, Result-cases, ◌>>=◌}
use blocktic_backend.Entities.{Person}
use blocktic_backend.State.{
  World, Config, State, Trace, put_persons, compreface_delete_face, HttpReply, rejected, response,
}
use blocktic_backend.Identity.{delete_user_data}
use blocktic_backend.Identity.Layers.{delete_face_from_compreface, deleted}

-- The trace after a request to CompreFace, where the person has a face there.
abbrev pub face_deleted : (subject : Option String) → Trace → Trace
face_deleted none t = t
face_deleted (some subject) t = compreface_delete_face subject ∷ t

deleted-same : (w : World) (r : HttpReply (Unit {0})) (s : State) → (deleted w r s).1 ≡ s
unfolding ◌>>=◌
deleted-same w rejected s = refl
deleted-same w (response status body) s = refl

delete_face_lem :
    (w : World) (subject : Option String) (s : State)
    → (delete_face_from_compreface w subject s).1
      ≡ record s { trace = face_deleted subject s.trace }
unfolding delete_face_from_compreface ◌>>=◌
delete_face_lem w none s = refl
delete_face_lem w (some subject) s =
    deleted-same w (w.delete_face s.trace (compreface_delete_face subject)) _

module _ (w : World) (cfg : Config) where
  -- A deletion that returns has found the person; it asks CompreFace to delete the face registered
  -- for the person, if there is one, and removes the row of the person and nothing else: no person
  -- has the id afterwards, and the user's own row stays, with the name and the phone number.
  pub delete_user_data-ok :
      (id : String) (s : State) (b : Bool)
      → (delete_user_data w cfg id s).0 ≡ ok b
      → (p : Person) × (find_id Person.id id s.persons ≡ some p)
        × (b ≡ true)
        × ((delete_user_data w cfg id s).1
            ≡ record (put_persons (remove_id Person.id id s.persons) s) {
              trace = face_deleted (non_empty p.face_embedding_ref) s.trace;
            })
        × (find_id Person.id id (delete_user_data w cfg id s).1.persons ≡ none)
  unfolding delete_user_data ◌>>=◌
  delete_user_data-ok id s b h = elim (Option-cases (find_id Person.id id s.persons)) [
    | inl missing ↦ ground arith
    | inr (p, found) ↦
        let face = non_empty p.face_embedding_ref in
        let at_face = delete_face_lem w face s in
        elim (Result-cases (delete_face_from_compreface w face s).0) [
          | inl (e, failed) ↦ absurd (err≢ok (rw (found, failed) at h))
          | inr (u, done) ↦ (
            p,
            found,
            ok_inj (sym (rw (found, done) at h)),
            rw (found, done, at_face) refl,
            rw (found, done, at_face) (find_id-remove_id Person.id id s.persons),
          )
        ]
  ]
    where
      err≢ok : {e : Fault} → err e ≢ ok b
      err≢ok k = cc

      ok_inj : {x y : Bool} → ok x ≡ ok y → x ≡ y
      ok_inj k = cc
