-- ===== src/Auth/Refinement.antt =====
-- auth/auth.service.ts, the one-time passwords: the map of records against a machine for each phone
-- number that knows only how many guesses are left, and until when.
use blocktic_backend.Base.{
  ℕ, not, ◌&&◌, ◌||◌, ◌+◌, ◌-◌, ◌*◌, String, ◌≡◌, refl, ◌∙◌, ap, Bool, true, false, Option, none,
  some, List, [], ◌∷◌, ltb, ◌==◌, nat_eq, string_eq, eq_iff, if◌then◌else◌, lookup, insert,
  lookup-insert, lookup-without, arith, Option-cases, Bool-cases, inl, inr, find_by,
}
use blocktic_backend.Exec.{Result, ok, err, Result-cases, ◌>>=◌}
use blocktic_backend.Entities.{User}
use blocktic_backend.State.{World, State, OtpRecord, Call, Trace}
use blocktic_backend.Auth.{
  mock_otp, max_otp_attempts, check_otp, find_or_create, verify_otp, send_otp, bump,
}

-- The machine of one phone number.
pub data Phase : Type 0 where
  idle : Phase
  waiting : (left deadline : ℕ) → Phase

pub data Move : Type 0 where
  send : Move
  guess : (right : Bool) → Move

-- A wrong guess costs one of the guesses left; a right one, and any guess when none is left or the
-- time is over, ends the wait.
abbrev pub next : (now : ℕ) → Move → Phase → Phase
next now send p = waiting 5 (now + 300000)
next now (guess right) idle = idle
next now (guess right) (waiting left deadline) =
    if ltb deadline now || left == 0 || right then idle else waiting (left - 1) deadline

abbrev pub accepts : (now : ℕ) → Move → Phase → Bool
accepts now send p = false
accepts now (guess right) idle = false
accepts now (guess right) (waiting left deadline) = not (ltb deadline now || left == 0) && right

-- The answers of the machine along its moves, each with its time.
abbrev pub replay : List (ℕ × Move) → Phase → List Bool
replay [] p = []
replay (m ∷ rest) p = accepts m.0 m.1 p ∷ replay rest (next m.0 m.1 p)

-- What the store says of a phone number.
abbrev pub phase_of : Option OtpRecord → Phase
phase_of none = idle
phase_of (some r) = waiting (max_otp_attempts - r.attempts) r.expires_at

abbrev pub view : String → State → Phase
view phone s = phase_of (lookup phone s.otp_store)

-- What the service is asked, and the calls of other handlers, by which time passes.
pub data Action : Type 0 where
  send_to : (phone : String) → Action
  verify : (phone code : String) → Action
  other_call : Call → Action

abbrev pub succeeds : {A : Type 0} → Result A → Bool
succeeds (ok a) = true
succeeds (err e) = false

module _ (w : World) where
  unfoldable pub act : Action → State → State
  act (send_to phone) s = (send_otp w phone s).1
  act (verify phone code) s = (verify_otp w phone code s).1
  act (other_call c) s = record s { trace = c ∷ s.trace }

  -- Whether the requests for one phone number returned; a sent code counts as `false`.
  unfoldable pub answers : (phone : String) → List Action → State → List Bool
  unfolding act
  answers phone [] s = []
  answers phone (send_to p ∷ rest) s =
      let later = answers phone rest (act (send_to p) s) in
      if p == phone then false ∷ later else later
  answers phone (verify p code ∷ rest) s =
      let later = answers phone rest (act (verify p code) s) in
      if p == phone then succeeds (verify_otp w p code s).0 ∷ later else later
  answers phone (other_call c ∷ rest) s = answers phone rest (act (other_call c) s)

  -- The moves that are meant for one phone number, with their times.
  abbrev pub moves : (phone : String) → List Action → Trace → List (ℕ × Move)
  moves phone [] t = []
  moves phone (send_to p ∷ rest) t =
      if p == phone then (w.now t, send) ∷ moves phone rest t else moves phone rest t
  moves phone (verify p code ∷ rest) t =
      if p == phone
      then (w.now t, guess (code == mock_otp)) ∷ moves phone rest t
      else moves phone rest t
  moves phone (other_call c ∷ rest) t = moves phone rest (c ∷ t)

  check_otp-same : (p code : String) (s : State) → (check_otp w p code s).1.trace ≡ s.trace
  unfolding check_otp ◌>>=◌
  check_otp-same p code s = ground arith

  check_otp-succeeds :
      (p code : String) (s : State)
      → succeeds (check_otp w p code s).0
        ≡ accepts (w.now s.trace) (guess (code == mock_otp)) (view p s)
  unfolding check_otp ◌>>=◌
  check_otp-succeeds p code s = elim (Option-cases (lookup p s.otp_store)) [
    | inl missing ↦ rw (missing) refl
    | inr (r, found) ↦ ground arith
  ]

  check_otp-view :
      (p q code : String) (s : State)
      → view q (check_otp w p code s).1
        ≡ (if p == q then next (w.now s.trace) (guess (code == mock_otp)) (view p s) else view q s)
  unfolding check_otp ◌>>=◌
  check_otp-view p q code s = elim (Option-cases (lookup p s.otp_store)) [
    | inl missing ↦ ground (arith, lookup-without p q s.otp_store, eq_iff p q)
    | inr (r, found) ↦
        let bumped = bump (some r) in
        ground (
          arith,
          lookup-without p q s.otp_store,
          lookup-without p q (insert p bumped s.otp_store),
          lookup-insert p q bumped s.otp_store,
          eq_iff p q,
        )
  ]

  -- After the checks a verification touches neither the store nor the trace, and it returns.
  verify_otp-rest :
      (p code : String) (s : State)
      → (succeeds (verify_otp w p code s).0 ≡ succeeds (check_otp w p code s).0)
        × ((verify_otp w p code s).1.otp_store ≡ (check_otp w p code s).1.otp_store)
        × ((verify_otp w p code s).1.trace ≡ (check_otp w p code s).1.trace)
  unfolding verify_otp find_or_create ◌>>=◌
  verify_otp-rest p code s = elim (Result-cases (check_otp w p code s).0) [
    | inl (e, failed) ↦ rw failed (refl, refl, refl)
    | inr (a, done) ↦
        let users = (check_otp w p code s).1.users in
        elim (Option-cases (find_by (λ (u : User). u.phone == p) users)) [
          | inl missing ↦ rw (done, find_or_create, missing) (refl, refl, refl)
          | inr (u, found) ↦ rw (done, find_or_create, found) (refl, refl, refl)
        ]
  ]

  send_otp-view :
      (p q : String) (s : State)
      → view q (send_otp w p s).1
        ≡ (if p == q then next (w.now s.trace) send (view p s) else view q s)
  unfolding send_otp ◌>>=◌
  send_otp-view p q s = ground (
    arith,
    lookup-insert p q (record { attempts = 0; expires_at = w.now s.trace + 5 * 60 * 1000 })
        s.otp_store,
  )

  send_otp-trace : (p : String) (s : State) → (send_otp w p s).1.trace ≡ s.trace
  unfolding send_otp ◌>>=◌
  send_otp-trace p s = refl

  verify_otp-view :
      (p q code : String) (s : State)
      → view q (verify_otp w p code s).1
        ≡ (if p == q then next (w.now s.trace) (guess (code == mock_otp)) (view p s) else view q s)
  verify_otp-view p q code s =
      let (same, store, trace) = verify_otp-rest p code s in rw store (check_otp-view p q code s)

  verify_otp-accepts :
      (p code : String) (s : State)
      → succeeds (verify_otp w p code s).0
        ≡ accepts (w.now s.trace) (guess (code == mock_otp)) (view p s)
  verify_otp-accepts p code s =
      let (same, store, trace) = verify_otp-rest p code s in same ∙ check_otp-succeeds p code s

  verify_otp-trace : (p code : String) (s : State) → (verify_otp w p code s).1.trace ≡ s.trace
  verify_otp-trace p code s =
      let (same, store, trace) = verify_otp-rest p code s in trace ∙ check_otp-same p code s

  -- The service refines the machine: along any requests to send and to verify codes, for any phone
  -- numbers and with other calls in between, the requests for one phone number are answered as the
  -- machine of that number answers them, which knows of the others only the time that passes.
  pub answers_refine :
      (phone : String) (actions : List Action) (s : State)
      → answers phone actions s ≡ replay (moves phone actions s.trace) (view phone s)
  unfolding answers
  answers_refine phone [] s = refl
  answers_refine phone (send_to p ∷ rest) s =
      let later = answers_refine phone rest (send_otp w p s).1 in
      let moved = rw (send_otp-trace p s, send_otp-view p phone s) at later in
      elim (Bool-cases (p == phone)) [
        | inl mine ↦ rw mine (ap (λ l. false ∷ l) (rw (mine) at moved))
        | inr other ↦ rw other (rw (other) at moved)
      ]
  answers_refine phone (verify p code ∷ rest) s =
      let later = answers_refine phone rest (verify_otp w p code s).1 in
      let moved = rw (verify_otp-trace p code s, verify_otp-view p phone code s) at later in
      elim (Bool-cases (p == phone)) [
        | inl mine ↦
            let same : view p s ≡ view phone s = ap (λ q. view q s) ((eq_iff p phone).0 mine) in
            rw (mine, verify_otp-accepts p code s, same)
              (ap (λ l. accepts (w.now s.trace) (guess (code == mock_otp)) (view phone s) ∷ l)
                (rw (mine, same) at moved))
        | inr other ↦ rw other (rw (other) at moved)
      ]
  answers_refine phone (other_call c ∷ rest) s =
      answers_refine phone rest (record s { trace = c ∷ s.trace })
