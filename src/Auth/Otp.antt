-- ===== src/Auth/Otp.antt =====
-- auth/auth.service.ts: how many guesses one code allows, and what a verification that succeeds does.
use blocktic_backend.Base.{
  find_by-save, ℕ, ◌+◌, ◌≤◌, ◌<◌, String, ◌≡◌, ◌≢◌, refl, none, some, List, [], ◌∷◌, arith, lookup,
  insert, lookup-insert_self, lookup-without, eq_refl, Option-cases, inl, inr, is_none, All, length,
  find_by, find_by-holds, eq_iff, save, ◌==◌, string_eq, if◌then◌else◌,
}
use blocktic_backend.Exec.{Result-cases, ok, bind-ok, ◌>>=◌}
use blocktic_backend.Entities.{User}
use blocktic_backend.State.{World, State, OtpRecord}
use blocktic_backend.Auth.{
  mock_otp, max_otp_attempts, VerifyOtpResponse, check_otp, find_or_create, verify_otp, new_user,
  send_otp, bump,
}

module _ (w : World) where
  pub check_otp-ok :
      (phone code : String) (s : State)
      → (check_otp w phone code s).0 ≡ ok tt
      → (r : OtpRecord) × (lookup phone s.otp_store ≡ some r)
        × (w.now s.trace ≤ r.expires_at)
        × (r.attempts < max_otp_attempts)
        × (code ≡ mock_otp)
        × (lookup phone (check_otp w phone code s).1.otp_store ≡ none)
        × ((check_otp w phone code s).1.db ≡ s.db)
  unfolding check_otp ◌>>=◌
  check_otp-ok phone code s h = elim (Option-cases (lookup phone s.otp_store)) [
    | inl missing ↦ ground arith
    | inr (r, found) ↦ (
      r,
      found,
      ground arith,
      ground arith,
      ground (arith, string_eq.equal_iff code mock_otp),
      ground (
        arith,
        lookup-without phone phone (insert phone (bump (some r)) s.otp_store),
        eq_refl phone,
      ),
      ground arith,
    )
  ]

  -- A verification that returns has found an unexpired code with fewer than five guesses, and the
  -- code given is the right one; it uses the code up, and replies with the user that the users table
  -- has for the phone number, which is a new row where the reply says so and the row from before where
  -- it does not.
  pub verify_otp-ok :
      (phone code : String) (s : State) (reply : VerifyOtpResponse)
      → (verify_otp w phone code s).0 ≡ ok reply
      → (r : OtpRecord) × (u : User) × (lookup phone s.otp_store ≡ some r)
        × (w.now s.trace ≤ r.expires_at)
        × (r.attempts < max_otp_attempts)
        × (code ≡ mock_otp)
        × (lookup phone (verify_otp w phone code s).1.otp_store ≡ none)
        × (reply ≡ record {
          token = w.sign_user u.id u.role;
          is_new_user = is_none (find_by (λ (x : User). x.phone == phone) s.users);
          user_id = u.id;
        })
        × (u.phone ≡ phone)
        × ((verify_otp w phone code s).1.users
            ≡ (if reply.is_new_user then save User.id u s.users else s.users))
        × (find_by (λ (x : User). x.phone == phone) (verify_otp w phone code s).1.users ≡ some u)
  unfolding verify_otp find_or_create ◌>>=◌
  verify_otp-ok phone code s reply h =
      let (_, checked, rest) = bind-ok (check_otp w phone code) _ s h in
      let (r, held, fresh, few, right, gone, same) = check_otp-ok phone code s checked in
      let s1 = (check_otp w phone code s).1 in
      elim (Option-cases (find_by (λ (x : User). x.phone == phone) s.users)) [
        | inl missing ↦ (
          r,
          new_user w phone s1,
          held,
          fresh,
          few,
          right,
          ground arith,
          ground arith,
          refl,
          ground arith,
          let written : (verify_otp w phone code s).1.users
                  ≡ save User.id (new_user w phone s1) s.users =
                ground arith in
              rw written (
                find_by-save User.id (λ (x : User). x.phone == phone) (new_user w phone s1) s.users
                  missing (eq_refl phone)),
        )
        | inr (u, known) ↦ (
          r,
          u,
          held,
          fresh,
          few,
          right,
          ground arith,
          ground arith,
          (eq_iff u.phone phone).0 (find_by-holds _ s.users u known),
          ground arith,
          ground arith,
        )
      ]

  -- At least `n` guesses have been counted against a code that is still stored.
  abbrev Counted : ℕ → String → State → Type 0
  Counted n phone s = (r : OtpRecord) → lookup phone s.otp_store ≡ some r → n ≤ r.attempts

  check_otp-Counted :
      (n : ℕ) (phone code : String) (s : State)
      → code ≢ mock_otp
      → Counted n phone s
      → Counted (n + 1) phone (check_otp w phone code s).1
  unfolding check_otp ◌>>=◌
  check_otp-Counted n phone code s wrong h r held = elim (Option-cases (lookup phone s.otp_store)) [
    | inl missing ↦ ground (arith, lookup-without phone phone s.otp_store, eq_refl phone)
    | inr (r', found) ↦ ground (
      arith,
      h r' found,
      string_eq.equal_iff code mock_otp,
      lookup-without phone phone s.otp_store,
      lookup-insert_self phone (bump (some r')) s.otp_store,
      eq_refl phone,
    )
  ]

  verify_otp-wrong :
      (phone code : String) (s : State)
      → code ≢ mock_otp
      → (verify_otp w phone code s).1 ≡ (check_otp w phone code s).1
  unfolding verify_otp check_otp ◌>>=◌
  verify_otp-wrong phone code s wrong = ground (arith, string_eq.equal_iff code mock_otp)

  -- Verifications with these codes, one after the other.
  unfoldable pub guess_all : (phone : String) → List String → State → State
  guess_all phone [] s = s
  guess_all phone (c ∷ codes) s = guess_all phone codes (verify_otp w phone c s).1

  guess_all-Counted :
      (n : ℕ) (phone : String) (codes : List String) (s : State)
      → All (λ c. c ≢ mock_otp) codes
      → Counted n phone s
      → Counted (n + length codes) phone (guess_all phone codes s)
  unfolding guess_all
  guess_all-Counted n phone [] s wrong h r held = omega (arith, h r held)
  guess_all-Counted n phone (c ∷ codes) s wrong h r held =
      let next : Counted (n + 1) phone (verify_otp w phone c s).1 =
        rw (verify_otp-wrong phone c s wrong.0) (check_otp-Counted n phone c s wrong.0 h) in
      omega (arith, guess_all-Counted (n + 1) phone codes _ wrong.1 next r held)

  -- No code is accepted after five wrong guesses: however old the code is and whatever is guessed
  -- next, the right code included, the verification fails until a new code is sent.
  pub otp_lockout :
      (phone code : String) (codes : List String) (s : State) (reply : VerifyOtpResponse)
      → All (λ c. c ≢ mock_otp) codes
      → max_otp_attempts ≤ length codes
      → (verify_otp w phone code (guess_all phone codes s)).0 ≢ ok reply
  otp_lockout phone code codes s reply wrong many e =
      let (r, u, held, fresh, few, right, gone, told, owner, kept, row) =
        verify_otp-ok phone code (guess_all phone codes s) reply e in
      omega (arith, guess_all-Counted 0 phone codes s wrong (λ r held. omega arith) r held)

  -- A code for `phone` is stored, has not expired, and at most `n` guesses were made.
  abbrev Open : ℕ → String → State → Type 0
  Open n phone s =
      (r : OtpRecord) × (lookup phone s.otp_store ≡ some r)
      × (w.now s.trace ≤ r.expires_at)
      × (r.attempts ≤ n)

  check_otp-Open :
      (n : ℕ) (phone code : String) (s : State)
      → code ≢ mock_otp
      → n < max_otp_attempts
      → Open n phone s
      → Open (n + 1) phone (check_otp w phone code s).1
  unfolding check_otp ◌>>=◌
  check_otp-Open n phone code s wrong few (r, held, fresh, made) = (
    bump (some r),
    ground (
      arith,
      string_eq.equal_iff code mock_otp,
      lookup-insert_self phone (bump (some r)) s.otp_store,
    ),
    ground arith,
    omega arith,
  )

  guess_all-Open :
      (n : ℕ) (phone : String) (codes : List String) (s : State)
      → All (λ c. c ≢ mock_otp) codes
      → n + length codes ≤ max_otp_attempts
      → Open n phone s
      → Open (n + length codes) phone (guess_all phone codes s)
  unfolding guess_all
  guess_all-Open n phone [] s wrong few (r, held, fresh, made) = (r, held, fresh, omega arith)
  guess_all-Open n phone (c ∷ codes) s wrong few open_code =
      let next : Open (n + 1) phone (verify_otp w phone c s).1 =
        rw (verify_otp-wrong phone c s wrong.0)
          (check_otp-Open n phone c s wrong.0 (omega arith) open_code) in
      let (r, held, fresh, made) =
        guess_all-Open (n + 1) phone codes _ wrong.1 (omega arith) next in
      (r, held, fresh, omega arith)

  verify_otp-Open :
      (n : ℕ) (phone : String) (s : State)
      → n < max_otp_attempts
      → Open n phone s
      → (reply : VerifyOtpResponse) × ((verify_otp w phone mock_otp s).0 ≡ ok reply)
  unfolding verify_otp check_otp find_or_create ◌>>=◌
  verify_otp-Open n phone s few (r, held, fresh, made) =
      elim (Result-cases (verify_otp w phone mock_otp s).0) [
        | inr (reply, done) ↦ (reply, done)
        | inl (e, failed) ↦
            absurd (elim (Option-cases (find_by (λ (x : User). x.phone == phone) s.users)) [
              | inl missing ↦ ground arith
              | inr (u, known) ↦ ground arith
            ])
      ]

  -- A code that has just been sent is accepted, also after up to four wrong guesses.
  pub send_otp_accepted :
      (phone : String) (codes : List String) (s : State)
      → All (λ c. c ≢ mock_otp) codes
      → length codes < max_otp_attempts
      → (reply : VerifyOtpResponse) × ((verify_otp w phone mock_otp
            (guess_all phone codes (send_otp w phone s).1)).0
          ≡ ok reply)
  unfolding send_otp ◌>>=◌
  send_otp_accepted phone codes s wrong few =
      let s' = (send_otp w phone s).1 in
      let (r, held, fresh, made) =
        guess_all-Open 0 phone codes s' wrong (omega arith)
          (_, lookup-insert_self phone _ s.otp_store, omega arith, omega arith) in
      verify_otp-Open (length codes) phone (guess_all phone codes s') few
        (r, held, fresh, omega arith)
