-- ===== src/Gate/Replay.antt =====
-- gate-verification/gate-verification.service.ts, steps 1 to 3 of verifyEntry, at two scans. A nonce
-- stays in Redis for 120 seconds, and a code is fresh for 60.
use blocktic_backend.Base.{
  ℕ, ◌+◌, ◌*◌, ◌/◌, ◌≤◌, String, ◌≡◌, refl, ◌≢◌, false, some, arith, ◌==◌, string_eq, ltb, lookup,
  insert, lookup-insert, lookup-insert_self, Option-cases, Bool-cases, inl, inr, ◌⊎◌,
}
use blocktic_backend.Exec.{ok, ◌>>=◌}
use blocktic_backend.State.{World, QrPayload, State}
use blocktic_backend.Gate.Entry.{qr_ttl_seconds, nonce_key, is_live, check_token}

module _ (w : World) where
  -- What may happen between two scans: other scans, and any other work that leaves the nonces alone
  -- while the clock does not go back.
  pub data Later (s : State) : State → Type 0 where
    here : Later s s
    scan : {t : State} (token : String) → Later s t → Later s (check_token w token t).1
    other :
        {t u : State} → Later s t → u.nonces ≡ t.nonces → w.now t.trace ≤ w.now u.trace → Later s u

  -- Redis holds the key until a time no earlier than `until`.
  pub record IsHeld (key : String) (start until : ℕ) (s : State) : Type 0 where
    pub expires : ℕ
    pub held : lookup key s.nonces ≡ some expires
    pub long : until ≤ expires
    pub after : start ≤ w.now s.trace

  check_token-trace : (token : String) (s : State) → (check_token w token s).1.trace ≡ s.trace
  unfolding check_token ◌>>=◌
  check_token-trace token s = ground arith

  check_token-ok :
      (token sub : String) (p : QrPayload) (s : State)
      → w.jwt_verify s.trace token ≡ some p
      → (check_token w token s).0 ≡ ok sub
      → (w.now s.trace / 1000 ≤ p.iat + qr_ttl_seconds)
        × (is_live (w.now s.trace) (lookup (nonce_key p.nonce) s.nonces) ≡ false)
        × ((check_token w token s).1.nonces
            ≡ insert (nonce_key p.nonce) (w.now s.trace + qr_ttl_seconds * 2 * 1000) s.nonces)
  unfolding check_token ◌>>=◌
  check_token-ok token sub p s good e = (ground arith, ground arith, ground arith)

  -- A scan leaves the nonces alone, or writes one key for 120 seconds.
  check_token-nonces :
      (token : String) (s : State)
      → ((check_token w token s).1.nonces ≡ s.nonces)
        ⊎ ((key : String) × ((check_token w token s).1.nonces
              ≡ insert key (w.now s.trace + 120000) s.nonces))
  unfolding check_token ◌>>=◌
  check_token-nonces token s = elim (Option-cases (w.jwt_verify s.trace token)) [
    | inl bad ↦ inl (ground arith)
    | inr (p, good) ↦ elim (Bool-cases (ltb (p.iat + qr_ttl_seconds) (w.now s.trace / 1000))) [
      | inl old ↦ inl (ground arith)
      | inr fresh ↦
          elim (Bool-cases (is_live (w.now s.trace) (lookup (nonce_key p.nonce) s.nonces))) [
            | inl live ↦ inl (ground arith)
            | inr free ↦ inr (nonce_key p.nonce, ground arith)
          ]
    ]
  ]

  IsHeld-insert :
      (key over : String) (start until : ℕ) (s t : State)
      → until ≤ start + 120000
      → t.trace ≡ s.trace
      → t.nonces ≡ insert over (w.now s.trace + 120000) s.nonces
      → IsHeld key start until s
      → IsHeld key start until t
  IsHeld-insert key over start until s t near same e h = elim (Bool-cases (over == key)) [
    | inl hit ↦ record {
      expires = w.now s.trace + 120000;
      held = rw (e, lookup-insert over key (w.now s.trace + 120000) s.nonces, hit) refl;
      long = omega (arith, h.after);
      after = rw same h.after;
    }
    | inr miss ↦ record {
      expires = h.expires;
      held = rw (e, lookup-insert over key (w.now s.trace + 120000) s.nonces, miss) h.held;
      long = h.long;
      after = rw same h.after;
    }
  ]

  check_token-IsHeld :
      (key : String) (start until : ℕ) (token : String) (s : State)
      → until ≤ start + 120000
      → IsHeld key start until s
      → IsHeld key start until (check_token w token s).1
  check_token-IsHeld key start until token s near h = elim (check_token-nonces token s) [
    | inl same ↦ record {
      expires = h.expires;
      held = rw same h.held;
      long = h.long;
      after = rw (check_token-trace token s) h.after;
    }
    | inr (over, e) ↦ IsHeld-insert key over start until s _ near (check_token-trace token s) e h
  ]

  Later-IsHeld :
      {s t : State} (key : String) (start until : ℕ)
      → until ≤ start + 120000
      → IsHeld key start until s
      → Later s t
      → IsHeld key start until t
  Later-IsHeld key start until near h here = h
  Later-IsHeld key start until near h (scan {t} token r) =
      check_token-IsHeld key start until token t near (Later-IsHeld key start until near h r)
  Later-IsHeld key start until near h (other {t} {u} r same on) =
      let k = Later-IsHeld key start until near h r in
      record {
        expires = k.expires;
        held = rw same k.held;
        long = k.long;
        after = omega (arith, k.after);
      }

  -- If a scan accepts a token that was not issued in the future, then no later scan accepts a token
  -- with the same payload, whatever other scans and other work come between.
  pub check_token_once :
      (token again sub sub' : String) (p : QrPayload) (s t : State)
      → w.jwt_verify s.trace token ≡ some p
      → p.iat ≤ w.now s.trace / 1000
      → (check_token w token s).0 ≡ ok sub
      → Later (check_token w token s).1 t
      → w.jwt_verify t.trace again ≡ some p
      → (check_token w again t).0 ≢ ok sub'
  check_token_once token again sub sub' p s t good past first r good' second =
      let key = nonce_key p.nonce in
      let (fresh, free, wrote) = check_token-ok token sub p s good first in
      let (fresh', free', wrote') = check_token-ok again sub' p t good' second in
      let start : IsHeld key (w.now s.trace) (w.now s.trace + 120000) (check_token w token s).1 =
        record {
          expires = w.now s.trace + 120000;
          held = rw wrote (lookup-insert_self key (w.now s.trace + 120000) s.nonces);
          long = omega arith;
          after = rw (check_token-trace token s) (omega arith);
        } in
      let h = Later-IsHeld key (w.now s.trace) (w.now s.trace + 120000) (omega arith) start r in
      expired (w.now t.trace) h.expires (rw h.held at free') fresh' past h.long
    where
      expired :
          (now expires : ℕ)
          → ltb now expires ≡ false
          → now / 1000 ≤ p.iat + 60
          → p.iat ≤ w.now s.trace / 1000
          → w.now s.trace + 120000 ≤ expires
          → ⊥
      expired now expires late fresh past long = ground arith
