-- ===== src/Gate/Entry.antt =====
-- gate-verification/gate-verification.service.ts, the steps of verifyEntry and what fallbackVerify
-- shares with them. Each is one of the points between which another request may run.
use blocktic_backend.Base.{
  ℕ, ◌+◌, ◌*◌, ◌/◌, String, Bool, true, false, not, ◌&&◌, ◌||◌, Option, none, some, [], ◌∷◌, ◌++◌,
  ◌<>◌, ltb, ◌==◌, nat_eq, string_eq, if◌then◌else◌, find_id, update_where, tally, map, lookup,
  insert, non_empty,
}
use blocktic_backend.Exec.{
  bad_request, unauthorized, conflict, failure, pure, throw, gets, modify, throw_if, or_throw,
  try_catch, ◌>>=◌, ◌>>◌,
}
use blocktic_backend.Entities.{
  Ticket, TicketStatus, ticket_status_eq, status_text, paid, minted, used, GateLog,
  VerificationMode, VerificationResult,
}
use blocktic_backend.State.{World, Config, State, App, put_tickets, put_gate_logs}
use blocktic_backend.Blockchain.{verify_sbt_ownership}
use blocktic_backend.Gate.Face.{compare_face}

abbrev pub qr_ttl_seconds : ℕ
qr_ttl_seconds = 60

pub record VerifyResult : Type 0 where
  pub success : Bool
  pub ticket_id : String
  pub mode : VerificationMode
  pub result : VerificationResult
  pub face_score : Option ℕ
  pub message : String

-- `validStatuses` of the conditional update.
abbrev pub is_valid_status : TicketStatus → Bool
is_valid_status st = ticket_status_eq st paid || ticket_status_eq st minted

abbrev pub nonce_key : String → String
nonce_key nonce = "gate:nonce:" <> nonce

-- Whether Redis still holds a key at a time in milliseconds.
abbrev pub is_live : ℕ → Option ℕ → Bool
is_live now none = false
is_live now (some expires) = ltb now expires

abbrev pub put_nonce : String → ℕ → State → State
put_nonce key expires s = record s { nonces = insert key expires s.nonces }

module _ (w : World) where
  abbrev pub gate_log :
      (event_id ticket_id gate_id : String)
      → VerificationMode
      → VerificationResult
      → Option ℕ
      → (staff_id : String) → State
      → GateLog
  gate_log event_id ticket_id gate_id mode result score staff_id s = record {
    id = w.new_id (map GateLog.id s.gate_logs);
    event_id = event_id;
    ticket_id = ticket_id;
    gate_id = gate_id;
    verification_mode = mode;
    result = result;
    face_score = score;
    staff_id = staff_id;
    verified_at = w.now s.trace;
  }

  -- The columns eventId and ticketId are of type uuid: PostgreSQL refuses other texts.
  unfoldable pub save_log :
      (event_id ticket_id gate_id : String)
      → VerificationMode
      → VerificationResult
      → Option ℕ
      → (staff_id : String) → App (Unit {0})
  save_log event_id ticket_id gate_id mode result score staff_id = do
    throw_if (not (w.is_uuid event_id && w.is_uuid ticket_id))
        (failure "invalid input syntax for type uuid")
    modify (λ s.
        put_gate_logs
          (s.gate_logs ++ gate_log event_id ticket_id gate_id mode result score staff_id s ∷ []) s)

  -- Steps 1 to 3: the token's signature, its age, and its nonce by SET … EX 120 NX.
  unfoldable pub check_token : (qr_token : String) → App String
  check_token qr_token = do
    verified ← gets (λ s. w.jwt_verify s.trace qr_token)
    payload ← or_throw verified (unauthorized "Invalid or expired QR token")
    now ← gets (λ s. w.now s.trace)
    throw_if (ltb (payload.iat + qr_ttl_seconds) (now / 1000)) (unauthorized "QR code has expired")
    held ← gets (λ s. lookup (nonce_key payload.nonce) s.nonces)
    throw_if (is_live now held) (conflict "QR code has already been scanned (replay detected)")
    modify (put_nonce (nonce_key payload.nonce) (now + qr_ttl_seconds * 2 * 1000))
    pure payload.sub

  module _ (gate_id staff_id : String) where
    abbrev pub fail_log : (event_id ticket_id : String) → App (Unit {0})
    fail_log event_id ticket_id =
        save_log event_id ticket_id gate_id VerificationMode.normal VerificationResult.failed none
          staff_id

    abbrev pub checked_row : (ticket_id : String) → Option Ticket → App Ticket
    checked_row ticket_id none = do
      fail_log ticket_id ticket_id
      throw (bad_request "Ticket not found")
    checked_row ticket_id (some t) =
        if ticket_status_eq t.status used
        then (do fail_log t.event_id ticket_id; throw (conflict "Ticket has already been used"))
        else if not (is_valid_status t.status)
        then (do
          fail_log t.event_id ticket_id
          throw (
              bad_request
                ("Ticket status \"" <> status_text t.status <> "\" is not valid for entry")))
        else pure t

    -- Step 4: the ticket's row and status.
    unfoldable pub load_ticket : (ticket_id : String) → App Ticket
    unfolding save_log ◌>>=◌
    load_ticket ticket_id = do
      found ← gets (λ s. find_id Ticket.id ticket_id s.tickets)
      checked_row ticket_id found

    -- Step 7 and 8: the conditional update, and the log.
    unfoldable pub consume :
        (event_id ticket_id : String)
        → VerificationMode
        → VerificationResult
        → Option ℕ
        → (message : String) → App VerifyResult
    unfolding save_log ◌>>=◌
    consume event_id ticket_id mode result score message = do
      let hit = λ (t : Ticket). t.id == ticket_id && is_valid_status t.status
      affected ← gets (λ s. tally hit s.tickets)
      modify (λ s. put_tickets (update_where hit (λ t. record t { status = used }) s.tickets) s)
      if affected == 0
          then (do
            save_log event_id ticket_id gate_id mode VerificationResult.failed score staff_id
            throw (conflict "Ticket was already consumed by a concurrent scan"))
          else do
            save_log event_id ticket_id gate_id mode result score staff_id
            pure (record {
              success = true;
              ticket_id = ticket_id;
              mode = mode;
              result = result;
              face_score = score;
              message = message;
            })

    module _ (cfg : Config) where
      -- `checkOnChainOwnership`: a ticket with no token passes, and so does a failing query.
      unfoldable pub check_on_chain_ownership : Option ℕ → Option String → App Bool
      unfolding verify_sbt_ownership
      check_on_chain_ownership token wallet = elim token as (λ _. App Bool) [
        | none ↦ pure true
        | some t ↦ elim (non_empty wallet) as (λ _. App Bool) [
          | none ↦ pure true
          | some address ↦ try_catch (verify_sbt_ownership w cfg address t) (λ _. pure true)
        ]
      ]

      -- Step 5.
      unfoldable pub check_ownership : Ticket → App (Unit {0})
      unfolding check_on_chain_ownership save_log ◌>>=◌
      check_ownership ticket = do
        valid ← check_on_chain_ownership ticket.sbt_token_id ticket.aa_wallet_address
        if valid then pure tt else do
          fail_log ticket.event_id ticket.id
          throw (unauthorized "On-chain ticket ownership verification failed")

      -- Step 6: the mode and the score that the log will hold.
      unfoldable pub check_face :
          Ticket → (face_photo : Option String) → App (VerificationMode × Option ℕ)
      unfolding compare_face save_log ◌>>=◌
      check_face ticket face_photo =
          elim (non_empty face_photo) as (λ _. App (VerificationMode × Option ℕ)) [
            | none ↦ pure (VerificationMode.normal, none)
            | some photo ↦ (do
              score ← compare_face w ticket.user_id photo
              if ltb score cfg.face_match_threshold
                  then (do
                    save_log ticket.event_id ticket.id gate_id VerificationMode.strong
                        VerificationResult.failed (some score) staff_id
                    throw (
                        unauthorized
                          ("Face match score " <> w.to_fixed score <> " below threshold")))
                  else pure (VerificationMode.strong, some score))
          ]
