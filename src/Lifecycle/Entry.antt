-- ===== src/Lifecycle/Entry.antt =====
-- gate-verification/gate-verification.service.ts: what an entry that is granted says of its ticket,
-- before and after.
use blocktic_backend.Base.{
  ℕ, String, ◌≡◌, ◌≢◌, refl, sym, ◌∙◌, subst, key-find_id, Bool, true, ◌&&◌, Option, none, some,
  List, [], ◌∷◌, arith, inl, inr, ◌==◌, string_eq, eq_iff, tally, find_id, find_by, update_where,
  find_id-update_where, Distinct, Option-cases, Bool-cases,
}
use blocktic_backend.Exec.{ok, ◌>>=◌, bind-ok, or_throw}
use blocktic_backend.Entities.{Ticket, VerificationMode, VerificationResult, used}
use blocktic_backend.State.{World, Config, State}
use blocktic_backend.Gate.Entry.{
  VerifyResult, check_token, load_ticket, check_ownership, check_face, consume, is_valid_status,
}
use blocktic_backend.Gate.{
  verify_entry, fallback_verify, admit_fallback, has_id_hash, fallback_ticket,
}
use blocktic_backend.Lifecycle.Gate.{
  tickets-check_token, tickets-load_ticket, tickets-check_ownership, tickets-check_face,
  tickets-consume,
}

abbrev pub hit : String → Ticket → Bool
hit id t = t.id == id && is_valid_status t.status

tally-hit-none :
    (id : String) (rows : List Ticket) → find_id Ticket.id id rows ≡ none → tally (hit id) rows ≡ 0
tally-hit-none id [] e = refl
tally-hit-none id (t ∷ rows) e = ground (arith, tally-hit-none id rows)

-- With unique keys, the conditional update affects a row exactly when the ticket's row has a valid
-- status.
pub tally-hit :
    (id : String) (rows : List Ticket)
    → Distinct Ticket.id rows
    → tally (hit id) rows ≢ 0
    → (t : Ticket) × (find_id Ticket.id id rows ≡ some t) × (is_valid_status t.status ≡ true)
tally-hit id [] d h = absurd (h refl)
tally-hit id (t ∷ rows) d h = elim (Bool-cases (t.id == id)) [
  | inl same ↦
      let later = tally-hit-none id rows (rw (← (eq_iff t.id id).0 same) d.0) in
      (t, rw same refl, ground arith)
  | inr other ↦
      let some_later : tally (hit id) rows ≢ 0 = λ e. h (ground arith) in
      let (u, found, valid) = tally-hit id rows d.1 some_later in (u, rw other found, valid)
]

used_after :
    (id : String) (rows : List Ticket) (t : Ticket)
    → find_id Ticket.id id rows ≡ some t
    → is_valid_status t.status ≡ true
    → find_id Ticket.id id (update_where (hit id) (λ u. record u { status = used }) rows)
      ≡ some (record t { status = used })
used_after id rows t found valid =
    let same : (t.id == id) ≡ true = (eq_iff t.id id).1 (key-find_id Ticket.id id rows t found) in
    rw
      (
        find_id-update_where Ticket.id (hit id) (λ u. record u { status = used }) (λ u. refl) id
            rows,
        found,
        same,
        valid,
      )
      refl

module _ (w : World) where
  -- The ticket had a valid status, and is used afterwards.
  pub record Admits (s s' : State) (id : String) : Type 0 where
    pub before : Ticket
    pub found : find_id Ticket.id id s.tickets ≡ some before
    pub valid : is_valid_status before.status ≡ true
    pub after : find_id Ticket.id id s'.tickets ≡ some (record before { status = used })

  module _ (gate_id staff_id : String) where
    consume-ok :
        (event_id id : String) (mode : VerificationMode) (result : VerificationResult)
        (score : Option ℕ) (message : String) (s : State) (r : VerifyResult)
        → (consume w gate_id staff_id event_id id mode result score message s).0 ≡ ok r
        → (tally (hit id) s.tickets ≢ 0) × (r.ticket_id ≡ id)
    unfolding consume ◌>>=◌
    consume-ok event_id id mode result score message s r h = (ground arith, ground arith)

    consume-Admits :
        (event_id id : String) (mode : VerificationMode) (result : VerificationResult)
        (score : Option ℕ) (message : String) (s : State) (r : VerifyResult)
        → Distinct Ticket.id s.tickets
        → (consume w gate_id staff_id event_id id mode result score message s).0 ≡ ok r
        → Admits s
            (consume w gate_id staff_id event_id id mode result score message s).1
            r.ticket_id
    consume-Admits event_id id mode result score message s r d h =
        let (some_hit, same) = consume-ok event_id id mode result score message s r h in
        let (t, found, valid) = tally-hit id s.tickets d some_hit in
        subst (Admits s _) (sym same) (record {
          before = t;
          found = found;
          valid = valid;
          after =
              rw (tickets-consume w gate_id staff_id event_id id mode result score message s)
                (used_after id s.tickets t found valid);
        })

  Admits-of_same :
      (s t u : State) (id : String) → t.tickets ≡ s.tickets → Admits t u id → Admits s u id
  Admits-of_same s t u id same a = record {
    before = a.before;
    found = rw (← same) a.found;
    valid = a.valid;
    after = a.after;
  }

  pub verify_entry-Admits :
      (cfg : Config) (token gate_id staff_id : String) (photo : Option String) (s : State)
      (r : VerifyResult)
      → Distinct Ticket.id s.tickets
      → (verify_entry w cfg token gate_id staff_id photo s).0 ≡ ok r
      → Admits s (verify_entry w cfg token gate_id staff_id photo s).1 r.ticket_id
  unfolding verify_entry
  verify_entry-Admits cfg token gate_id staff_id photo s r d h =
      let (id, got_id, e1) = bind-ok (check_token w token) _ s h in
      let s1 = (check_token w token s).1 in
      let (t, got_t, e2) = bind-ok (load_ticket w gate_id staff_id id) _ s1 (rw e1 at h) in
      let s2 = (load_ticket w gate_id staff_id id s1).1 in
      let (owned, got_o, e3) =
        bind-ok (check_ownership w gate_id staff_id cfg t) _ s2 (rw (e1, e2) at h) in
      let s3 = (check_ownership w gate_id staff_id cfg t s2).1 in
      let (checked, got_f, e4) =
        bind-ok (check_face w gate_id staff_id cfg t photo) _ s3 (rw (e1, e2, e3) at h) in
      let s4 = (check_face w gate_id staff_id cfg t photo s3).1 in
      let same : s4.tickets ≡ s.tickets =
        tickets-check_face w gate_id staff_id cfg t photo s3
        ∙ tickets-check_ownership w gate_id staff_id cfg t s2
        ∙ tickets-load_ticket w gate_id staff_id id s1
        ∙ tickets-check_token w token s in
      rw (e1, e2, e3, e4)
        (Admits-of_same s s4 _ r.ticket_id same (
          consume-Admits gate_id staff_id t.event_id t.id checked.0 VerificationResult.success
            checked.1 _ s4 r (subst (Distinct Ticket.id) (sym same) d) (rw (e1, e2, e3, e4) at h)))

  admit_fallback-Admits :
      (cfg : Config) (event_id gate_id staff_id : String) (ticket : Option Ticket) (s : State)
      (r : VerifyResult)
      → Distinct Ticket.id s.tickets
      → (admit_fallback w cfg event_id gate_id staff_id ticket s).0 ≡ ok r
      → Admits s (admit_fallback w cfg event_id gate_id staff_id ticket s).1 r.ticket_id
  unfolding admit_fallback ◌>>=◌
  admit_fallback-Admits cfg event_id gate_id staff_id (some t) s r d h =
      consume-Admits gate_id staff_id event_id t.id VerificationMode.fallback
        VerificationResult.fallback none _ s r d h
  admit_fallback-Admits cfg event_id gate_id staff_id none s r d h = absurd (ground arith)

  pub fallback_verify-Admits :
      (cfg : Config) (government_id event_id gate_id staff_id : String) (s : State)
      (r : VerifyResult)
      → Distinct Ticket.id s.tickets
      → (fallback_verify w cfg government_id event_id gate_id staff_id s).0 ≡ ok r
      → Admits s (fallback_verify w cfg government_id event_id gate_id staff_id s).1 r.ticket_id
  unfolding fallback_verify ◌>>=◌
  fallback_verify-Admits cfg government_id event_id gate_id staff_id s r d h =
      elim (Option-cases (find_by (has_id_hash w cfg (w.sha256 government_id)) s.persons)) [
        | inl missing ↦ absurd (ground arith)
        | inr (p, found) ↦
            rw (found, or_throw)
              (admit_fallback-Admits cfg event_id gate_id staff_id
                (fallback_ticket w cfg event_id p.id s) s r d (rw (found, or_throw) at h))
      ]
