-- ===== src/Audit/Retry.antt =====
-- audit/audit.service.ts, cleanupEventData: an event whose deletion has failed is taken up again.
use blocktic_backend.Base.{
  ℕ, ◌+◌, ◌≤◌, String, ◌≡◌, ◌≢◌, refl, sym, ap, subst, ◌∙◌, Bool, true, false, ◌&&◌, ◌||◌, not,
  List, [], ◌∷◌, ◌++◌, arith, tally, tally-append, Bool-cases, inl, inr, ◌==◌, nat_eq, string_eq,
  eq_refl, eq_iff,
}
use blocktic_backend.Exec.{for_each, ◌>>=◌}
use blocktic_backend.Entities.{AuditLog, GateLog}
use blocktic_backend.State.{World, State, HttpReply, response, rejected, is_ok}
use blocktic_backend.Audit.{
  is_due, is_cleaned, add_distinct, events_to_clean, log_action, cleanup_reply, clean_event,
  cleanup_event_data,
}
use blocktic_backend.Audit.Cleanup.{
  has, has-add_distinct, events_to_clean-cleaned, Deleted, answer, asked, clean_event-logs,
  clean_event-ok,
}

times-absent :
    (d : String) (found : List String) → has d found ≡ false → tally (λ x. x == d) found ≡ 0
times-absent d [] h = refl
times-absent d (x ∷ found) h = ground (arith, times-absent d found)

absent-times :
    (d : String) (found : List String) → tally (λ x. x == d) found ≡ 0 → has d found ≡ false
absent-times d [] h = refl
absent-times d (x ∷ found) h = ground (arith, absent-times d found)

times-add_distinct :
    (d e : String) (found : List String)
    → tally (λ x. x == d) found ≤ 1
    → tally (λ x. x == d) (add_distinct e found) ≤ 1
times-add_distinct d e found h = elim (Bool-cases (has e found)) [
  | inl there ↦ rw there h
  | inr fresh ↦ elim (Bool-cases (e == d)) [
    | inl same ↦
        let none_yet =
          times-absent d found (subst (λ x. has x found ≡ false) ((eq_iff e d).0 same) fresh) in
        rw (fresh, same) (omega (arith, none_yet))
    | inr other ↦ rw (fresh, other) (omega (arith, h))
  ]
]

-- No event is taken up twice in a run.
times-events_to_clean :
    (d : String) (now : ℕ) (gates : List GateLog) (logs : List AuditLog)
    → tally (λ x. x == d) (events_to_clean now gates logs) ≤ 1
unfolding events_to_clean
times-events_to_clean d now [] logs = omega arith
times-events_to_clean d now (g ∷ gates) logs =
    let later = times-events_to_clean d now gates logs in
    elim (Bool-cases (is_due now g && not (is_cleaned g.event_id logs))) [
      | inl due ↦ rw due (times-add_distinct d g.event_id (events_to_clean now gates logs) later)
      | inr skipped ↦ rw skipped later
    ]

around :
    (d : String) (before after : List String)
    → tally (λ x. x == d) (before ++ d ∷ after) ≤ 1
    → (has d before ≡ false) × (has d after ≡ false)
around d before after h =
    let split = tally-append (λ x. x == d) before (d ∷ after) in
    let one : tally (λ x. x == d) (d ∷ after) ≡ 1 + tally (λ x. x == d) after =
      rw (eq_refl d) refl in
    (
      absent-times d before (omega (arith, h, split, one)),
      absent-times d after (omega (arith, h, split, one)),
    )

is_cleaned-other :
    (d : String) (logs : List AuditLog) (l : AuditLog)
    → (l.event_id == d) ≡ false
    → is_cleaned d (logs ++ l ∷ []) ≡ is_cleaned d logs
is_cleaned-other d [] l other = rw other refl
is_cleaned-other d (m ∷ logs) l other = ground (arith, is_cleaned-other d logs l other)

-- What is due and not cleaned stays so at a later time.
events_to_clean-later :
    (d : String) (now now' : ℕ) (gates : List GateLog) (logs logs' : List AuditLog)
    → now ≤ now'
    → is_cleaned d logs' ≡ false
    → has d (events_to_clean now gates logs) ≡ true
    → has d (events_to_clean now' gates logs') ≡ true
unfolding events_to_clean
events_to_clean-later d now now' [] logs logs' later open_event h = h
events_to_clean-later d now now' (g ∷ gates) logs logs' later open_event h =
    let rest = events_to_clean now' gates logs' in
    elim (Bool-cases (g.event_id == d)) [
      | inl same ↦
          let at_d = (eq_iff g.event_id d).0 same in
          elim (Bool-cases (is_due now g)) [
            | inl due ↦
                let still : (is_due now' g && not (is_cleaned g.event_id logs')) ≡ true =
                  both _ _ (due_later due)
                    (subst (λ x. is_cleaned x logs' ≡ false) (sym at_d) open_event) in
                rw still (has-add_distinct d g.event_id rest ∙ rw same refl)
            | inr early ↦ keep_found (
                events_to_clean-later d now now' gates logs logs' later open_event
                  (not_this (λ due. absurd (true≢false (sym (first _ _ due) ∙ early)))))
          ]
      | inr other ↦ keep_found (
          events_to_clean-later d now now' gates logs logs' later open_event
            (not_this (λ due. other)))
    ]
  where
    true≢false : true ≢ false
    true≢false e = cc

    first : (a b : Bool) → (a && b) ≡ true → a ≡ true
    first a b h = ground arith

    both : (a b : Bool) → a ≡ true → b ≡ false → (a && not b) ≡ true
    both a b h k = ground arith

    due_later : is_due now g ≡ true → is_due now' g ≡ true
    due_later due = ground arith

    or_right : (a b : Bool) → a ≡ false → (a || b) ≡ true → b ≡ true
    or_right a b h k = ground arith

    or_found : (a b : Bool) → b ≡ true → (a || b) ≡ true
    or_found a b h = ground arith

    not_this :
        ((is_due now g && not (is_cleaned g.event_id logs)) ≡ true → (g.event_id == d) ≡ false)
        → has d (events_to_clean now gates logs) ≡ true
    not_this differs = elim (Bool-cases (is_due now g && not (is_cleaned g.event_id logs))) [
      | inl due ↦
          or_right (g.event_id == d) _ (differs due)
            (sym (has-add_distinct d g.event_id (events_to_clean now gates logs)) ∙ rw (due) at h)
      | inr skipped ↦ rw (skipped) at h
    ]

    keep_found :
        has d (events_to_clean now' gates logs') ≡ true
        → has d (events_to_clean now' (g ∷ gates) logs') ≡ true
    keep_found found = elim (Bool-cases (is_due now' g && not (is_cleaned g.event_id logs'))) [
      | inl due ↦ rw due (
          has-add_distinct d g.event_id (events_to_clean now' gates logs')
          ∙ or_found (g.event_id == d) _ found)
      | inr skipped ↦ rw skipped found
    ]

module _ (w : World) where
  cleanup_reply-other :
      (e d : String) (reply : HttpReply (Unit {0})) (s : State)
      → (e == d) ≡ false
      → is_cleaned d (cleanup_reply w e reply s).1.audit_logs ≡ is_cleaned d s.audit_logs
  unfolding log_action ◌>>=◌
  cleanup_reply-other e d rejected s other = refl
  cleanup_reply-other e d (response status body) s other =
      elim (Bool-cases (not (is_ok status) && not (status == 404))) [
        | inl retry ↦ rw retry refl
        | inr gone ↦ rw gone (is_cleaned-other d s.audit_logs _ other)
      ]

  cleanup_reply-failed :
      (e : String) (reply : HttpReply (Unit {0})) (s : State)
      → ¬ Deleted reply
      → (cleanup_reply w e reply s).1.audit_logs ≡ s.audit_logs
  unfolding log_action ◌>>=◌
  cleanup_reply-failed e rejected s failed = refl
  cleanup_reply-failed e (response status body) s failed =
      elim (Bool-cases (not (is_ok status) && not (status == 404))) [
        | inl retry ↦ rw retry refl
        | inr gone ↦ absurd (failed (status, refl, ground arith))
      ]

  for_each-others :
      (events : List String) (d : String) (s : State)
      → has d events ≡ false
      → is_cleaned d (for_each events (clean_event w) s).1.audit_logs ≡ is_cleaned d s.audit_logs
  unfolding for_each ◌>>=◌
  for_each-others [] d s h = refl
  for_each-others (e ∷ events) d s h =
      let other : (e == d) ≡ false = ground arith in
      rw (clean_event-ok w e s) (
        for_each-others events d (clean_event w e s).1 (ground arith)
        ∙ ap (is_cleaned d) (clean_event-logs w e s)
        ∙ cleanup_reply-other e d (answer w e s) (asked w e s) other)

  for_each-failed :
      (before after : List String) (d : String) (s : State)
      → has d before ≡ false
      → has d after ≡ false
      → ¬ Deleted (answer w d (for_each before (clean_event w) s).1)
      → is_cleaned d (for_each (before ++ d ∷ after) (clean_event w) s).1.audit_logs
        ≡ is_cleaned d s.audit_logs
  unfolding for_each ◌>>=◌
  for_each-failed [] after d s fore aft failed = rw (clean_event-ok w d s) (
      for_each-others after d (clean_event w d s).1 aft
      ∙ ap (is_cleaned d)
          (clean_event-logs w d s ∙ cleanup_reply-failed d (answer w d s) (asked w d s) failed))
  for_each-failed (e ∷ before) after d s fore aft failed =
      let other : (e == d) ≡ false = ground arith in
      rw (clean_event-ok w e s) (
        for_each-failed before after d (clean_event w e s).1 (ground arith) aft
          (rw (clean_event-ok w e s) at failed)
        ∙ ap (is_cleaned d) (clean_event-logs w e s)
        ∙ cleanup_reply-other e d (answer w e s) (asked w e s) other)

  -- An event that a run of the job takes up, between the events `before` and `after`, and for which
  -- the face service does not answer by a success or a 404, but by another status, an error or not in
  -- time, is taken up again by a later look at the same gate logs with the audit log that the run
  -- left, whatever the service answered for the others.
  pub cleanup_event_data_retried :
      (before after : List String) (d : String) (now : ℕ) (s : State)
      → events_to_clean (w.now s.trace) s.gate_logs s.audit_logs ≡ before ++ d ∷ after
      → ¬ Deleted (answer w d (for_each before (clean_event w) s).1)
      → w.now s.trace ≤ now
      → has d (events_to_clean now s.gate_logs (cleanup_event_data w s).1.audit_logs) ≡ true
  unfolding cleanup_event_data ◌>>=◌
  cleanup_event_data_retried before after d now s due failed later =
      let start = w.now s.trace in
      let (fore, aft) = around d before after (
        subst (λ x. tally (λ y. y == d) x ≤ 1) due
          (times-events_to_clean d start s.gate_logs s.audit_logs)) in
      let taken : has d (events_to_clean start s.gate_logs s.audit_logs) ≡ true =
        rw due (has-middle before) in
      let open_event : is_cleaned d s.audit_logs ≡ false =
        elim (Bool-cases (is_cleaned d s.audit_logs)) [
          | inl cleaned ↦ absurd (
              true≢false
                (sym taken ∙ events_to_clean-cleaned d start s.gate_logs s.audit_logs cleaned))
          | inr open_event ↦ open_event
        ] in
      events_to_clean-later d start now s.gate_logs s.audit_logs _ later
        (rw due (for_each-failed before after d s fore aft failed ∙ open_event)) taken
    where
      true≢false : true ≢ false
      true≢false e = cc

      has-middle : (front : List String) → has d (front ++ d ∷ after) ≡ true
      has-middle [] = rw (eq_refl d) refl
      has-middle (x ∷ front) = ground (arith, has-middle front)
