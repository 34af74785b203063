-- ===== src/Audit/Cleanup.antt =====
-- audit/audit.service.ts, cleanupEventData: which events a run takes up after another.
use blocktic_backend.Base.{
  ℕ, String, ◌≡◌, refl, sym, ap, subst, ◌∙◌, Bool, true, false, ◌&&◌, ◌||◌, not, none, List, [],
  ◌∷◌, ◌++◌, arith, find_by, is_some, Bool-cases, inl, inr, ◌==◌, nat_eq, string_eq, eq_refl,
  eq_iff,
}
use blocktic_backend.Exec.{ok, Result-cases, recover, pure, for_each, ◌>>=◌}
use blocktic_backend.Entities.{AuditLog, data_cleanup, GateLog}
use blocktic_backend.State.{
  World, State, HttpReply, response, rejected, is_ok, call, compreface_delete_subject,
}
use blocktic_backend.Audit.{
  new_log, is_due, is_cleaned, add_distinct, events_to_clean, log_action, cleanup_reply,
  clean_event, cleanup_event_data,
}

-- `e` stands in the list.
abbrev pub has : String → List String → Bool
has e found = is_some (find_by (λ x. x == e) found)

pub has-add_distinct :
    (e d : String) (found : List String) → has e (add_distinct d found) ≡ (d == e || has e found)
has-add_distinct e d found = elim (Bool-cases (has d found)) [
  | inl there ↦ elim (Bool-cases (d == e)) [
    | inl same ↦
        let here : has e found ≡ true =
          subst (λ x. has x found ≡ true) ((eq_iff d e).0 same) there in
        rw (there, same) here
    | inr other ↦ rw (there, other) refl
  ]
  | inr fresh ↦ elim (Bool-cases (d == e)) [
    | inl same ↦ rw (fresh, same) refl
    | inr other ↦ rw (fresh, other) refl
  ]
]

is_cleaned-append :
    (e : String) (logs more : List AuditLog)
    → is_cleaned e logs ≡ true
    → is_cleaned e (logs ++ more) ≡ true
is_cleaned-append e [] more h = ground arith
is_cleaned-append e (l ∷ logs) more h = ground (arith, is_cleaned-append e logs more)

is_cleaned-snoc :
    (l : AuditLog) (logs : List AuditLog)
    → l.action ≡ data_cleanup
    → is_cleaned l.event_id (logs ++ l ∷ []) ≡ true
is_cleaned-snoc l [] h = ground (arith, eq_refl l.event_id)
is_cleaned-snoc l (m ∷ logs) h = ground (arith, is_cleaned-snoc l logs h)

pub events_to_clean-cleaned :
    (e : String) (now : ℕ) (gates : List GateLog) (logs : List AuditLog)
    → is_cleaned e logs ≡ true
    → has e (events_to_clean now gates logs) ≡ false
unfolding events_to_clean
events_to_clean-cleaned e now [] logs h = refl
events_to_clean-cleaned e now (g ∷ gates) logs h =
    elim (Bool-cases (is_due now g && not (is_cleaned g.event_id logs))) [
      | inr skipped ↦ rw skipped (events_to_clean-cleaned e now gates logs h)
      | inl due ↦ rw due (
          has-add_distinct e g.event_id (events_to_clean now gates logs)
          ∙ neither (g.event_id == e) _ (differs due) (events_to_clean-cleaned e now gates logs h))
    ]
  where
    neither : (a b : Bool) → a ≡ false → b ≡ false → (a || b) ≡ false
    neither a b h k = ground arith

    differs : (is_due now g && not (is_cleaned g.event_id logs)) ≡ true → (g.event_id == e) ≡ false
    differs due = elim (Bool-cases (g.event_id == e)) [
      | inr other ↦ other
      | inl same ↦
          let cleaned : is_cleaned g.event_id logs ≡ true =
            subst (λ x. is_cleaned x logs ≡ true) (sym ((eq_iff g.event_id e).0 same)) h in
          ground arith
    ]

-- The answer says that the subject is gone: a success, or a 404.
abbrev pub Deleted : HttpReply (Unit {0}) → Type 0
Deleted reply =
    (status : ℕ) × (reply ≡ response status tt) × ((is_ok status || status == 404) ≡ true)

append_nil : (logs : List AuditLog) → logs ++ [] ≡ logs
append_nil [] = refl
append_nil (l ∷ logs) = ap (λ r. l ∷ r) (append_nil logs)

module _ (w : World) where
  cleanup_reply-adds :
      (e : String) (reply : HttpReply (Unit {0})) (s : State)
      → (more : List AuditLog) × ((cleanup_reply w e reply s).1.audit_logs ≡ s.audit_logs ++ more)
  unfolding log_action ◌>>=◌
  cleanup_reply-adds e rejected s = ([], sym (append_nil s.audit_logs))
  cleanup_reply-adds e (response status body) s =
      elim (Bool-cases (not (is_ok status) && not (status == 404))) [
        | inl retry ↦ rw retry ([], sym (append_nil s.audit_logs))
        | inr gone ↦ rw gone (_, refl)
      ]

  cleanup_reply-Deleted :
      (e : String) (reply : HttpReply (Unit {0})) (s : State)
      → Deleted reply
      → is_cleaned e (cleanup_reply w e reply s).1.audit_logs ≡ true
  unfolding log_action ◌>>=◌
  cleanup_reply-Deleted e reply s (status, answered, gone) =
      let none_left : (not (is_ok status) && not (status == 404)) ≡ false = ground arith in
      rw (answered, none_left)
        (is_cleaned-snoc (new_log w e none data_cleanup _ none s) s.audit_logs refl)

  recover-logs :
      (e : String) (reply : HttpReply (Unit {0})) (s : State)
      → (recover (cleanup_reply w e reply s).0 (λ _. pure tt) (cleanup_reply w e reply s).1).1
        ≡ (cleanup_reply w e reply s).1
  unfolding log_action ◌>>=◌
  recover-logs e reply s = elim (Result-cases (cleanup_reply w e reply s).0) [
    | inl (fault, failed) ↦ rw failed refl
    | inr (done, worked) ↦ rw worked refl
  ]

  -- The state in which the answer arrives.
  abbrev pub asked : String → State → State
  asked e s = record s { trace = compreface_delete_subject e ∷ s.trace }

  abbrev pub answer : String → State → HttpReply (Unit {0})
  answer e s = w.delete_face s.trace (compreface_delete_subject e)

  pub clean_event-logs :
      (e : String) (s : State)
      → (clean_event w e s).1.audit_logs ≡ (cleanup_reply w e (answer e s) (asked e s)).1.audit_logs
  unfolding clean_event call ◌>>=◌
  clean_event-logs e s = ap (λ (t : State). t.audit_logs) (recover-logs e (answer e s) (asked e s))

  clean_event-kept :
      (e d : String) (s : State)
      → is_cleaned d s.audit_logs ≡ true
      → is_cleaned d (clean_event w e s).1.audit_logs ≡ true
  clean_event-kept e d s h =
      let (more, adds) = cleanup_reply-adds e (answer e s) (asked e s) in
      subst (λ logs. is_cleaned d logs ≡ true) (sym (clean_event-logs e s ∙ adds))
        (is_cleaned-append d s.audit_logs more h)

  clean_event-Deleted :
      (e : String) (s : State)
      → Deleted (answer e s)
      → is_cleaned e (clean_event w e s).1.audit_logs ≡ true
  clean_event-Deleted e s gone =
      subst (λ logs. is_cleaned e logs ≡ true) (sym (clean_event-logs e s))
        (cleanup_reply-Deleted e (answer e s) (asked e s) gone)

  pub clean_event-ok : (e : String) (s : State) → (clean_event w e s).0 ≡ ok tt
  unfolding clean_event call ◌>>=◌
  clean_event-ok e s = elim (Result-cases (cleanup_reply w e (answer e s) (asked e s)).0) [
    | inl (fault, failed) ↦ rw failed refl
    | inr (done, worked) ↦ rw worked refl
  ]

  for_each-kept :
      (events : List String) (d : String) (s : State)
      → is_cleaned d s.audit_logs ≡ true
      → is_cleaned d (for_each events (clean_event w) s).1.audit_logs ≡ true
  unfolding for_each ◌>>=◌
  for_each-kept [] d s h = h
  for_each-kept (e ∷ events) d s h =
      rw (clean_event-ok e s)
        (for_each-kept events d (clean_event w e s).1 (clean_event-kept e d s h))

  for_each-Deleted :
      (before after : List String) (d : String) (s : State)
      → Deleted (answer d (for_each before (clean_event w) s).1)
      → is_cleaned d (for_each (before ++ d ∷ after) (clean_event w) s).1.audit_logs ≡ true
  unfolding for_each ◌>>=◌
  for_each-Deleted [] after d s gone =
      rw (clean_event-ok d s)
        (for_each-kept after d (clean_event w d s).1 (clean_event-Deleted d s gone))
  for_each-Deleted (e ∷ before) after d s gone =
      rw (clean_event-ok e s)
        (for_each-Deleted before after d (clean_event w e s).1 (rw (clean_event-ok e s) at gone))

  -- An event that a run of the job takes up, between the events `before` and `after`, and for which
  -- the face service then answers by a success or a 404, is taken up by no later look at the gate logs,
  -- whatever the service answers for the other events, whatever has been logged at the gates since and
  -- at whatever time, as long as the audit log keeps what the job wrote.
  pub cleanup_event_data_once :
      (before after : List String) (d : String) (now : ℕ) (gates : List GateLog)
      (more : List AuditLog) (s : State)
      → events_to_clean (w.now s.trace) s.gate_logs s.audit_logs ≡ before ++ d ∷ after
      → Deleted (answer d (for_each before (clean_event w) s).1)
      → has d (events_to_clean now gates ((cleanup_event_data w s).1.audit_logs ++ more)) ≡ false
  unfolding cleanup_event_data ◌>>=◌
  cleanup_event_data_once before after d now gates more s due gone =
      events_to_clean-cleaned d now gates _
        (is_cleaned-append d _ more (rw due (for_each-Deleted before after d s gone)))
