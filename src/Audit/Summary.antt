-- ===== src/Audit/Summary.antt =====
-- audit/audit.service.ts, getEventSummary: the counts by action against the log.
use blocktic_backend.Base.{
  ℕ, ◌+◌, ◌≤◌, String, ◌≡◌, refl, ◌∙◌, Bool, true, false, Option, some, List, [], ◌∷◌, arith,
  length, keep, tally, All, Bool-cases, Option-cases, inl, inr, ◌==◌, nat_eq,
}
use blocktic_backend.Entities.{AuditLog, AuditAction, action_eq}
use blocktic_backend.Exec.{ok, ◌>>=◌}
use blocktic_backend.State.{State}
use blocktic_backend.Audit.{
  ActionCount, AuditSummary, of_event, counted, all_actions, sum_counts, first_at, last_at,
  summary_of, get_event_summary,
}

abbrev with_action : AuditAction → AuditLog → Bool
with_action a l = action_eq l.action a

-- The sum of the counts of the actions listed, those that are 0 included.
abbrev total_of : List AuditAction → List AuditLog → ℕ
total_of [] logs = 0
total_of (a ∷ rest) logs = tally (with_action a) logs + total_of rest logs

sum_counts-counted :
    (n : ℕ) (logs : List AuditLog) (actions : List AuditAction)
    → sum_counts n (counted logs actions) ≡ n + total_of actions logs
sum_counts-counted n logs [] = omega arith
sum_counts-counted n logs (a ∷ rest) = elim (Bool-cases (tally (with_action a) logs == 0)) [
  | inl zero_count ↦ rw zero_count (
      sum_counts-counted n logs rest
      ∙ drop_zero (tally (with_action a) logs) (total_of rest logs) zero_count)
  | inr counts ↦
      rw counts (sum_counts-counted (n + tally (with_action a) logs) logs rest ∙ omega arith)
]
  where
    drop_zero : (t r : ℕ) → (t == 0) ≡ true → n + r ≡ n + (t + r)
    drop_zero t r h = ground arith

total_of_nil : (actions : List AuditAction) → total_of actions [] ≡ 0
total_of_nil [] = refl
total_of_nil (a ∷ rest) = omega (arith, total_of_nil rest)

-- Each log has one of the six actions.
total_of-length : (logs : List AuditLog) → total_of all_actions logs ≡ length logs
total_of-length [] = omega arith
total_of-length (l ∷ logs) = ground (arith, total_of-length logs)

-- A row counts the logs with its action, of which there is at least one.
abbrev pub CountsOf : List AuditLog → ActionCount → Type 0
CountsOf logs c = (c.count ≡ tally (with_action c.action) logs) × (1 ≤ c.count)

counted-CountsOf :
    (logs : List AuditLog) (actions : List AuditAction) → All (CountsOf logs) (counted logs actions)
counted-CountsOf logs [] = tt
counted-CountsOf logs (a ∷ rest) = elim (Bool-cases (tally (with_action a) logs == 0)) [
  | inl zero_count ↦ rw zero_count (counted-CountsOf logs rest)
  | inr counts ↦
      rw counts ((refl, positive (tally (with_action a) logs) counts), counted-CountsOf logs rest)
]
  where
    positive : (n : ℕ) → (n == 0) ≡ false → 1 ≤ n
    positive n h = ground arith

-- The log lies between the two times.
abbrev pub Within : Option ℕ → Option ℕ → AuditLog → Type 0
Within first last l =
    (a : ℕ) × (b : ℕ) × (first ≡ some a) × (last ≡ some b) × (a ≤ l.created_at) × (l.created_at ≤ b)

module _ (l : AuditLog) (logs : List AuditLog) where
  head-Within : Within (first_at (l ∷ logs)) (last_at (l ∷ logs)) l
  head-Within = elim (Option-cases (first_at logs)) [
    | inl e ↦ elim (Option-cases (last_at logs)) [
      | inl e' ↦ rw (e, e') (l.created_at, l.created_at, refl, refl, omega arith, omega arith)
      | inr (b, e') ↦ rw (e, e') (l.created_at, _, refl, refl, omega arith, ground arith)
    ]
    | inr (a, e) ↦ elim (Option-cases (last_at logs)) [
      | inl e' ↦ rw (e, e') (_, l.created_at, refl, refl, ground arith, omega arith)
      | inr (b, e') ↦ rw (e, e') (_, _, refl, refl, ground arith, ground arith)
    ]
  ]

  tail-Within :
      (m : AuditLog)
      → Within (first_at logs) (last_at logs) m
      → Within (first_at (l ∷ logs)) (last_at (l ∷ logs)) m
  tail-Within m (a, b, e, e', lo, hi) = rw (e, e') (_, _, refl, refl, ground arith, ground arith)

All-map :
    (P Q : AuditLog → Type 0) (logs : List AuditLog)
    → ((m : AuditLog) → P m → Q m)
    → All P logs
    → All Q logs
All-map P Q [] f h = tt
All-map P Q (m ∷ logs) f h = (f m h.0, All-map P Q logs f h.1)

All-Within : (logs : List AuditLog) → All (Within (first_at logs) (last_at logs)) logs
All-Within [] = tt
All-Within (l ∷ logs) =
    (head-Within l logs, All-map _ _ logs (tail-Within l logs) (All-Within logs))

-- The summary of an event changes nothing and covers its logs: the total is their number, each
-- row counts the logs with its action, and every log lies between the first and the last time.
pub get_event_summary_lem :
    (event_id : String) (s : State)
    → let logs = keep (of_event event_id) s.audit_logs in
      (r : AuditSummary) × (get_event_summary event_id s ≡ (ok r, s))
      × (r.total_logs ≡ length logs)
      × All (CountsOf logs) r.action_counts
      × All (Within r.first_log_at r.last_log_at) logs
unfolding get_event_summary ◌>>=◌
get_event_summary_lem event_id s =
    let logs = keep (of_event event_id) s.audit_logs in
    (
      summary_of event_id logs,
      refl,
      sum_counts-counted 0 logs all_actions ∙ omega (arith, total_of-length logs),
      counted-CountsOf logs all_actions,
      All-Within logs,
    )
