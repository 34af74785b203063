-- ===== src/Seats/Runs.antt =====
-- seat-allocation/seat-allocation.service.ts, findConsecutiveSeats, against what it looks for: a
-- block of the list that is a run of the size asked for.
use blocktic_backend.Base.{
  ℕ, ◌+◌, ◌≤◌, ◌<◌, ◌≡◌, ◌≢◌, refl, sym, ap, ◌∙◌, true, false, none, some, List, [], ◌∷◌, ◌++◌,
  arith, length, length-append, some_inj, some≢none, Bool-cases, inl, inr, ◌⊎◌, ◌&&◌, ◌==◌,
  string_eq, nat_eq, eq_iff,
}
use blocktic_backend.Entities.{Seat}
use blocktic_backend.Seats.{last, extends, grow, scan, find_consecutive_seats}

-- The seats are in one row, and each has the number after the one before it.
abbrev pub IsRun : List Seat → Type 0
IsRun [] = Unit
IsRun (s ∷ []) = Unit
IsRun (s ∷ t ∷ rest) = (s.row ≡ t.row) × (t.seat_number ≡ s.seat_number + 1) × IsRun (t ∷ rest)

-- `run` stands in `seats`, without gaps.
pub record IsBlock (run seats : List Seat) : Type 0 where
  pub before : List Seat
  pub after : List Seat
  pub split : seats ≡ before ++ (run ++ after)

last-append : (r : Seat) (run : List Seat) (c : Seat) → last r (run ++ c ∷ []) ≡ c
last-append r [] c = refl
last-append r (t ∷ run) c = last-append t run c

append_assoc : (a b c : List Seat) → (a ++ b) ++ c ≡ a ++ (b ++ c)
append_assoc [] b c = refl
append_assoc (x ∷ a) b c = ap (λ l. x ∷ l) (append_assoc a b c)

length-snoc : (run : List Seat) (s : Seat) → length (run ++ s ∷ []) ≡ length run + 1
length-snoc run s = length-append run (s ∷ [])

next_to :
    (l s : Seat)
    → (s.row == l.row && (s.seat_number == l.seat_number + 1)) ≡ true
    → (l.row ≡ s.row) × (s.seat_number ≡ l.seat_number + 1)
next_to l s e = ground (arith, eq_iff s.row l.row)

next_to_extends :
    (l s : Seat)
    → l.row ≡ s.row
    → s.seat_number ≡ l.seat_number + 1
    → (s.row == l.row && (s.seat_number == l.seat_number + 1)) ≡ true
next_to_extends l s same next = ground (arith, eq_iff s.row l.row)

IsRun-append :
    (r : Seat) (run : List Seat) (s : Seat)
    → IsRun (r ∷ run)
    → extends (r ∷ run) s ≡ true
    → IsRun (r ∷ (run ++ s ∷ []))
IsRun-append r [] s h e = let (same, next) = next_to r s e in (same, next, tt)
IsRun-append r (t ∷ run) s (same, next, h) e = (same, next, IsRun-append t run s h e)

IsRun-grow : (run : List Seat) (s : Seat) → IsRun run → IsRun (grow run s)
IsRun-grow [] s h = tt
IsRun-grow (r ∷ run) s h = elim (Bool-cases (extends (r ∷ run) s)) [
  | inl joins ↦ rw joins (IsRun-append r run s h joins)
  | inr stop ↦ rw stop tt
]

-- What has been read ends with the run.
grow-IsBlock :
    (run before : List Seat) (s : Seat)
    → (front : List Seat) × (before ++ (run ++ s ∷ []) ≡ front ++ grow run s)
grow-IsBlock run before s = elim (Bool-cases (extends run s)) [
  | inl joins ↦ (before, rw joins refl)
  | inr stop ↦ (before ++ run, rw stop (sym (append_assoc before run (s ∷ []))))
]

scan_sound :
    (size : ℕ) (before run seats chosen : List Seat)
    → IsRun run
    → scan size run seats ≡ some chosen
    → (length chosen ≡ size) × IsRun chosen × IsBlock chosen (before ++ (run ++ seats))
unfolding scan
scan_sound size before run [] chosen h e = absurd (some≢none (sym e))
scan_sound size before run (s ∷ rest) chosen h e =
    let (front, read) = grow-IsBlock run before s in
    let moved : before ++ (run ++ s ∷ rest) ≡ front ++ (grow run s ++ rest) =
      sym (append_assoc before run (s ∷ rest) ∙ refl)
      ∙ regroup before run s rest
      ∙ ap (λ l. l ++ rest) read
      ∙ append_assoc front (grow run s) rest in
    elim (Bool-cases (length (grow run s) == size)) [
      | inl full ↦
          let same : grow run s ≡ chosen = some_inj (rw (full) at e) in
          (
            rw (← same) ((nat_eq.equal_iff _ _).0 full),
            rw (← same) (IsRun-grow run s h),
            record { before = front; after = rest; split = rw (← same) moved },
          )
      | inr more ↦
          rw moved
            (scan_sound size front (grow run s) rest chosen (IsRun-grow run s h) (rw more at e))
    ]
  where
    regroup :
        (before run : List Seat) (s : Seat) (rest : List Seat)
        → (before ++ run) ++ s ∷ rest ≡ (before ++ (run ++ s ∷ [])) ++ rest
    regroup before run s rest =
        append_assoc before run (s ∷ rest)
        ∙ sym (
            append_assoc before (run ++ s ∷ []) rest
            ∙ ap (λ l. before ++ l) (append_assoc run (s ∷ []) rest))

-- A search that returns seats returns as many as were asked for, in one row and with numbers that
-- follow each other, and they stand side by side in the list that was searched.
pub find_consecutive_seats_sound :
    (seats chosen : List Seat) (size : ℕ)
    → find_consecutive_seats seats size ≡ some chosen
    → (length chosen ≡ size) × IsRun chosen × IsBlock chosen seats
unfolding find_consecutive_seats
find_consecutive_seats_sound [] chosen size e = absurd (some≢none (sym e))
find_consecutive_seats_sound (s ∷ rest) chosen size e = elim (Bool-cases (size == 1)) [
  | inl one ↦
      let same : s ∷ [] ≡ chosen = some_inj (rw (one) at e) in
      (
        rw (← same) (sym ((nat_eq.equal_iff size 1).0 one)),
        rw (← same) tt,
        record { before = []; after = rest; split = rw (← same) refl },
      )
  | inr many ↦ scan_sound size [] [] (s ∷ rest) chosen tt (rw many at e)
]

-- `cs` joins on to `run`, seat by seat.
abbrev Continues : List Seat → List Seat → Type 0
Continues run [] = Unit
Continues run (c ∷ cs) = (extends run c ≡ true) × Continues (run ++ c ∷ []) cs

extends-append :
    (run : List Seat) (c s : Seat)
    → c.row ≡ s.row
    → s.seat_number ≡ c.seat_number + 1
    → extends (run ++ c ∷ []) s ≡ true
extends-append [] c s same next = next_to_extends c s same next
extends-append (r ∷ run) c s same next = rw (last-append r run c) (next_to_extends c s same next)

IsRun-Continues :
    (run : List Seat) (c : Seat) (cs : List Seat) → IsRun (c ∷ cs) → Continues (run ++ c ∷ []) cs
IsRun-Continues run c [] h = tt
IsRun-Continues run c (d ∷ cs) (same, next, h) =
    (extends-append run c d same next, IsRun-Continues (run ++ c ∷ []) d cs h)

below : (n size k : ℕ) → (n ≡ k + 1) ⊎ (n ≡ 1) → (n == size) ≡ false → k < size → n < size
below n size k e d lt = ground arith

scan-Continues :
    (size : ℕ) (run cs after : List Seat)
    → Continues run cs
    → length run < size
    → size ≤ length run + length cs
    → scan size run (cs ++ after) ≢ none
unfolding scan
scan-Continues size run [] after h short long e = absurd (omega arith)
scan-Continues size run (c ∷ cs) after (joins, h) short long e =
    elim (Bool-cases (length (run ++ c ∷ []) == size)) [
      | inl full ↦ some≢none (rw (joins, full) at e)
      | inr more ↦
          scan-Continues size (run ++ c ∷ []) cs after h
            (below (length (run ++ c ∷ [])) size (length run) (inl (length-snoc run c)) more short)
            (omega (arith, length-snoc run c)) (rw (joins, more) at e)
    ]

length-grow :
    (run : List Seat) (s : Seat)
    → (length (grow run s) ≡ length run + 1) ⊎ (length (grow run s) ≡ 1)
length-grow run s = elim (Bool-cases (extends run s)) [
  | inl joins ↦ rw joins (inl (length-snoc run s))
  | inr stop ↦ rw stop (inr refl)
]

grow-Continues :
    (run : List Seat) (c : Seat) (cs : List Seat) → IsRun (c ∷ cs) → Continues (grow run c) cs
grow-Continues run c cs h = elim (Bool-cases (extends run c)) [
  | inl joins ↦ rw joins (IsRun-Continues run c cs h)
  | inr stop ↦ rw stop (IsRun-Continues [] c cs h)
]

length-grow_pos : (run : List Seat) (s : Seat) → 1 ≤ length (grow run s)
length-grow_pos run s = elim (length-grow run s) [ inl e ↦ omega arith | inr e ↦ omega arith ]

scan_complete :
    (size : ℕ) (run before : List Seat) (c : Seat) (cs after : List Seat)
    → IsRun (c ∷ cs)
    → length (c ∷ cs) ≡ size
    → length run < size
    → scan size run (before ++ (c ∷ cs ++ after)) ≢ none
unfolding scan
scan_complete size run [] c cs after h long short e =
    elim (Bool-cases (length (grow run c) == size)) [
      | inl full ↦ some≢none (rw full at e)
      | inr more ↦
          scan-Continues size (grow run c) cs after (grow-Continues run c cs h)
            (below (length (grow run c)) size (length run) (length-grow run c) more short)
            (omega (arith, length-grow_pos run c)) (rw more at e)
    ]
scan_complete size run (b ∷ before) c cs after h long short e =
    elim (Bool-cases (length (grow run b) == size)) [
      | inl full ↦ some≢none (rw full at e)
      | inr more ↦
          scan_complete size (grow run b) before c cs after h long
            (below (length (grow run b)) size (length run) (length-grow run b) more short)
            (rw more at e)
    ]

-- A search for at least one seat finds nothing only where there is nothing to find: if a run of the
-- size asked for stands side by side in the list, seats are returned.
pub find_consecutive_seats_complete :
    (seats run : List Seat) (size : ℕ)
    → 1 ≤ size
    → length run ≡ size
    → IsRun run
    → IsBlock run seats
    → find_consecutive_seats seats size ≢ none
unfolding find_consecutive_seats
find_consecutive_seats_complete seats [] size pos long h block e = absurd (omega arith)
find_consecutive_seats_complete [] (c ∷ cs) size pos long h block e =
    absurd (not_empty block.before (sym block.split))
  where
    not_empty : (before : List Seat) → before ++ (c ∷ cs ++ block.after) ≢ []
    not_empty [] e = cc
    not_empty (b ∷ before) e = cc
find_consecutive_seats_complete (s ∷ rest) (c ∷ cs) size pos long h block e =
    elim (Bool-cases (size == 1)) [
      | inl one ↦ some≢none (rw one at e)
      | inr many ↦
          scan_complete size [] block.before c cs block.after h long (omega arith)
            (ap (scan size []) (sym block.split) ∙ rw many at e)
    ]
