-- ===== src/Seats/Allocation.antt =====
-- seat-allocation/seat-allocation.service.ts, allocateSeats and releaseSeat: what each writes.
use blocktic_backend.Base.{
  Distinct, Distinct-All, String, ◌≡◌, ◌≢◌, refl, sym, Bool, true, false, not, ◌&&◌, none, some,
  List, [], ◌∷◌, ◌++◌, arith, All, Option-cases, Bool-cases, inl, inr, ◌⊎◌, keep, map, find_id,
  save, find_id-save, key-find_id, eq_refl, ◌∙◌, ◌<>◌, length, ◌==◌, string_eq,
}
use blocktic_backend.Base.Counts.{All-keep-All, All-and}
use blocktic_backend.Exec.{Fault, conflict, ok, err, ◌>>=◌}
use blocktic_backend.Entities.{Seat, available, allocated, sold}
use blocktic_backend.State.{World, State, put_seats, transaction}
use blocktic_backend.Seats.{
  AllocateSeats, AllocationResult, seat_dto, find_consecutive_seats, is_candidate, available_seats,
  allocate_at, save_seats, allocate_seats, release_seat,
}
use blocktic_backend.Seats.Runs.{IsRun, IsBlock, find_consecutive_seats_sound}

pub All-keep : {A : Type 0} (p : A → Bool) (xs : List A) → All (λ x. p x ≡ true) (keep p xs)
All-keep p [] = tt
All-keep p (x ∷ xs) = elim (Bool-cases (p x)) [
  | inl holds ↦ rw holds (holds, All-keep p xs)
  | inr fails ↦ rw fails (All-keep p xs)
]

pub All-block :
    (P : Seat → Type 0) (run seats : List Seat) → IsBlock run seats → All P seats → All P run
All-block P run seats block h = middle block.before (rw block.split at h)
  where
    front : (xs : List Seat) → All P (xs ++ block.after) → All P xs
    front [] h = tt
    front (x ∷ xs) h = (h.0, front xs h.1)

    middle : (before : List Seat) → All P (before ++ (run ++ block.after)) → All P run
    middle [] h = front run h
    middle (b ∷ before) h = middle before h.1

-- A row of the table, found by its id, that is available in the zone and not locked.
abbrev pub Available :
    World
    → (event_id : String) → (locked : String → Bool) → (zone_id : String) → State
    → Seat
    → Type 0
Available w event_id locked zone_id s t =
    (find_id Seat.id t.id s.seats ≡ some t)
    × ((is_candidate w event_id zone_id t && not (locked t.id)) ≡ true)

module _ (w : World) (event_id : String) (ordered : List Seat → List Seat)
    (locked : String → Bool) where
  pub allocate_seats-err :
      (dto : AllocateSeats) (s : State) (e : Fault)
      → (allocate_seats w event_id ordered locked dto s).0 ≡ err e
      → (allocate_seats w event_id ordered locked dto s).1.db ≡ s.db
  unfolding allocate_seats transaction ◌>>=◌
  allocate_seats-err dto s e h = ground arith

  pub allocate_seats-ok :
      (dto : AllocateSeats) (s : State) (r : AllocationResult)
      → (allocate_seats w event_id ordered locked dto s).0 ≡ ok r
      → (chosen : List Seat) × (find_consecutive_seats
            (available_seats w event_id ordered locked dto.zone_id s)
            dto.group_size
          ≡ some chosen)
        × (r.seats ≡ map seat_dto (map (allocate_at w event_id (w.now s.trace)) chosen))
        × ((allocate_seats w event_id ordered locked dto s).1
            ≡ put_seats
                (save_seats w event_id
                  (map (allocate_at w event_id (w.now s.trace)) chosen)
                  s.seats)
                s)
  unfolding allocate_seats transaction ◌>>=◌
  allocate_seats-ok dto s r h =
      elim (Option-cases (
        find_consecutive_seats (available_seats w event_id ordered locked dto.zone_id s)
          dto.group_size)) [
            | inl missing ↦ ground arith
            | inr (chosen, found) ↦ (chosen, found, ground arith, ground arith)
          ]

  pub allocate_seats-Available :
      (sorts : (P : Seat → Type 0) (xs : List Seat) → All P xs → All P (ordered xs))
      (dto : AllocateSeats) (s : State) (chosen : List Seat)
      → Distinct Seat.id s.seats
      → find_consecutive_seats
          (available_seats w event_id ordered locked dto.zone_id s)
          dto.group_size
        ≡ some chosen
      → All (Available w event_id locked dto.zone_id s) chosen
  allocate_seats-Available sorts dto s chosen d found =
      let (size, run, block) = find_consecutive_seats_sound _ chosen dto.group_size found in
      let P = Available w event_id locked dto.zone_id s in
      All-block P chosen _ block (
        sorts P _ (
          All-and _ _ _ (All-keep-All _ _ s.seats (Distinct-All Seat.id s.seats d))
            (All-keep _ s.seats)))

  -- Where no two seats have one id and ORDER BY returns none but the rows it is given: an allocation
  -- that returns has chosen as many seats as the group has members, in one row and with numbers that
  -- follow each other; each of them is the row that the seats table had for its id, and that row was
  -- available, of this event and this zone, and not locked; the reply lists exactly these, as
  -- allocated, and the seats table changes by saving them.
  pub allocate_seats_sound :
      (sorts : (P : Seat → Type 0) (xs : List Seat) → All P xs → All P (ordered xs))
      (dto : AllocateSeats) (s : State) (r : AllocationResult)
      → Distinct Seat.id s.seats
      → (allocate_seats w event_id ordered locked dto s).0 ≡ ok r
      → (chosen : List Seat) × (length chosen ≡ dto.group_size)
        × IsRun chosen
        × All (Available w event_id locked dto.zone_id s) chosen
        × (r.seats ≡ map seat_dto (map (allocate_at w event_id (w.now s.trace)) chosen))
        × ((allocate_seats w event_id ordered locked dto s).1
            ≡ put_seats
                (save_seats w event_id
                  (map (allocate_at w event_id (w.now s.trace)) chosen)
                  s.seats)
                s)
  allocate_seats_sound sorts dto s r d h =
      let (chosen, found, listed, wrote) = allocate_seats-ok dto s r h in
      let (size, run, block) = find_consecutive_seats_sound _ chosen dto.group_size found in
      (chosen, size, run, allocate_seats-Available sorts dto s chosen d found, listed, wrote)

pub release_seat-ok :
    (seat_id : String) (s : State)
    → (release_seat seat_id s).0 ≡ ok tt
    → (t : Seat) × (find_id Seat.id seat_id s.seats ≡ some t)
      × ((t.status ≡ allocated) ⊎ (t.status ≡ sold))
      × ((release_seat seat_id s).1
          ≡ put_seats
              (save Seat.id
                (record t { status = available; ticket_id = none; allocated_at = none })
                s.seats)
              s)
unfolding release_seat ◌>>=◌
release_seat-ok seat_id s h = elim (Option-cases (find_id Seat.id seat_id s.seats)) [
  | inl missing ↦ ground arith
  | inr (t, found) ↦ (t, found, ground arith, ground arith)
]

pub release_seat-err :
    (seat_id : String) (s : State) (e : Fault)
    → (release_seat seat_id s).0 ≡ err e
    → (release_seat seat_id s).1 ≡ s
unfolding release_seat ◌>>=◌
release_seat-err seat_id s e h = ground arith

-- A second release.
refused :
    (seat_id : String) (s' : State) (t : Seat)
    → find_id Seat.id seat_id s'.seats ≡ some t
    → t.status ≡ available
    → release_seat seat_id s' ≡ (err (conflict ("Seat " <> seat_id <> " is already available")), s')
unfolding release_seat ◌>>=◌
refused seat_id s' t found free = rw (found, free) refl

-- A release that returns has found an allocated or sold seat; afterwards it is available and has no
-- ticket, every other seat is as it was, and a second release of it is refused as a conflict and
-- changes nothing.
pub release_seat_once :
    (seat_id other : String) (s : State)
    → (release_seat seat_id s).0 ≡ ok tt
    → (t : Seat) × ((t.status ≡ allocated) ⊎ (t.status ≡ sold))
      × (find_id Seat.id seat_id s.seats ≡ some t)
      × (find_id Seat.id seat_id (release_seat seat_id s).1.seats
          ≡ some (record t { status = available; ticket_id = none; allocated_at = none }))
      × (other ≢ seat_id
          → find_id Seat.id other (release_seat seat_id s).1.seats ≡ find_id Seat.id other s.seats)
      × (release_seat seat_id (release_seat seat_id s).1 ≡ (
        err (conflict ("Seat " <> seat_id <> " is already available")),
        (release_seat seat_id s).1,
      ))
release_seat_once seat_id other s h =
    let (t, found, was, wrote) = release_seat-ok seat_id s h in
    let freed = record t { status = available; ticket_id = none; allocated_at = none } in
    let same = key-find_id Seat.id seat_id s.seats t found in
    let now : find_id Seat.id seat_id (release_seat seat_id s).1.seats ≡ some freed =
      rw wrote (find_id-save Seat.id seat_id freed s.seats ∙ rw (same, eq_refl seat_id) refl) in
    (
      t,
      was,
      found,
      now,
      λ differ. rw wrote (find_id-save Seat.id other freed s.seats ∙ rw (same, apart differ) refl),
      refused seat_id (release_seat seat_id s).1 freed now refl,
    )
  where
    apart : other ≢ seat_id → (seat_id == other) ≡ false
    apart differ = elim (Bool-cases (seat_id == other)) [
      | inl same ↦ absurd (differ (sym ((string_eq.equal_iff seat_id other).0 same)))
      | inr no_match ↦ no_match
    ]
