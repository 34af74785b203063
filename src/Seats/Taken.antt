-- ===== src/Seats/Taken.antt =====
-- seat-allocation/seat-allocation.service.ts, allocateSeats: the seats that an allocation has taken,
-- under later allocations.
use blocktic_backend.Base.{
  ℕ, String, ◌≡◌, ◌≢◌, refl, sym, ◌∙◌, ap, Bool, some, some_inj, List, [], ◌∷◌, arith, All,
  Bool-cases, inl, inr, map, find_id, save, find_id-save, save-Distinct, Distinct, eq_refl, ◌==◌,
  string_eq,
}
use blocktic_backend.Base.Counts.{All-image}
use blocktic_backend.Exec.{ok, Result-cases}
use blocktic_backend.Exec.Keeps.{Moves}
use blocktic_backend.Entities.{Seat, allocated}
use blocktic_backend.State.{World, Db, State}
use blocktic_backend.Seats.{
  AllocateSeats, AllocationResult, SeatDto, seat_dto, allocate_at, save_seats, allocate_seats,
}
use blocktic_backend.Seats.Allocation.{
  Available, allocate_seats-Available, allocate_seats-ok, allocate_seats-err,
}

-- The table has a row with this id, and it is allocated.
pub record IsTaken (rows : List Seat) (id : String) : Type 0 where
  pub row : Seat
  pub found : find_id Seat.id id rows ≡ some row
  pub status : row.status ≡ allocated

-- A taken seat stays so, in a table whose keys are unique.
pub record StaysTaken (id : String) (s s' : State) : Type 0 where
  pub stays :
      Distinct Seat.id s.seats
      → IsTaken s.seats id
      → Distinct Seat.id s'.seats × IsTaken s'.seats id

IsTaken-save :
    (s : Seat) (rows : List Seat) (id : String)
    → s.status ≡ allocated
    → IsTaken rows id
    → IsTaken (save Seat.id s rows) id
IsTaken-save s rows id h t = elim (Bool-cases (s.id == id)) [
  | inl hit ↦ record { row = s; found = rw (find_id-save Seat.id id s rows, hit) refl; status = h }
  | inr miss ↦ record {
    row = t.row;
    found = rw (find_id-save Seat.id id s rows, miss) t.found;
    status = t.status;
  }
]

module _ (w : World) (event_id : String) where
  IsTaken-save_seats :
      (saved rows : List Seat) (id : String)
      → All (λ s. s.status ≡ allocated) saved
      → IsTaken rows id
      → IsTaken (save_seats w event_id saved rows) id
  IsTaken-save_seats [] rows id h t = t
  IsTaken-save_seats (s ∷ saved) rows id h t =
      IsTaken-save_seats saved (save Seat.id s rows) id h.1 (IsTaken-save s rows id h.0 t)

  save_seats-Distinct :
      (saved rows : List Seat)
      → Distinct Seat.id rows
      → Distinct Seat.id (save_seats w event_id saved rows)
  save_seats-Distinct [] rows d = d
  save_seats-Distinct (s ∷ saved) rows d =
      save_seats-Distinct saved (save Seat.id s rows) (save-Distinct Seat.id s rows d)

  save_seats-IsTaken :
      (saved rows : List Seat)
      → All (λ s. s.status ≡ allocated) saved
      → All (λ (s : Seat). IsTaken (save_seats w event_id saved rows) s.id) saved
  save_seats-IsTaken [] rows h = tt
  save_seats-IsTaken (s ∷ saved) rows h = (
    IsTaken-save_seats saved (save Seat.id s rows) s.id h.1 (record {
      row = s;
      found = rw (find_id-save Seat.id s.id s rows, eq_refl s.id) refl;
      status = h.0;
    }),
    save_seats-IsTaken saved (save Seat.id s rows) h.1,
  )

  allocate_at-allocated :
      (now : ℕ) (seats : List Seat)
      → All (λ (s : Seat). s.status ≡ allocated) (map (allocate_at w event_id now) seats)
  allocate_at-allocated now [] = tt
  allocate_at-allocated now (s ∷ seats) = (refl, allocate_at-allocated now seats)

  module _ (ordered : List Seat → List Seat) (locked : String → Bool) (dto : AllocateSeats) where
    -- The seats of an allocation are taken, and stay so under another.
    pub allocate_seats-IsTaken :
        (s : State) (r : AllocationResult)
        → (allocate_seats w event_id ordered locked dto s).0 ≡ ok r
        → All
            (λ (d : SeatDto). IsTaken (allocate_seats w event_id ordered locked dto s).1.seats d.id)
            r.seats
    allocate_seats-IsTaken s r h =
        let (chosen, found, listed, wrote) =
          allocate_seats-ok w event_id ordered locked dto s r h in
        let saved = map (allocate_at w event_id (w.now s.trace)) chosen in
        rw (listed, wrote)
          (All-image (λ (t : Seat). IsTaken (save_seats w event_id saved s.seats) t.id) _ seat_dto
            saved (λ t k. k)
            (save_seats-IsTaken saved s.seats (allocate_at-allocated (w.now s.trace) chosen)))

    pub allocate_seats-Distinct :
        (s : State) (r : AllocationResult)
        → (allocate_seats w event_id ordered locked dto s).0 ≡ ok r
        → Distinct Seat.id s.seats
        → Distinct Seat.id (allocate_seats w event_id ordered locked dto s).1.seats
    allocate_seats-Distinct s r h d =
        let (chosen, found, listed, wrote) =
          allocate_seats-ok w event_id ordered locked dto s r h in
        rw wrote
          (save_seats-Distinct (map (allocate_at w event_id (w.now s.trace)) chosen) s.seats d)

    pub allocate_seats-StaysTaken :
        (id : String) → Moves (StaysTaken id) (allocate_seats w event_id ordered locked dto)
    allocate_seats-StaysTaken id = record {
      at = λ s. record {
        stays = λ d t. elim (Result-cases (allocate_seats w event_id ordered locked dto s).0) [
          | inl (e, failed) ↦
              rw (ap Db.seats (allocate_seats-err w event_id ordered locked dto s e failed)) (d, t)
          | inr (r, done) ↦
              let (chosen, found, listed, wrote) =
                allocate_seats-ok w event_id ordered locked dto s r done in
              let saved = map (allocate_at w event_id (w.now s.trace)) chosen in
              rw wrote (
                save_seats-Distinct saved s.seats d,
                IsTaken-save_seats saved s.seats id (allocate_at-allocated (w.now s.trace) chosen)
                    t,
              )
        ];
      };
    }

    -- No seat that is taken is chosen.
    pub allocate_seats_untaken :
        (sorts : (P : Seat → Type 0) (xs : List Seat) → All P xs → All P (ordered xs)) (s : State)
        (r : AllocationResult) (id : String)
        → Distinct Seat.id s.seats
        → IsTaken s.seats id
        → (allocate_seats w event_id ordered locked dto s).0 ≡ ok r
        → All (λ (d : SeatDto). d.id ≢ id) r.seats
    allocate_seats_untaken sorts s r id d t h =
        let (chosen, found, listed, wrote) =
          allocate_seats-ok w event_id ordered locked dto s r h in
        let at_now = allocate_at w event_id (w.now s.trace) in
        rw listed (
          All-image (λ (x : Seat). x.id ≢ id) _ seat_dto (map at_now chosen) (λ x k. k)
            (All-image (Available w event_id locked dto.zone_id s) (λ (x : Seat). x.id ≢ id) at_now
              chosen (λ x a same. free≢taken x a t same)
              (allocate_seats-Available w event_id ordered locked sorts dto s chosen d found)))
      where
        free≢taken :
            (x : Seat)
            → Available w event_id locked dto.zone_id s x
            → IsTaken s.seats id
            → x.id ≢ id
        free≢taken x a t same =
            let one : x ≡ t.row = some_inj (sym a.0 ∙ rw same t.found) in
            ground (arith, t.status, ap Seat.status one, a.1)
