-- ===== src/Seats.antt =====
-- seat-allocation/seat-allocation.service.ts: consecutive seats for a group, and the release of a seat.
-- Rows that another transaction has locked are an argument of `allocate_seats`. The seat map is in
-- Seats/Map.antt.
pub mod Map
pub mod Sums
pub mod Totals
pub mod Runs
pub mod Allocation
pub mod Taken
pub mod Tests
use blocktic_backend.Base.{
  ℕ, ◌+◌, String, Bool, false, not, ◌&&◌, Option, none, some, List, [], ◌∷◌, ◌++◌, ◌<>◌, ltb, ◌==◌,
  nat_eq, string_eq, if◌then◌else◌, length, keep, find_id, save, map, decimal,
}
use blocktic_backend.Exec.{
  Fault, not_found, conflict, pure, gets, modify, throw_if, or_throw, ◌>>=◌, ◌>>◌,
}
use blocktic_backend.Entities.{Seat, SeatStatus, available, allocated, used, seat_status_eq}
use blocktic_backend.State.{World, State, App, put_seats, transaction}

-- dto/allocate-seats.dto.ts
pub record AllocateSeats : Type 0 where
  pub user_id : String
  pub group_size : ℕ
  pub zone_id : String

-- dto/seat-map.dto.ts
pub record SeatDto : Type 0 where
  pub id : String
  pub zone_id : String
  pub row : String
  pub seat_number : ℕ
  pub status : SeatStatus

pub record AllocationResult : Type 0 where
  pub allocation_id : String
  pub seats : List SeatDto

abbrev pub seat_dto : Seat → SeatDto
seat_dto s = record {
  id = s.id;
  zone_id = s.zone_id;
  row = s.row;
  seat_number = s.seat_number;
  status = s.status;
}

-- `run[run.length - 1]`
abbrev pub last : Seat → List Seat → Seat
last s [] = s
last s (t ∷ rest) = last t rest

-- The test of the `else` branch: `s` continues the run.
abbrev pub extends : List Seat → Seat → Bool
extends [] s = false
extends (r ∷ run) s = let l = last r run in s.row == l.row && (s.seat_number == l.seat_number + 1)

abbrev pub grow : List Seat → Seat → List Seat
grow run s = if extends run s then run ++ s ∷ [] else s ∷ []

unfoldable pub scan : (size : ℕ) → (run seats : List Seat) → Option (List Seat)
scan size run [] = none
scan size run (s ∷ rest) =
    let run' = grow run s in
    let later = scan size run' rest in if length run' == size then some run' else later

unfoldable pub find_consecutive_seats : List Seat → ℕ → Option (List Seat)
unfolding scan
find_consecutive_seats [] size = none
find_consecutive_seats (s ∷ rest) size =
    if size == 1 then some (s ∷ []) else scan size [] (s ∷ rest)

module _ (w : World) (event_id : String) where
  abbrev pub is_candidate : String → Seat → Bool
  is_candidate zone_id s =
      s.event_id == event_id && s.zone_id == zone_id && seat_status_eq s.status available

  -- The rows of the first query; `ordered` is the database's ORDER BY row, seatNumber.
  abbrev pub available_seats :
      (ordered : List Seat → List Seat) (locked : String → Bool) → String → State → List Seat
  available_seats ordered locked zone_id s =
      ordered (keep (λ t. is_candidate zone_id t && not (locked t.id)) s.seats)

  abbrev pub total_available : String → State → ℕ
  total_available zone_id s = length (keep (is_candidate zone_id) s.seats)

  abbrev pub no_seats : AllocateSeats → ℕ → List Seat → Fault
  no_seats dto total found =
      if ltb 0 total && length found == 0
      then conflict (
          "Seats in zone " <> dto.zone_id
          <> " are temporarily locked by other allocations. Please retry.")
      else conflict (
          "No "
          <> decimal dto.group_size
          <> " consecutive available seats in zone "
          <> dto.zone_id
          <> " for event "
          <> event_id)

  abbrev pub allocate_at : ℕ → Seat → Seat
  allocate_at now s = record s { status = allocated; allocated_at = some now }

  abbrev pub save_seats : List Seat → List Seat → List Seat
  save_seats [] rows = rows
  save_seats (s ∷ rest) rows = save_seats rest (save Seat.id s rows)

  unfoldable pub allocate_seats :
      (ordered : List Seat → List Seat) (locked : String → Bool)
      → AllocateSeats
      → App AllocationResult
  unfolding transaction find_consecutive_seats
  allocate_seats ordered locked dto = transaction (do
    allocation_id ← gets (λ s. w.random s.trace)
    found ← gets (available_seats ordered locked dto.zone_id)
    total ← gets (total_available dto.zone_id)
    chosen ← or_throw (find_consecutive_seats found dto.group_size) (no_seats dto total found)
    now ← gets (λ s. w.now s.trace)
    let saved = map (allocate_at now) chosen
    modify (λ s. put_seats (save_seats saved s.seats) s)
    pure (record { allocation_id = allocation_id; seats = map seat_dto saved }))

unfoldable pub release_seat : (seat_id : String) → App (Unit {0})
release_seat seat_id = do
  found ← gets (λ s. find_id Seat.id seat_id s.seats)
  seat ← or_throw found (not_found ("Seat " <> seat_id <> " not found"))
  throw_if (seat_status_eq seat.status available)
      (conflict ("Seat " <> seat_id <> " is already available"))
  throw_if (seat_status_eq seat.status used)
      (conflict ("Seat " <> seat_id <> " has already been used and cannot be released"))
  modify (λ s.
      put_seats
        (save Seat.id (record seat { status = available; ticket_id = none; allocated_at = none })
          s.seats)
        s)
