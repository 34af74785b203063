-- ===== src/Seats/Tests.antt =====
-- Seat allocation at concrete inputs: a row of four seats, one of them taken.
use blocktic_backend.Base.{
  Distinct, ℕ, String, ◌≡◌, ◌≢◌, keep, tally, refl, Bool, true, false, none, some, List, [], ◌∷◌,
  arith, All, find_id, length, map, ◌⊎◌,
}
use blocktic_backend.Exec.{ok, err, conflict, ◌>>=◌}
use blocktic_backend.Entities.{Seat, SeatStatus, available, allocated, sold}
use blocktic_backend.State.{State, transaction, put_seats}
use blocktic_backend.Seats.{
  AllocateSeats, AllocationResult, find_consecutive_seats, seat_dto, allocate_at, save_seats,
  allocate_seats, release_seat,
}
use blocktic_backend.Seats.Map.{SeatMapResponse, of_event, is_free, get_seat_map}
use blocktic_backend.Seats.Totals.{get_seat_map-totals}
use blocktic_backend.Seats.Runs.{
  IsRun, IsBlock, find_consecutive_seats_sound, find_consecutive_seats_complete,
}
use blocktic_backend.Seats.Allocation.{Available, allocate_seats_sound, release_seat_once}
use blocktic_backend.Samples.{world, empty_db, state_of}

abbrev seat_at : String → ℕ → SeatStatus → Seat
seat_at id number status = record {
  id = id;
  event_id = "e1";
  zone_id = "z1";
  row = "A";
  seat_number = number;
  status = status;
  ticket_id = none;
  allocated_at = none;
}

abbrev free_seats : List Seat
free_seats =
    seat_at "s1" 1 available
    ∷ seat_at "s3" 3 available
    ∷ seat_at "s4" 4 available
    ∷ seat_at "s6" 6 available
    ∷ []

abbrev pair : List Seat
pair = seat_at "s3" 3 available ∷ seat_at "s4" 4 available ∷ []

abbrev hall : State
hall = state_of (record empty_db { seats = seat_at "s2" 2 sold ∷ free_seats })

abbrev group : AllocateSeats
group = record { user_id = "u1"; group_size = 2; zone_id = "z1" }

abbrev allocation : AllocationResult
allocation = record {
  allocation_id = "r";
  seats = map seat_dto (map (allocate_at world "e1" 1000000) pair);
}

abbrev as_stored : List Seat → List Seat
as_stored xs = xs

abbrev nobody : String → Bool
nobody id = false

runs : Unit {0}
unfolding find_consecutive_seats allocate_seats release_seat transaction ◌>>=◌
runs = tt

found_pair : find_consecutive_seats free_seats 2 ≡ some pair
unfolding runs
found_pair = refl

allocated_pair : (allocate_seats world "e1" as_stored nobody group hall).0 ≡ ok allocation
unfolding runs
allocated_pair = refl

released_sold : (release_seat "s2" hall).0 ≡ ok tt
unfolding runs
released_sold = refl

find_consecutive_seats_sound_example : (length pair ≡ 2) × IsRun pair × IsBlock pair free_seats
find_consecutive_seats_sound_example = find_consecutive_seats_sound free_seats pair 2 found_pair

find_consecutive_seats_complete_example : find_consecutive_seats free_seats 2 ≢ none
find_consecutive_seats_complete_example =
    find_consecutive_seats_complete free_seats pair 2 (omega arith) refl (refl, refl, tt)
      (record {
        before = seat_at "s1" 1 available ∷ [];
        after = seat_at "s6" 6 available ∷ [];
        split = refl;
      })

hall-Distinct : Distinct Seat.id hall.seats
hall-Distinct = (refl, (refl, (refl, (refl, (refl, tt)))))

allocate_seats_sound_example :
    (chosen : List Seat) × (length chosen ≡ 2)
    × IsRun chosen
    × All (Available world "e1" nobody "z1" hall) chosen
    × (allocation.seats ≡ map seat_dto (map (allocate_at world "e1" 1000000) chosen))
    × ((allocate_seats world "e1" as_stored nobody group hall).1
        ≡ put_seats
            (save_seats world "e1" (map (allocate_at world "e1" 1000000) chosen) hall.seats)
            hall)
allocate_seats_sound_example =
    allocate_seats_sound world "e1" as_stored nobody (λ P xs h. h) group hall allocation
      hall-Distinct allocated_pair

release_seat_once_example :
    (t : Seat) × ((t.status ≡ allocated) ⊎ (t.status ≡ sold))
    × (find_id Seat.id "s2" hall.seats ≡ some t)
    × (find_id Seat.id "s2" (release_seat "s2" hall).1.seats
        ≡ some (record t { status = available; ticket_id = none; allocated_at = none }))
    × (◌≢◌ {A = String} "s1" "s2"
        → find_id Seat.id "s1" (release_seat "s2" hall).1.seats ≡ find_id Seat.id "s1" hall.seats)
    × (release_seat "s2" (release_seat "s2" hall).1
        ≡ (err (conflict "Seat s2 is already available"), (release_seat "s2" hall).1))
release_seat_once_example = release_seat_once "s2" "s1" hall released_sold

abbrev any_order : String × String → String × String → Bool
any_order a b = true

abbrev hall_map : SeatMapResponse
hall_map = record {
  event_id = "e1";
  zones =
      record {
        zone_id = "z1";
        rows = record { row = "A"; total_seats = 5; available_seats = 4 } ∷ [];
        total_seats = 5;
        available_seats = 4;
      }
      ∷ [];
  total_seats = 5;
  total_available = 4;
}

mapped : (get_seat_map any_order "e1" hall).0 ≡ ok hall_map
unfolding get_seat_map ◌>>=◌
mapped = refl

get_seat_map-totals_example :
    ((get_seat_map any_order "e1" hall).1 ≡ hall)
    × (hall_map.total_seats ≡ length (keep (of_event "e1") hall.seats))
    × (hall_map.total_available ≡ tally is_free (keep (of_event "e1") hall.seats))
get_seat_map-totals_example = get_seat_map-totals any_order "e1" hall hall_map mapped
