-- ===== src/Entities/Seats.antt =====
-- seat-allocation/entities/seat.entity.ts.
use blocktic_backend.Base.{ℕ, String, Bool, true, false, Option}

pub data SeatStatus : Type 0 where
  available allocated sold used : SeatStatus

abbrev pub seat_status_eq : SeatStatus → SeatStatus → Bool
seat_status_eq available available = true
seat_status_eq allocated allocated = true
seat_status_eq sold sold = true
seat_status_eq used used = true
seat_status_eq _ _ = false

pub record Seat : Type 0 where
  pub id : String
  pub event_id : String
  pub zone_id : String
  pub row : String
  pub seat_number : ℕ
  pub status : SeatStatus
  pub ticket_id : Option String
  pub allocated_at : Option ℕ
