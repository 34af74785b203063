-- ===== src/Api/Seats.antt =====
-- seat-allocation/seat-allocation.controller.ts.
use blocktic_backend.Base.{String, Bool, Option, List}
use blocktic_backend.Exec.{◌>>=◌, ◌>>◌}
use blocktic_backend.Entities.{Seat}
use blocktic_backend.State.{World, App}
use blocktic_backend.Seats
use blocktic_backend.Seats.Map
use blocktic_backend.Api.Http.{Web, jwt_auth, admin_only, parse_uuid, validate_body}
use blocktic_backend.Api.Dto.{accepts_allocate_seats}

module _ (w : World) (web : Web) where
  -- The database's order of rows and the rows that other transactions lock are arguments.
  unfoldable pub allocate_seats :
      (authorization : Option String)
      → (event_id : String) → (ordered : List Seat → List Seat) (locked : String → Bool)
      → Seats.AllocateSeats
      → App Seats.AllocationResult
  unfolding admin_only parse_uuid validate_body
  allocate_seats authorization event_id ordered locked dto = do
    user ← admin_only web authorization
    parse_uuid web event_id
    validate_body (accepts_allocate_seats web dto)
    Seats.allocate_seats w event_id ordered locked dto

  unfoldable pub get_seat_map :
      (row_le : String × String → String × String → Bool)
      → (authorization : Option String) → (event_id : String) → App Map.SeatMapResponse
  unfolding jwt_auth parse_uuid
  get_seat_map row_le authorization event_id = do
    user ← jwt_auth web authorization
    parse_uuid web event_id
    Map.get_seat_map row_le event_id

  unfoldable pub release_seat :
      (authorization : Option String) → (seat_id : String) → App (Unit {0})
  unfolding admin_only parse_uuid
  release_seat authorization seat_id = do
    user ← admin_only web authorization
    parse_uuid web seat_id
    Seats.release_seat seat_id
