-- ===== src/Api/Seating.antt =====
-- Seats that are allocated, under the requests of the controllers.
use blocktic_backend.Base.{
  ◌≡◌, ◌≢◌, refl, String, Bool, true, false, Option, List, [], ◌∷◌, All, Distinct, arith,
}
use blocktic_backend.Base.Counts.{All-map}
use blocktic_backend.Exec.{ok}
use blocktic_backend.Exec.Keeps.{Moves, IsPreorder, moves_rules}
use blocktic_backend.Entities.{Seat}
use blocktic_backend.State.{World, Config, Db, State, App}
use blocktic_backend.State.Frame.{Same}
use blocktic_backend.Seats.{AllocateSeats, AllocationResult, SeatDto}
use blocktic_backend.Seats
use blocktic_backend.Seats.Taken.{
  IsTaken, StaysTaken, allocate_seats-Distinct, allocate_seats-IsTaken, allocate_seats-StaysTaken,
  allocate_seats_untaken,
}
use blocktic_backend.Api.Http.{Web}
use blocktic_backend.Api.Effects.{respond-Same, writes}
use blocktic_backend.Api.Guarding.{guard_rules}
use blocktic_backend.Api.Views.{Untouched-seats}
use blocktic_backend.Api.Seats as SeatsApi
use blocktic_backend.Api.Routes.{
  Endpoint, respond, respond_all, allocate_seats, release_seat, refund,
}

-- The endpoints that may give a seat back.
abbrev pub frees : Endpoint → Bool
frees (release_seat id) = true
frees (refund id) = true
frees _ = false

module _ (id : String) where
  StaysTaken-IsPreorder : IsPreorder (StaysTaken id)
  StaysTaken-IsPreorder = record {
    same = λ s. record { stays = λ d t. (d, t) };
    chain = λ a b c p q. record { stays = λ d t. let (d', t') = p.stays d t in q.stays d' t' };
  }

  StaysTaken-Same : {A : Type 0} (m : App A) → Moves (Same Db.seats) m → Moves (StaysTaken id) m
  StaysTaken-Same m h = record { at = λ s. record { stays = λ d t. rw ((h.at s).same) (d, t) } }

  module _ (w : World) (cfg : Config) (web : Web) where
    respond-StaysTaken :
        (auth : Option String) (e : Endpoint)
        → frees e ≡ false
        → Moves (StaysTaken id) (respond w cfg web auth e)
    unfolding respond SeatsApi.allocate_seats
    respond-StaysTaken auth (release_seat seat) h = ground arith
    respond-StaysTaken auth (refund ticket) h = ground arith
    respond-StaysTaken auth (allocate_seats event ordered locked dto) h =
        search
          (
            StaysTaken-IsPreorder, moves_rules, StaysTaken-Same, guard_rules,
            allocate_seats-StaysTaken,
          )
          depth 24
    respond-StaysTaken auth e h =
        StaysTaken-Same _ (respond-Same Db.seats w cfg web auth e (Untouched-seats (writes e) refl))

    respond_all-StaysTaken :
        (requests : List (Option String × Endpoint)) (s : State)
        → All (λ r. frees r.1 ≡ false) requests
        → StaysTaken id s (respond_all w cfg web requests s)
    unfolding respond_all
    respond_all-StaysTaken [] s h = StaysTaken-IsPreorder.same s
    respond_all-StaysTaken (r ∷ rest) s h =
        let s' = (respond w cfg web r.0 r.1 s).1 in
        StaysTaken-IsPreorder.chain s s' _ ((respond-StaysTaken r.0 r.1 h.0).at s)
          (respond_all-StaysTaken rest s' h.1)

-- A seat is not allocated twice: where no two seats have one id and ORDER BY returns none but the rows
-- it is given, no seat of an allocation that returned is in the reply of a later one, for whatever
-- event and group, after any requests in between that are neither releases nor refunds.
pub allocated_once :
    (w : World) (cfg : Config) (web : Web) (event event' : String)
    (ordered ordered' : List Seat → List Seat) (locked locked' : String → Bool)
    (dto dto' : AllocateSeats) (between : List (Option String × Endpoint)) (s : State)
    (r r' : AllocationResult)
    → ((P : Seat → Type 0) (xs : List Seat) → All P xs → All P (ordered' xs))
    → Distinct Seat.id s.seats
    → All (λ q. frees q.1 ≡ false) between
    → (Seats.allocate_seats w event ordered locked dto s).0 ≡ ok r
    → (Seats.allocate_seats w event' ordered' locked' dto'
        (respond_all w cfg web between (Seats.allocate_seats w event ordered locked dto s).1)).0
      ≡ ok r'
    → All (λ (d : SeatDto). All (λ (d' : SeatDto). d'.id ≢ d.id) r'.seats) r.seats
allocated_once w cfg web event event' ordered ordered' locked locked' dto dto' between s r r' sorts
      d kept h h' =
    let s1 = (Seats.allocate_seats w event ordered locked dto s).1 in
    let s2 = respond_all w cfg web between s1 in
    let d1 = allocate_seats-Distinct w event ordered locked dto s r h d in
    All-map (λ (x : SeatDto). IsTaken s1.seats x.id)
      (λ (x : SeatDto). All (λ (y : SeatDto). y.id ≢ x.id) r'.seats) r.seats
      (λ x taken.
        let (d2, taken2) = (respond_all-StaysTaken x.id w cfg web between s1 kept).stays d1 taken in
        allocate_seats_untaken w event' ordered' locked' dto' sorts s2 r' x.id d2 taken2 h')
      (allocate_seats-IsTaken w event ordered locked dto s r h)
