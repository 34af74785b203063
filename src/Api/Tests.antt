-- ===== src/Api/Tests.antt =====
-- The endpoints at concrete inputs.
use Prim.Native.String.append
use blocktic_backend.Base.{
  find_by, ◌==◌, string_eq, ℕ, ◌≡◌, ◌≢◌, refl, ap, ◌∙◌, String, Bool, true, false, Option, none,
  some, List, [], ◌∷◌, ◌<>◌, nat_eq, string_eq, All, find_id, ◌⊎◌,
}
use blocktic_backend.Exec.{ok, err, forbidden, ◌>>=◌}
use blocktic_backend.Entities.{Role, User, Ticket, Seat, available}
use blocktic_backend.State.{World, State, Db, Trace}
use blocktic_backend.Auth.{VerifyOtpResponse, send_otp}
use blocktic_backend.Ticketing
use blocktic_backend.Api.Sample.{payload, read_token, after_bearer, web}
use blocktic_backend.Api.Dto.{VerifyOtp, Preauth}
use blocktic_backend.Api.Auth
use blocktic_backend.Api.Tickets
use blocktic_backend.Api.Access.{respond-turned_away}
use blocktic_backend.Api.Login.{Honours, bearer_header, login}
use blocktic_backend.Api.Effects.{respond-writes}
use blocktic_backend.Api.Owners.{respond_all_spares}
use blocktic_backend.Api.Roles.{respond_all_admins}
use blocktic_backend.Api.Unique.{respond_all-IsIndexed}
use blocktic_backend.Lottery.Unique.{IsIndexed}
use blocktic_backend.Api.Seating.{allocated_once}
use blocktic_backend.Seats.{
  AllocateSeats, AllocationResult, SeatDto, seat_dto, allocate_at, allocate_seats,
}
use blocktic_backend.Lottery.{register}
use blocktic_backend.Api.Lottery
use blocktic_backend.Api.Routes.{Endpoint, finish, respond, respond_all}
use blocktic_backend.Samples.{
  world, config, empty_db, state_of, two_tickets, paid_ticket, fresh_world,
}

-- A token is a letter for the role and the id.
abbrev letter : Role → String
letter Role.user = "u"
letter Role.admin = "a"

abbrev signing : World
signing = record world { sign_user = λ id role. letter role <> id }

abbrev before : String → String → String
before String.[] t = t
before (String.◌∷◌ c s) t = String.◌∷◌ c (before s t)

glue : (s t : String) → s <> t ≡ before s t
glue String.[] t = append.nil t
glue (String.◌∷◌ c s) t = append.cons c s t ∙ ap (λ r. String.◌∷◌ c r) (glue s t)

bearer-header :
    (t : Trace) (token : String) → web.bearer t (some (bearer_header token)) ≡ read_token token
bearer-header t token = ap (λ h. read_token (after_bearer h)) (glue "Bearer " token)

honoured : (t : Trace) (id : String) (role : Role) → Honours signing web t id role
honoured t id Role.user = record {
  payload = payload id "user";
  accepted = bearer-header t ("u" <> id) ∙ ap read_token (glue "u" id);
  same_sub = refl;
  same_role = refl;
}
honoured t id Role.admin = record {
  payload = payload id "admin";
  accepted = bearer-header t ("a" <> id) ∙ ap read_token (glue "a" id);
  same_sub = refl;
  same_role = refl;
}

abbrev sent : State
sent = (send_otp signing "0912345678" two_tickets).1

abbrev guess : VerifyOtp
guess = record { phone = "0912345678"; code = "123456" }

abbrev welcome : VerifyOtpResponse
welcome = record { token = "ux"; is_new_user = true; user_id = "x" }

verified : (Auth.verify_otp signing guess sent).0 ≡ ok welcome
unfolding Auth.verify_otp send_otp blocktic_backend.Auth.verify_otp ◌>>=◌
    blocktic_backend.Api.Dto.digits
verified = refl

login_example :
    (u : User) × (find_by
        (λ (x : User). x.phone == "0912345678")
        (Auth.verify_otp signing guess sent).1.users
      ≡ some u)
    × (welcome.user_id ≡ u.id)
    × (welcome.token ≡ signing.sign_user u.id u.role)
    × (Tickets.find_my_tickets signing config web (some (bearer_header welcome.token)) two_tickets
        ≡ Ticketing.find_by_user u.id two_tickets)
    × ((u.role ≡ Role.admin)
        ⊎ (respond signing config web
              (some (bearer_header welcome.token))
              (Endpoint.mint "t1")
              two_tickets
            ≡ (err (forbidden "Forbidden resource"), two_tickets)))
login_example =
    login signing config web guess sent two_tickets welcome (Endpoint.mint "t1") verified
      (honoured two_tickets.trace) refl

respond-turned_away_example :
    respond world config web (some "Bearer ux") (Endpoint.mint "t1") two_tickets
    ≡ (err (forbidden "Forbidden resource"), two_tickets)
respond-turned_away_example =
    respond-turned_away world config web (some "Bearer ux") (Endpoint.mint "t1") two_tickets
      (forbidden "Forbidden resource") refl

respond-writes_example :
    (respond world config web none (Endpoint.verify_otp guess) sent).1.tickets ≡ sent.tickets
respond-writes_example =
    respond-writes Db.tickets world config web none (Endpoint.verify_otp guess) sent
      ((λ rows s. refl), tt)

abbrev others : List (Option String × Endpoint)
others =
    (none, Endpoint.my_tickets)
    ∷ (some "Bearer ux", Endpoint.refund "t1")
    ∷ (some "Bearer ux", Endpoint.capture "t2")
    ∷ []

respond_all_spares_example :
    find_id Ticket.id "t1" (respond_all world config web others two_tickets).tickets
    ≡ some paid_ticket
respond_all_spares_example =
    respond_all_spares world config web fresh_world others two_tickets "t1" paid_ticket
      (
        (refl, λ made. tt),
        ((refl, λ made. (refl, refl, refl)), ((refl, λ made. (refl, refl, refl)), tt)),
      )
      refl

abbrev root : User
root = record {
  id = "root";
  phone = "0900000000";
  name = none;
  nickname = none;
  role = Role.admin;
  person_id = none;
}

abbrev with_root : State
with_root = state_of (record empty_db { users = root ∷ [] })

abbrev join : List (Option String × Endpoint)
join =
    (some "Bearer ux", Endpoint.lottery_register "e1" (record { zone_id = "z"; group_size = 2 }))
    ∷ (some "Bearer ux", Endpoint.my_tickets)
    ∷ []

still_root : find_id User.id "root" (respond_all world config web join with_root).users ≡ some root
unfolding respond_all finish Tickets.find_my_tickets Ticketing.find_by_user Lottery.register
    register
still_root = refl

respond_all_admins_example :
    (u : User) × (find_id User.id "root" with_root.users ≡ some u) × (u.role ≡ Role.admin)
respond_all_admins_example =
    respond_all_admins world config web join with_root "root" root still_root refl

respond_all-IsIndexed_example : IsIndexed (respond_all world config web join two_tickets)
respond_all-IsIndexed_example = respond_all-IsIndexed world config web join two_tickets (tt, tt)

abbrev seat_at : String → ℕ → Seat
seat_at id number = record {
  id = id;
  event_id = "e1";
  zone_id = "z1";
  row = "A";
  seat_number = number;
  status = available;
  ticket_id = none;
  allocated_at = none;
}

abbrev hall : State
hall = state_of (record empty_db { seats = seat_at "s1" 1 ∷ seat_at "s2" 2 ∷ [] })

abbrev single : AllocateSeats
single = record { user_id = "u1"; group_size = 1; zone_id = "z1" }

abbrev as_stored : List Seat → List Seat
as_stored xs = xs

abbrev nobody : String → Bool
nobody id = false

abbrev one_seat : Seat → AllocationResult
one_seat s = record {
  allocation_id = "r";
  seats = seat_dto (allocate_at world "e1" 1000000 s) ∷ [];
}

first_seat :
    (allocate_seats world "e1" as_stored nobody single hall).0 ≡ ok (one_seat (seat_at "s1" 1))
unfolding allocate_seats ◌>>=◌
first_seat = refl

second_seat :
    (allocate_seats world "e1" as_stored nobody single (
      respond_all world config web join
        (allocate_seats world "e1" as_stored nobody single hall).1)).0
    ≡ ok (one_seat (seat_at "s2" 2))
unfolding allocate_seats respond_all finish Tickets.find_my_tickets Ticketing.find_by_user
    Lottery.register register
second_seat = refl

allocated_once_example :
    All
      (λ (d : SeatDto). All (λ (d' : SeatDto). d'.id ≢ d.id) (one_seat (seat_at "s2" 2)).seats)
      (one_seat (seat_at "s1" 1)).seats
allocated_once_example =
    allocated_once world config web "e1" "e1" as_stored as_stored nobody nobody single single join
      hall (one_seat (seat_at "s1" 1)) (one_seat (seat_at "s2" 2)) (λ P xs h. h) (refl, (refl, tt))
      (refl, (refl, tt)) first_seat second_seat
