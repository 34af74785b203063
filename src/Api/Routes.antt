-- ===== src/Api/Routes.antt =====
-- The endpoints of the controllers as requests, each served by its controller's method.
use blocktic_backend.Base.{String, Bool, Option, List, [], ◌∷◌}
use blocktic_backend.Exec.{pure, ◌>>=◌}
use blocktic_backend.Entities.{Seat}
use blocktic_backend.State.{World, Config, State, App}
use blocktic_backend.Ecpay.{Params}
use blocktic_backend.Seats.{AllocateSeats}
use blocktic_backend.Lottery.{RegisterLottery}
use blocktic_backend.Identity.{SubmitKyc}
use blocktic_backend.Events.{CreateEvent, UpdateEvent}
use blocktic_backend.Api.Http.{Web}
use blocktic_backend.Api.Dto.{
  SendOtp, VerifyOtp, Register, Preauth, GenerateQr, VerifyEntry, FallbackVerify, EventQuery,
  NotificationQuery, AuditLogQuery,
}
use blocktic_backend.Api.Health.{get_health}
use blocktic_backend.Api.Tickets
use blocktic_backend.Api.Gate
use blocktic_backend.Api.Identity
use blocktic_backend.Api.Lottery
use blocktic_backend.Api.Seats
use blocktic_backend.Api.Events
use blocktic_backend.Api.Auth
use blocktic_backend.Api.Audit
use blocktic_backend.Api.Notifications

pub data Endpoint : Type 0 where
  health : Endpoint
  send_otp : SendOtp → Endpoint
  verify_otp : VerifyOtp → Endpoint
  register : Register → Endpoint
  submit_kyc : SubmitKyc → Endpoint
  kyc_status delete_user : (user_id : String) → Endpoint
  lottery_register : (event_id : String) → RegisterLottery → Endpoint
  draw draw_results draw_proof : (event_id : String) → Endpoint
  allocate_seats :
      (event_id : String) (ordered : List Seat → List Seat) (locked : String → Bool)
      → AllocateSeats
      → Endpoint
  seat_map : (row_le : String × String → String × String → Bool) → (event_id : String) → Endpoint
  release_seat : (seat_id : String) → Endpoint
  preauthorize : (event_id : String) → Preauth → Endpoint
  capture mint refund ticket : (ticket_id : String) → Endpoint
  ecpay_callback : Params → Endpoint
  my_tickets : Endpoint
  tickets_of : (user_id : String) → Endpoint
  generate_qr : GenerateQr → Endpoint
  verify_entry : VerifyEntry → Endpoint
  fallback_verify : FallbackVerify → Endpoint
  entry_stats : (event_id : String) → Endpoint
  events : EventQuery → Endpoint
  event remove_event : (id : String) → Endpoint
  create_event : CreateEvent → Endpoint
  update_event : (id : String) → UpdateEvent → Endpoint
  audit_logs : AuditLogQuery → Endpoint
  audit_summary : (event_id : String) → Endpoint
  notifications : NotificationQuery → Endpoint
  mark_as_read : (id : String) → Endpoint

-- The reply's body is dropped.
unfoldable pub finish : {A : Type 0} → App A → App (Unit {0})
unfolding ◌>>=◌
finish m = m >>= λ _. pure tt

module _ (w : World) (cfg : Config) (web : Web) where
  -- A request with its Authorization header.
  unfoldable pub respond : (authorization : Option String) → Endpoint → App (Unit {0})
  respond auth health = finish (get_health w)
  respond auth (send_otp dto) = finish (Auth.send_otp w dto)
  respond auth (verify_otp dto) = finish (Auth.verify_otp w dto)
  respond auth (register dto) = finish (Auth.register web auth dto)
  respond auth (submit_kyc dto) = finish (Identity.submit_kyc w cfg web auth dto)
  respond auth (kyc_status id) = finish (Identity.get_kyc_status w cfg web auth id)
  respond auth (delete_user id) = finish (Identity.delete_user_data w cfg web auth id)
  respond auth (lottery_register id dto) = finish (Lottery.register w cfg web auth id dto)
  respond auth (draw id) = finish (Lottery.draw w cfg web auth id)
  respond auth (draw_results id) = finish (Lottery.get_results w cfg web id)
  respond auth (draw_proof id) = finish (Lottery.get_proof w cfg web id)
  respond auth (allocate_seats id ordered locked dto) =
      finish (Seats.allocate_seats w web auth id ordered locked dto)
  respond auth (seat_map row_le id) = finish (Seats.get_seat_map w web row_le auth id)
  respond auth (release_seat id) = finish (Seats.release_seat w web auth id)
  respond auth (preauthorize id dto) = finish (Tickets.preauthorize w cfg web auth id dto)
  respond auth (capture id) = finish (Tickets.capture w cfg web auth id)
  respond auth (mint id) = finish (Tickets.mint w cfg web auth id)
  respond auth (refund id) = finish (Tickets.refund w cfg web auth id)
  respond auth (ticket id) = finish (Tickets.find_by_id w cfg web auth id)
  respond auth (ecpay_callback body) = finish (Tickets.ecpay_callback w cfg web body)
  respond auth my_tickets = finish (Tickets.find_my_tickets w cfg web auth)
  respond auth (tickets_of id) = finish (Tickets.find_by_user w cfg web auth id)
  respond auth (generate_qr dto) = finish (Gate.generate_qr w cfg web auth dto)
  respond auth (verify_entry dto) = finish (Gate.verify_entry w cfg web auth dto)
  respond auth (fallback_verify dto) = finish (Gate.fallback_verify w cfg web auth dto)
  respond auth (entry_stats id) = finish (Gate.get_stats w cfg web auth id)
  respond auth (events query) = finish (Events.find_all query)
  respond auth (event id) = finish (Events.find_one w web id)
  respond auth (remove_event id) = finish (Events.remove w web auth id)
  respond auth (create_event dto) = finish (Events.create w web auth dto)
  respond auth (update_event id dto) = finish (Events.update w web auth id dto)
  respond auth (audit_logs query) = finish (Audit.get_logs web query)
  respond auth (audit_summary id) = finish (Audit.get_event_summary web id)
  respond auth (notifications query) = finish (Notifications.find_all web auth query)
  respond auth (mark_as_read id) = finish (Notifications.mark_as_read web auth id)

  -- Requests served one after the other.
  unfoldable pub respond_all : List (Option String × Endpoint) → State → State
  unfolding respond
  respond_all [] s = s
  respond_all (r ∷ rest) s = respond_all rest (respond r.0 r.1 s).1
