-- ===== src/Api/Effects.antt =====
-- Which tables the endpoints write.
use blocktic_backend.Base.{◌≡◌, String, Option, List, [], ◌∷◌}
use blocktic_backend.Exec.Keeps.{Moves}
use blocktic_backend.State.{
  World, Config, Db, State, put_users, put_persons, put_entries, put_draw_results, put_seats,
  put_tickets, put_gate_logs, put_events, put_notifications,
}
use blocktic_backend.State.Frame.{Same, Ignores, frame_rules}
use blocktic_backend.Frames.Records.{
  mark_as_read-Same, create-Same, update-Same, remove-Same, allocate_seats-Same, release_seat-Same,
}
use blocktic_backend.Frames.People.{
  send_otp-Same, verify_otp-Same, register-Same, submit_kyc-Same, delete_user_data-Same,
}
use blocktic_backend.Frames.Draws.{lottery_register-Same, draw-Same}
use blocktic_backend.Frames.Reads.{
  get_kyc_status-Same, get_results-Same, get_proof-Same, get_seat_map-Same, find_one_or_fail-Same,
  tickets_of-Same, generate_dynamic_qr-Same, get_entry_stats-Same, find_all-Same, find_one-Same,
  get_logs-Same, get_event_summary-Same, notifications_of-Same,
}
use blocktic_backend.Frames.Sales.{
  preauthorize-Same, capture_payment-Same, mint_ticket-Same, refund_ticket-Same,
  handle_ecpay_callback-Same,
}
use blocktic_backend.Frames.Entry.{verify_entry-Same, fallback_verify-Same}
use blocktic_backend.Api.Guarding.{guard_rules}
use blocktic_backend.Api.Http.{Web}
use blocktic_backend.Api.Tickets
use blocktic_backend.Api.Gate
use blocktic_backend.Api.Identity
use blocktic_backend.Api.Lottery
use blocktic_backend.Api.Seats
use blocktic_backend.Api.Events
use blocktic_backend.Api.Auth
use blocktic_backend.Api.Audit
use blocktic_backend.Api.Notifications
use blocktic_backend.Api.Routes.{
  health, Endpoint, respond, send_otp, verify_otp, register, submit_kyc, kyc_status, delete_user,
  lottery_register, draw, draw_results, draw_proof, allocate_seats, seat_map, release_seat,
  preauthorize, capture, mint, refund, ticket, ecpay_callback, my_tickets, tickets_of, generate_qr,
  verify_entry, fallback_verify, entry_stats, events, event, remove_event, create_event,
  update_event, audit_logs, audit_summary, notifications, mark_as_read,
}

pub data Table : Type 0 where
  users_table persons_table entries_table draws_table seats_table tickets_table gate_logs_table
        events_table notices_table :
      Table

-- The tables that an endpoint may write.
abbrev pub writes : Endpoint → List Table
writes (verify_otp dto) = users_table ∷ []
writes (register dto) = users_table ∷ []
writes (submit_kyc dto) = users_table ∷ persons_table ∷ []
writes (delete_user id) = persons_table ∷ []
writes (lottery_register id dto) = entries_table ∷ []
writes (draw id) = entries_table ∷ draws_table ∷ []
writes (allocate_seats id ordered locked dto) = seats_table ∷ []
writes (release_seat id) = seats_table ∷ []
writes (preauthorize id dto) = tickets_table ∷ []
writes (capture id) = tickets_table ∷ []
writes (mint id) = tickets_table ∷ []
writes (refund id) = tickets_table ∷ seats_table ∷ []
writes (ecpay_callback body) = tickets_table ∷ []
writes (verify_entry dto) = tickets_table ∷ gate_logs_table ∷ []
writes (fallback_verify dto) = tickets_table ∷ gate_logs_table ∷ []
writes (remove_event id) = events_table ∷ []
writes (create_event dto) = events_table ∷ []
writes (update_event id dto) = events_table ∷ []
writes (mark_as_read id) = notices_table ∷ []
writes health = []
writes (send_otp dto) = []
writes (kyc_status id) = []
writes (draw_results id) = []
writes (draw_proof id) = []
writes (seat_map row_le id) = []
writes (ticket id) = []
writes my_tickets = []
writes (tickets_of id) = []
writes (generate_qr dto) = []
writes (entry_stats id) = []
writes (events query) = []
writes (event id) = []
writes (audit_logs query) = []
writes (audit_summary id) = []
writes (notifications query) = []

-- The view reads none of the table's rows.
abbrev pub IgnoresTable : {X : Type 0} → (Db → X) → Table → Type 0
IgnoresTable v users_table = Ignores v put_users
IgnoresTable v persons_table = Ignores v put_persons
IgnoresTable v entries_table = Ignores v put_entries
IgnoresTable v draws_table = Ignores v put_draw_results
IgnoresTable v seats_table = Ignores v put_seats
IgnoresTable v tickets_table = Ignores v put_tickets
IgnoresTable v gate_logs_table = Ignores v put_gate_logs
IgnoresTable v events_table = Ignores v put_events
IgnoresTable v notices_table = Ignores v put_notifications

abbrev pub Untouched : {X : Type 0} → (Db → X) → List Table → Type 0
Untouched v [] = Unit
Untouched v (t ∷ rest) = IgnoresTable v t × Untouched v rest

module _ {X : Type 0} (v : Db → X) (w : World) (cfg : Config) (web : Web) where
  pub respond-Same :
      (auth : Option String) (e : Endpoint)
      → Untouched v (writes e)
      → Moves (Same v) (respond w cfg web auth e)
  unfolding respond Auth.send_otp Auth.verify_otp Auth.register Identity.submit_kyc
      Identity.get_kyc_status Identity.delete_user_data Lottery.register Lottery.draw
      Lottery.get_results Lottery.get_proof Seats.allocate_seats Seats.get_seat_map
      Seats.release_seat Tickets.preauthorize Tickets.capture Tickets.mint Tickets.refund
      Tickets.find_by_id Tickets.ecpay_callback Tickets.find_my_tickets Tickets.find_by_user
      Gate.generate_qr Gate.verify_entry Gate.fallback_verify Gate.get_stats Events.find_all
      Events.find_one Events.remove Events.create Events.update Audit.get_logs
      Audit.get_event_summary Notifications.find_all Notifications.mark_as_read
  respond-Same auth health h = search (frame_rules, guard_rules) depth 16
  respond-Same auth (send_otp dto) h = search (frame_rules, guard_rules, send_otp-Same) depth 24
  respond-Same auth (verify_otp dto) (h0, _) =
      search (frame_rules, guard_rules, verify_otp-Same, h0) depth 24
  respond-Same auth (register dto) (h0, _) =
      search (frame_rules, guard_rules, register-Same, h0) depth 24
  respond-Same auth (submit_kyc dto) (h0, (h1, _)) =
      search (frame_rules, guard_rules, submit_kyc-Same, h0, h1) depth 24
  respond-Same auth (kyc_status id) h =
      search (frame_rules, guard_rules, get_kyc_status-Same) depth 24
  respond-Same auth (delete_user id) (h0, _) =
      search (frame_rules, guard_rules, delete_user_data-Same, h0) depth 24
  respond-Same auth (lottery_register id dto) (h0, _) =
      search (frame_rules, guard_rules, lottery_register-Same, h0) depth 24
  respond-Same auth (draw id) (h0, (h1, _)) =
      search (frame_rules, guard_rules, draw-Same, h0, h1) depth 24
  respond-Same auth (draw_results id) h =
      search (frame_rules, guard_rules, get_results-Same) depth 24
  respond-Same auth (draw_proof id) h = search (frame_rules, guard_rules, get_proof-Same) depth 24
  respond-Same auth (allocate_seats id ordered locked dto) (h0, _) =
      search (frame_rules, guard_rules, allocate_seats-Same, h0) depth 24
  respond-Same auth (seat_map row_le id) h =
      search (frame_rules, guard_rules, get_seat_map-Same) depth 24
  respond-Same auth (release_seat id) (h0, _) =
      search (frame_rules, guard_rules, release_seat-Same, h0) depth 24
  respond-Same auth (preauthorize id dto) (h0, _) =
      search (frame_rules, guard_rules, preauthorize-Same, h0) depth 24
  respond-Same auth (capture id) (h0, _) =
      search (frame_rules, guard_rules, capture_payment-Same, h0) depth 24
  respond-Same auth (mint id) (h0, _) =
      search (frame_rules, guard_rules, mint_ticket-Same, h0) depth 24
  respond-Same auth (refund id) (h0, (h1, _)) =
      search (frame_rules, guard_rules, refund_ticket-Same, h0, h1) depth 24
  respond-Same auth (ticket id) h =
      search (frame_rules, guard_rules, find_one_or_fail-Same) depth 24
  respond-Same auth (ecpay_callback body) (h0, _) =
      search (frame_rules, guard_rules, handle_ecpay_callback-Same, h0) depth 24
  respond-Same auth my_tickets h = search (frame_rules, guard_rules, tickets_of-Same) depth 24
  respond-Same auth (tickets_of id) h = search (frame_rules, guard_rules, tickets_of-Same) depth 24
  respond-Same auth (generate_qr dto) h =
      search (frame_rules, guard_rules, generate_dynamic_qr-Same) depth 24
  respond-Same auth (verify_entry dto) (h0, (h1, _)) =
      search (frame_rules, guard_rules, verify_entry-Same, h0, h1) depth 24
  respond-Same auth (fallback_verify dto) (h0, (h1, _)) =
      search (frame_rules, guard_rules, fallback_verify-Same, h0, h1) depth 24
  respond-Same auth (entry_stats id) h =
      search (frame_rules, guard_rules, get_entry_stats-Same) depth 24
  respond-Same auth (events query) h = search (frame_rules, guard_rules, find_all-Same) depth 24
  respond-Same auth (event id) h = search (frame_rules, guard_rules, find_one-Same) depth 24
  respond-Same auth (remove_event id) (h0, _) =
      search (frame_rules, guard_rules, remove-Same, h0) depth 24
  respond-Same auth (create_event dto) (h0, _) =
      search (frame_rules, guard_rules, create-Same, h0) depth 24
  respond-Same auth (update_event id dto) (h0, _) =
      search (frame_rules, guard_rules, update-Same, h0) depth 24
  respond-Same auth (audit_logs query) h = search (frame_rules, guard_rules, get_logs-Same) depth 24
  respond-Same auth (audit_summary id) h =
      search (frame_rules, guard_rules, get_event_summary-Same) depth 24
  respond-Same auth (notifications query) h =
      search (frame_rules, guard_rules, notifications_of-Same) depth 24
  respond-Same auth (mark_as_read id) (h0, _) =
      search (frame_rules, guard_rules, mark_as_read-Same, h0) depth 24

  -- A request changes, whether it succeeds or fails, only the tables listed for its endpoint: a view of
  -- the database that reads none of them is the same afterwards.
  pub respond-writes :
      (auth : Option String) (e : Endpoint) (s : State)
      → Untouched v (writes e)
      → v (respond w cfg web auth e s).1.db ≡ v s.db
  respond-writes auth e s h = ((respond-Same auth e h).at s).same
