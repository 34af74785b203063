-- ===== src/Api/Access.antt =====
-- Which requests the guards of the controllers turn away.
use blocktic_backend.Base.{
  ◌≡◌, refl, String, Option, none, some, some_inj, [], ◌∷◌, some≢none, sym, if◌then◌else◌, ◌==◌,
  string_eq, arith, Option-cases, Bool-cases, inl, inr, eq_iff,
}
use blocktic_backend.Exec.{Fault, unauthorized, forbidden, err, ◌>>=◌}
use blocktic_backend.Entities.{Role}
use blocktic_backend.State.{World, Config, State, App}
use blocktic_backend.Guards.{can_activate}
use blocktic_backend.Api.Http.{Web, JwtPayload, jwt_auth, admin_only}
use blocktic_backend.Api.Tickets
use blocktic_backend.Api.Gate
use blocktic_backend.Api.Identity
use blocktic_backend.Api.Lottery
use blocktic_backend.Api.Seats
use blocktic_backend.Api.Events
use blocktic_backend.Api.Auth
use blocktic_backend.Api.Notifications
use blocktic_backend.Api.Routes.{
  health, Endpoint, respond, finish, send_otp, verify_otp, register, submit_kyc, kyc_status,
  delete_user, lottery_register, draw, draw_results, draw_proof, allocate_seats, seat_map,
  release_seat, preauthorize, capture, mint, refund, ticket, ecpay_callback, my_tickets, tickets_of,
  generate_qr, verify_entry, fallback_verify, entry_stats, events, event, remove_event,
  create_event, update_event, audit_logs, audit_summary, notifications, mark_as_read,
}

-- Whom an endpoint is meant for.
pub data Audience : Type 0 where
  anyone signed_in admins : Audience

-- The policy of the controllers' decorators, endpoint by endpoint. docs/api-endpoints.md has another
-- one for `tickets/user/:userId`, which it lets any signed-in user read.
abbrev pub audience : Endpoint → Audience
audience health = anyone
audience (send_otp dto) = anyone
audience (verify_otp dto) = anyone
audience (ecpay_callback body) = anyone
audience (draw_results id) = anyone
audience (draw_proof id) = anyone
audience (events query) = anyone
audience (event id) = anyone
audience (audit_logs query) = anyone
audience (audit_summary id) = anyone
audience (register dto) = signed_in
audience (submit_kyc dto) = signed_in
audience (kyc_status id) = signed_in
audience (lottery_register id dto) = signed_in
audience (seat_map row_le id) = signed_in
audience (preauthorize id dto) = signed_in
audience (refund id) = signed_in
audience (ticket id) = signed_in
audience my_tickets = signed_in
audience (generate_qr dto) = signed_in
audience (notifications query) = signed_in
audience (mark_as_read id) = signed_in
audience (delete_user id) = admins
audience (draw id) = admins
audience (allocate_seats id ordered locked dto) = admins
audience (release_seat id) = admins
audience (capture id) = admins
audience (mint id) = admins
audience (tickets_of id) = admins
audience (verify_entry dto) = admins
audience (fallback_verify dto) = admins
audience (entry_stats id) = admins
audience (remove_event id) = admins
audience (create_event dto) = admins
audience (update_event id dto) = admins

-- The error for a caller who is not of the audience.
abbrev pub turned_away : Audience → (caller : Option JwtPayload) → Option Fault
turned_away anyone caller = none
turned_away signed_in none = some (unauthorized "Unauthorized")
turned_away signed_in (some user) = none
turned_away admins none = some (unauthorized "Unauthorized")
turned_away admins (some user) =
    if user.role == "admin" then none else some (forbidden "Forbidden resource")

admin_role-can_activate :
    (r : String) → can_activate (some (Role.admin ∷ [])) none (some r) ≡ (r == "admin")
unfolding can_activate
admin_role-can_activate r = elim (Bool-cases (r == "admin")) [
  | inl same ↦ rw ((eq_iff r "admin").0 same) refl
  | inr other ↦ ground (arith, eq_iff r "", eq_iff r "admin", eq_iff "admin" r)
]

module _ {A : Type 0} (web : Web) (auth : Option String) (s : State)
    (rest : JwtPayload → App A) where
  jwt_auth-refused :
      (f : Fault)
      → turned_away signed_in (web.bearer s.trace auth) ≡ some f
      → (jwt_auth web auth >>= rest) s ≡ (err f, s)
  unfolding jwt_auth ◌>>=◌
  jwt_auth-refused f h = elim (Option-cases (web.bearer s.trace auth)) [
    | inl missing ↦ rw missing (rw (some_inj (rw (missing) at h)) refl)
    | inr (user, found) ↦ absurd (some≢none (sym (rw (found) at h)))
  ]

  admin_only-refused :
      (f : Fault)
      → turned_away admins (web.bearer s.trace auth) ≡ some f
      → (admin_only web auth >>= rest) s ≡ (err f, s)
  unfolding admin_only ◌>>=◌
  admin_only-refused f h = elim (Option-cases (web.bearer s.trace auth)) [
    | inl missing ↦ rw missing (rw (some_inj (rw (missing) at h)) refl)
    | inr (user, found) ↦ elim (Bool-cases (user.role == "admin")) [
      | inl is_admin ↦ absurd (some≢none (sym (rw (found, is_admin) at h)))
      | inr other ↦
          rw (found, admin_role-can_activate user.role, other)
            (rw (some_inj (rw (found, other) at h)) refl)
    ]
  ]

finish-err :
    {A : Type 0} (m : App A) (s : State) (f : Fault) → m s ≡ (err f, s) → finish m s ≡ (err f, s)
unfolding finish
finish-err m s f h = rw h refl

module _ (w : World) (cfg : Config) (web : Web) where
  -- Where the caller that the bearer token names is not of the endpoint's audience, the request fails
  -- with the guard's error and changes nothing: an endpoint for signed-in users or admins answers
  -- Unauthorized where there is no valid token, and one for admins answers Forbidden where the token's
  -- role is not "admin". That is the policy of the controllers; for the tickets of a user
  -- docs/api-endpoints.md asks for a valid token only.
  pub respond-turned_away :
      (auth : Option String) (e : Endpoint) (s : State) (f : Fault)
      → turned_away (audience e) (web.bearer s.trace auth) ≡ some f
      → respond w cfg web auth e s ≡ (err f, s)
  unfolding respond Auth.register Identity.submit_kyc Identity.get_kyc_status
      Identity.delete_user_data Lottery.register Lottery.draw Seats.allocate_seats
      Seats.get_seat_map Seats.release_seat Tickets.preauthorize Tickets.capture Tickets.mint
      Tickets.refund Tickets.find_by_id Tickets.find_my_tickets Tickets.find_by_user
      Gate.generate_qr Gate.verify_entry Gate.fallback_verify Gate.get_stats Events.remove
      Events.create Events.update Notifications.find_all Notifications.mark_as_read
  respond-turned_away auth health s f h = absurd (some≢none (sym h))
  respond-turned_away auth (send_otp dto) s f h = absurd (some≢none (sym h))
  respond-turned_away auth (verify_otp dto) s f h = absurd (some≢none (sym h))
  respond-turned_away auth (register dto) s f h =
      finish-err _ s f (jwt_auth-refused web auth s _ f h)
  respond-turned_away auth (submit_kyc dto) s f h =
      finish-err _ s f (jwt_auth-refused web auth s _ f h)
  respond-turned_away auth (kyc_status id) s f h =
      finish-err _ s f (jwt_auth-refused web auth s _ f h)
  respond-turned_away auth (delete_user id) s f h =
      finish-err _ s f (admin_only-refused web auth s _ f h)
  respond-turned_away auth (lottery_register id dto) s f h =
      finish-err _ s f (jwt_auth-refused web auth s _ f h)
  respond-turned_away auth (draw id) s f h = finish-err _ s f (admin_only-refused web auth s _ f h)
  respond-turned_away auth (draw_results id) s f h = absurd (some≢none (sym h))
  respond-turned_away auth (draw_proof id) s f h = absurd (some≢none (sym h))
  respond-turned_away auth (allocate_seats id ordered locked dto) s f h =
      finish-err _ s f (admin_only-refused web auth s _ f h)
  respond-turned_away auth (seat_map row_le id) s f h =
      finish-err _ s f (jwt_auth-refused web auth s _ f h)
  respond-turned_away auth (release_seat id) s f h =
      finish-err _ s f (admin_only-refused web auth s _ f h)
  respond-turned_away auth (preauthorize id dto) s f h =
      finish-err _ s f (jwt_auth-refused web auth s _ f h)
  respond-turned_away auth (capture id) s f h =
      finish-err _ s f (admin_only-refused web auth s _ f h)
  respond-turned_away auth (mint id) s f h = finish-err _ s f (admin_only-refused web auth s _ f h)
  respond-turned_away auth (refund id) s f h = finish-err _ s f (jwt_auth-refused web auth s _ f h)
  respond-turned_away auth (ticket id) s f h = finish-err _ s f (jwt_auth-refused web auth s _ f h)
  respond-turned_away auth (ecpay_callback body) s f h = absurd (some≢none (sym h))
  respond-turned_away auth my_tickets s f h = finish-err _ s f (jwt_auth-refused web auth s _ f h)
  respond-turned_away auth (tickets_of id) s f h =
      finish-err _ s f (admin_only-refused web auth s _ f h)
  respond-turned_away auth (generate_qr dto) s f h =
      finish-err _ s f (jwt_auth-refused web auth s _ f h)
  respond-turned_away auth (verify_entry dto) s f h =
      finish-err _ s f (admin_only-refused web auth s _ f h)
  respond-turned_away auth (fallback_verify dto) s f h =
      finish-err _ s f (admin_only-refused web auth s _ f h)
  respond-turned_away auth (entry_stats id) s f h =
      finish-err _ s f (admin_only-refused web auth s _ f h)
  respond-turned_away auth (events query) s f h = absurd (some≢none (sym h))
  respond-turned_away auth (event id) s f h = absurd (some≢none (sym h))
  respond-turned_away auth (remove_event id) s f h =
      finish-err _ s f (admin_only-refused web auth s _ f h)
  respond-turned_away auth (create_event dto) s f h =
      finish-err _ s f (admin_only-refused web auth s _ f h)
  respond-turned_away auth (update_event id dto) s f h =
      finish-err _ s f (admin_only-refused web auth s _ f h)
  respond-turned_away auth (audit_logs query) s f h = absurd (some≢none (sym h))
  respond-turned_away auth (audit_summary id) s f h = absurd (some≢none (sym h))
  respond-turned_away auth (notifications query) s f h =
      finish-err _ s f (jwt_auth-refused web auth s _ f h)
  respond-turned_away auth (mark_as_read id) s f h =
      finish-err _ s f (jwt_auth-refused web auth s _ f h)
