-- ===== src/Api/Life/Tests.antt =====
-- Entries at the gate with requests between them.
use blocktic_backend.Base.{
  Option, some, String, List, ◌≡◌, ◌≢◌, refl, none, [], ◌∷◌, string_eq, Distinct, true,
}
use blocktic_backend.Exec.{ok, ◌>>=◌}
use blocktic_backend.Entities.{Ticket, VerificationMode, VerificationResult}
use blocktic_backend.Gate.Entry.{
  VerifyResult, check_token, load_ticket, check_ownership, check_face, consume,
}
use blocktic_backend.Ticketing.{
  refund_ticket, void_payment, return_seat, burn_token, capture_payment,
}
use blocktic_backend.Gate.{verify_entry, fallback_verify, admit_fallback}
use blocktic_backend.Lifecycle.Order.{MovesOn}
use blocktic_backend.Lifecycle.Admission.{Entry, scan, by_id, admit}
use blocktic_backend.Api.Tickets
use blocktic_backend.Api.Sample.{web}
use blocktic_backend.Api.Life.{respond_all-MovesOn, admitted_once}
use blocktic_backend.Api.Routes.{Endpoint, respond_all, finish}
use blocktic_backend.Samples.{world, config, two_tickets, fresh_world}

-- What a run of an entry and of a refund opens.
runs : Unit {0}
unfolding respond_all finish Tickets.capture Tickets.refund admit_fallback verify_entry
    fallback_verify check_token load_ticket check_ownership check_face consume refund_ticket
    void_payment return_seat burn_token capture_payment ◌>>=◌
runs = tt

abbrev granted : VerifyResult
granted = record {
  success = true;
  ticket_id = "t1";
  mode = VerificationMode.normal;
  result = VerificationResult.success;
  face_score = none;
  message = "Entry verified successfully";
}

abbrev other_entry : VerifyResult
other_entry = record {
  success = true;
  ticket_id = "t2";
  mode = VerificationMode.fallback;
  result = VerificationResult.fallback;
  face_score = none;
  message = "Fallback verification succeeded via government ID";
}

abbrev by_qr : Entry
by_qr = scan "qr" "g1" "s1" none

abbrev by_government_id : Entry
by_government_id = by_id "A123" "e1" "g1" "s1"

abbrev sale : List (Option String × Endpoint)
sale = (some "Bearer aa1", Endpoint.capture "t2") ∷ (some "Bearer uu1", Endpoint.refund "t1") ∷ []

-- The holder of both tickets enters by QR code, an admin captures the second ticket, a refund of the
-- first one is refused, and the holder enters
-- by government id with that one.
first_entry : (admit world config by_qr two_tickets).0 ≡ ok granted
unfolding runs blocktic_backend.Guards.can_activate
first_entry = refl

second_entry :
    (admit world config by_government_id
      (respond_all world config web sale (admit world config by_qr two_tickets).1)).0
    ≡ ok other_entry
unfolding runs blocktic_backend.Guards.can_activate
second_entry = refl

two_tickets-Distinct : Distinct Ticket.id two_tickets.tickets
two_tickets-Distinct = (refl, (refl, tt))

admitted_once_example : ◌≢◌ {A = String} "t2" "t1"
admitted_once_example =
    admitted_once world config web fresh_world by_qr by_government_id sale two_tickets granted
      other_entry two_tickets-Distinct first_entry second_entry

respond_all-MovesOn_example : MovesOn two_tickets (respond_all world config web sale two_tickets)
respond_all-MovesOn_example = respond_all-MovesOn world config web fresh_world sale two_tickets
