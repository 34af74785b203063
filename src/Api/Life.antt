-- ===== src/Api/Life.antt =====
-- The life of a ticket under the requests of the controllers, and its entry at the gate.
mod Tests
use blocktic_backend.Base.{
  ◌≡◌, ◌≢◌, refl, sym, ◌∙◌, String, Bool, true, false, Option, some, some_inj, List, [], ◌∷◌,
  Distinct, arith,
}
use blocktic_backend.Exec.{ok}
use blocktic_backend.Exec.Keeps.{Moves, moves_rules}
use blocktic_backend.Entities.{Ticket}
use blocktic_backend.State.{World, Config, Db, State, App, FreshIds}
use blocktic_backend.State.Frame.{Same}
use blocktic_backend.Gate.Entry.{VerifyResult}
use blocktic_backend.Lifecycle.Order.{MovesOn, MovesOn-IsPreorder, TicketsEvolve-refl}
use blocktic_backend.Lifecycle.Tickets.{
  preauthorize-MovesOn, capture_payment-MovesOn, mint_ticket-MovesOn, refund_ticket-MovesOn,
  handle_ecpay_callback-MovesOn,
}
use blocktic_backend.Lifecycle.Gate.{verify_entry-MovesOn, fallback_verify-MovesOn}
use blocktic_backend.Lifecycle.Admission.{Entry, admit, admit-MovesOn, admit-Admits}
use blocktic_backend.Api.Http.{Web}
use blocktic_backend.Api.Effects.{respond-Same, writes}
use blocktic_backend.Api.Guarding.{guard_rules}
use blocktic_backend.Api.Views.{Untouched-tickets}
use blocktic_backend.Api.Tickets
use blocktic_backend.Api.Gate
use blocktic_backend.Api.Routes.{
  Endpoint, respond, respond_all, preauthorize, capture, mint, refund, ecpay_callback, verify_entry,
  fallback_verify,
}

MovesOn-Same : {A : Type 0} (m : App A) → Moves (Same Db.tickets) m → Moves MovesOn m
MovesOn-Same m h = record { at = λ s d. rw ((h.at s).same) (d, TicketsEvolve-refl s.tickets) }

ruleset life_rules = (MovesOn-IsPreorder, moves_rules, MovesOn-Same, guard_rules)

module _ (w : World) (cfg : Config) (web : Web) (fresh : FreshIds w) where
  respond-MovesOn : (auth : Option String) (e : Endpoint) → Moves MovesOn (respond w cfg web auth e)
  unfolding respond Tickets.preauthorize Tickets.capture Tickets.mint Tickets.refund
      Tickets.ecpay_callback Gate.verify_entry Gate.fallback_verify
  respond-MovesOn auth (preauthorize event dto) =
      search (life_rules, preauthorize-MovesOn w cfg fresh) depth 24
  respond-MovesOn auth (capture id) = search (life_rules, capture_payment-MovesOn) depth 24
  respond-MovesOn auth (mint id) = search (life_rules, mint_ticket-MovesOn) depth 24
  respond-MovesOn auth (refund id) = search (life_rules, refund_ticket-MovesOn) depth 24
  respond-MovesOn auth (ecpay_callback body) =
      search (life_rules, handle_ecpay_callback-MovesOn) depth 24
  respond-MovesOn auth (verify_entry dto) = search (life_rules, verify_entry-MovesOn) depth 24
  respond-MovesOn auth (fallback_verify dto) = search (life_rules, fallback_verify-MovesOn) depth 24
  respond-MovesOn auth e =
      MovesOn-Same _ (respond-Same Db.tickets w cfg web auth e (Untouched-tickets (writes e) refl))

  -- Where new ids are fresh and no two tickets have one id, and whatever requests to the API are
  -- served, one after the other and from whomever: no ticket disappears, and none changes its
  -- event, its owner, its amount or its trade number; its status only moves on in the life cycle,
  -- so a refunded ticket stays refunded and a used one used. Primary keys stay unique.
  pub respond_all-MovesOn :
      (requests : List (Option String × Endpoint)) (s : State)
      → MovesOn s (respond_all w cfg web requests s)
  unfolding respond_all
  respond_all-MovesOn [] s = MovesOn-IsPreorder.same s
  respond_all-MovesOn (r ∷ rest) s =
      let s' = (respond w cfg web r.0 r.1 s).1 in
      MovesOn-IsPreorder.chain s s' (respond_all w cfg web rest s') ((respond-MovesOn r.0 r.1).at s)
        (respond_all-MovesOn rest s')

  -- Where new ids are fresh and no two tickets have one id, a ticket is admitted once: after an entry
  -- is granted, by QR code or by government id, and any requests to the API since, served one after
  -- the other, no entry is granted for the same ticket.
  pub admitted_once :
      (first second : Entry) (between : List (Option String × Endpoint)) (s : State)
      (r r' : VerifyResult)
      → Distinct Ticket.id s.tickets
      → (admit w cfg first s).0 ≡ ok r
      → (admit w cfg second (respond_all w cfg web between (admit w cfg first s).1)).0 ≡ ok r'
      → r'.ticket_id ≢ r.ticket_id
  admitted_once first second between s r r' d h h' same =
      let s1 = (admit w cfg first s).1 in
      let s2 = respond_all w cfg web between s1 in
      let (d1, _) = (admit-MovesOn w cfg first).at s d in
      let (d2, evolve) = respond_all-MovesOn between s1 d1 in
      let a = admit-Admits w cfg first s r d h in
      let b = admit-Admits w cfg second s2 r' d2 h' in
      let (u, found, ev) = evolve r.ticket_id _ a.after in
      let same_row : u ≡ b.before = some_inj (sym found ∙ rw (← same) b.found) in ground arith
