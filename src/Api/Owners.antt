-- ===== src/Api/Owners.antt =====
-- What the requests of others do to a ticket: ticketing/ticketing.controller.ts among the other
-- controllers.
use blocktic_backend.Base.{
  ◌≡◌, refl, sym, subst, ◌∙◌, ℕ, key-find_id, ap, ◌≢◌, String, Bool, true, false, Option, none,
  some, some_inj, some≢none, List, [], ◌∷◌, Option-cases, Bool-cases, inl, inr, ◌==◌, string_eq,
  eq_iff, All, find_id, find_id-save, find_id-new, map,
}
use blocktic_backend.Exec.{Result-cases, ◌>>=◌, unauthorized, forbidden}
use blocktic_backend.Exec.Keeps.{Moves, IsPreorder, Moves-bind, moves_rules}
use blocktic_backend.Entities.{Ticket}
use blocktic_backend.State.{World, Config, Db, State, Trace, App, FreshIds}
use blocktic_backend.State.Frame.{Same}
use blocktic_backend.Ticketing.{is_stranger}
use blocktic_backend.Ticketing
use blocktic_backend.Ticketing.Form.{generate_trade_no}
use blocktic_backend.Ticketing.Refund.{refund_ticket-ok, refund_ticket-err}
use blocktic_backend.Api.Http.{Web, JwtPayload, parse_uuid}
use blocktic_backend.Api.Dto.{Preauth}
use blocktic_backend.Api.Tickets
use blocktic_backend.Api.Access.{respond-turned_away, audience, admins}
use blocktic_backend.Api.Effects.{respond-Same, writes}
use blocktic_backend.Api.Guarding.{
  parse_uuid-Same, finish-Moves, guard_rules, jwt_auth-at, finish-at,
}
use blocktic_backend.Api.Views.{Untouched-tickets}
use blocktic_backend.Api.Routes.{
  Endpoint, respond, respond_all, finish, ecpay_callback, preauthorize, capture, mint, refund,
  verify_entry, fallback_verify,
}

abbrev pub is_callback : Endpoint → Bool
is_callback (ecpay_callback body) = true
is_callback _ = false

-- The caller has no valid token, or one that is not an admin's, whose `sub` is not empty and not the
-- ticket's owner. (With an empty `sub`, which AuthService never signs, `requestUserId && …` of
-- refundTicket would not compare the owner.)
abbrev pub Outsider : (caller : Option JwtPayload) → Ticket → Type 0
Outsider none t = Unit
Outsider (some user) t =
    ((user.role == "admin") ≡ false)
    × ((user.sub == "") ≡ false)
    × ((t.user_id == user.sub) ≡ false)

true≢false : true ≢ false
true≢false e = cc

-- A ticket that is found by a key is found unchanged afterwards.
pub record Spares (k : String) (t : Ticket) (s s' : State) : Type 0 where
  pub spared : find_id Ticket.id k s.tickets ≡ some t → find_id Ticket.id k s'.tickets ≡ some t

module _ (k : String) (t : Ticket) where
  Spares-IsPreorder : IsPreorder (Spares k t)
  Spares-IsPreorder = record {
    same = λ s. record { spared = λ h. h };
    chain = λ a b c u v. record { spared = λ h. v.spared (u.spared h) };
  }

  Spares-Same : (s s' : State) → s'.tickets ≡ s.tickets → Spares k t s s'
  Spares-Same s s' same = record { spared = λ h. rw same h }

  Spares-of_Same : {A : Type 0} (m : App A) → Moves (Same Db.tickets) m → Moves (Spares k t) m
  Spares-of_Same m h = record { at = λ s. Spares-Same s _ ((h.at s).same) }

  module _ (w : World) (cfg : Config) where
    preauthorize-Spares :
        FreshIds w
        → (event user : String) (amount : ℕ) (url : String)
        → Moves (Spares k t) (Ticketing.preauthorize w cfg event user amount url)
    unfolding Ticketing.preauthorize ◌>>=◌
    preauthorize-Spares fresh event user amount url = record {
      at = λ s. record {
        spared = λ h.
            let u = Ticketing.new_ticket w cfg event user amount (generate_trade_no w s.trace) s in
            let new =
              find_id-new Ticket.id (w.new_id (map Ticket.id s.tickets)) s.tickets
                (fresh (map Ticket.id s.tickets)) in
            elim (Bool-cases (u.id == k)) [
              | inl hit ↦ absurd (some≢none (sym h ∙ rw (← (eq_iff u.id k).0 hit) new))
              | inr miss ↦ rw (find_id-save Ticket.id k u s.tickets, miss) h
            ];
      };
    }

    refund_ticket-Spares :
        (id : String) (requester : Option String)
        → is_stranger w cfg requester t ≡ true
        → Moves (Spares k t) (Ticketing.refund_ticket w cfg id requester)
    refund_ticket-Spares id requester stranger = record {
      at = λ s. elim (Result-cases (Ticketing.refund_ticket w cfg id requester s).0) [
        | inl (e, failed) ↦
            Spares-Same s _ (ap Db.tickets (refund_ticket-err w cfg id requester s e failed))
        | inr (u, done) ↦
            let (r, found, own, before, made, written) =
              refund_ticket-ok w cfg id requester s u done in
            record {
              spared = λ h.
                  let at_id : u.id ≡ id =
                    ap Ticket.id made ∙ key-find_id Ticket.id id s.tickets r found in
                  rw written (elim (Bool-cases (u.id == k)) [
                    | inl hit ↦
                        let same_key : id ≡ k = sym at_id ∙ (eq_iff u.id k).0 hit in
                        let same_row : r ≡ t = some_inj (sym found ∙ rw same_key h) in
                        absurd (true≢false (sym stranger ∙ rw (← same_row) own))
                    | inr miss ↦ rw (find_id-save Ticket.id k u s.tickets, miss) h
                  ]);
            }
      ];
    }

module _ (w : World) (cfg : Config) (web : Web) (k : String) (t : Ticket)
    (auth : Option String) where
  turned_away-Spares :
      (e : Endpoint) (s : State)
      → audience e ≡ admins
      → Outsider (web.bearer s.trace auth) t
      → Spares k t s (respond w cfg web auth e s).1
  turned_away-Spares e s h out = elim (Option-cases (web.bearer s.trace auth)) [
    | inl missing ↦
        let away =
          respond-turned_away w cfg web auth e s (unauthorized "Unauthorized")
            (rw (h, missing) refl) in
        Spares-Same k t s _ (ap (λ x. x.1.tickets) away)
    | inr (user, found) ↦
        let away =
          respond-turned_away w cfg web auth e s (forbidden "Forbidden resource")
            (rw (h, found, (rw (found) at out).0) refl) in
        Spares-Same k t s _ (ap (λ x. x.1.tickets) away)
  ]

  refused_refund-Spares :
      (id sub : String)
      → is_stranger w cfg (some sub) t ≡ true
      → Moves
          (Spares k t)
          (finish (parse_uuid web id >>= λ _. Ticketing.refund_ticket w cfg id (some sub)))
  refused_refund-Spares id sub stranger =
      let o = Spares-IsPreorder k t in
      finish-Moves o _ (
        Moves-bind o (parse_uuid web id) _
          (Spares-of_Same k t (parse_uuid web id) (parse_uuid-Same Db.tickets web id))
          λ _. refund_ticket-Spares k t w cfg id (some sub) stranger)

  refund-Spares :
      (id : String) (s : State)
      → Outsider (web.bearer s.trace auth) t
      → Spares k t s (respond w cfg web auth (refund id) s).1
  unfolding respond finish Tickets.refund
  refund-Spares id s out = elim (Option-cases (web.bearer s.trace auth)) [
    | inl missing ↦
        let away =
          respond-turned_away w cfg web auth (refund id) s (unauthorized "Unauthorized")
            (rw missing refl) in
        Spares-Same k t s _ (ap (λ x. x.1.tickets) away)
    | inr (user, found) ↦
        let (a, given, other) = rw (found) at out in
        let stranger : is_stranger w cfg (some user.sub) t ≡ true = rw (given, other) refl in
        let rest : App Ticket =
          parse_uuid web id >>= λ _. Ticketing.refund_ticket w cfg id (some user.sub) in
        let path : respond w cfg web auth (refund id) s ≡ finish rest s =
          finish-at (Tickets.refund w cfg web auth id) rest s (
            jwt_auth-at web auth s user
              (λ u. parse_uuid web id >>= λ _. Ticketing.refund_ticket w cfg id (some u.sub))
              found) in
        let kept = refused_refund-Spares id user.sub stranger in
        subst (λ x. Spares k t s x.1) (sym path) (kept.at s)
  ]

  preauthorize-endpoint-Spares :
      FreshIds w
      → (event : String) (dto : Preauth) (s : State)
      → Spares k t s (respond w cfg web auth (preauthorize event dto) s).1
  unfolding respond Tickets.preauthorize
  preauthorize-endpoint-Spares fresh event dto s =
      let kept : Moves (Spares k t) (respond w cfg web auth (preauthorize event dto)) =
        search
          (
            Spares-IsPreorder,
            moves_rules,
            Spares-of_Same,
            guard_rules,
            preauthorize-Spares k t w cfg fresh,
          )
          depth 24 in
      kept.at s

  respond-Spares :
      FreshIds w
      → (e : Endpoint) (s : State) → is_callback e ≡ false
      → Outsider (web.bearer s.trace auth) t
      → Spares k t s (respond w cfg web auth e s).1
  respond-Spares fresh (ecpay_callback body) s h out = absurd (true≢false h)
  respond-Spares fresh (preauthorize event dto) s h out =
      preauthorize-endpoint-Spares fresh event dto s
  respond-Spares fresh (refund id) s h out = refund-Spares id s out
  respond-Spares fresh (capture id) s h out = turned_away-Spares (capture id) s refl out
  respond-Spares fresh (mint id) s h out = turned_away-Spares (mint id) s refl out
  respond-Spares fresh (verify_entry dto) s h out = turned_away-Spares (verify_entry dto) s refl out
  respond-Spares fresh (fallback_verify dto) s h out =
      turned_away-Spares (fallback_verify dto) s refl out
  respond-Spares fresh e s h out =
      Spares-Same k t s _
        (((respond-Same Db.tickets w cfg web auth e (Untouched-tickets (writes e) refl)).at s).same)

-- A request that is not ECPay's, of an outsider whenever the token is read.
abbrev pub Foreign : Web → Ticket → Option String × Endpoint → Type 0
Foreign web t r = (is_callback r.1 ≡ false) × ((made : Trace) → Outsider (web.bearer made r.0) t)

-- A ticket stays as it is, field by field, whatever requests are served one after the other, as long
-- as new ids are fresh, the requests are not ECPay's callbacks, and each comes without a valid token
-- or with one whose role is not "admin" and whose `sub` is neither empty nor the ticket's owner.
pub respond_all_spares :
    (w : World) (cfg : Config) (web : Web)
    → FreshIds w
    → (requests : List (Option String × Endpoint)) (s : State) (k : String) (t : Ticket)
    → All (Foreign web t) requests
    → find_id Ticket.id k s.tickets ≡ some t
    → find_id Ticket.id k (respond_all w cfg web requests s).tickets ≡ some t
unfolding respond_all
respond_all_spares w cfg web fresh [] s k t h found = found
respond_all_spares w cfg web fresh (r ∷ rest) s k t ((own, out), later) found =
    let one = respond-Spares w cfg web k t r.0 fresh r.1 s own (out s.trace) in
    respond_all_spares w cfg web fresh rest (respond w cfg web r.0 r.1 s).1 k t later
      (one.spared found)
