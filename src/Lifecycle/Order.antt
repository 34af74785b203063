-- ===== src/Lifecycle/Order.antt =====
-- The order of a ticket's life (the TicketStatus of ticketing/entities/ticket.entity.ts), and what
-- it means that a table of tickets only moves on in it.
use blocktic_backend.Base.{
  String, ◌≡◌, refl, ◌∙◌, Bool, true, ◌||◌, some, none, List, arith, find_id, save, update_where,
  find_id-save, find_id-update_where, key-find_id, eq_iff, string_eq, ◌==◌, sym, some_inj,
  some≢none, Bool-cases, inl, inr,
}
use blocktic_backend.Entities.{
  Ticket, TicketStatus, preauthorized, paid, minted, refunded, used, ticket_status_eq,
}
use blocktic_backend.Exec.Keeps.{IsPreorder}
use blocktic_backend.State.{State}
use blocktic_backend.Base.{Distinct}

-- The statuses that may come after a status: the order of the life cycle. Nothing comes after
-- `refunded` and `used` but themselves.
abbrev pub follows : TicketStatus → TicketStatus → Bool
follows preauthorized st = true
follows paid st =
    ticket_status_eq st paid
    || ticket_status_eq st minted
    || ticket_status_eq st refunded
    || ticket_status_eq st used
follows minted st =
    ticket_status_eq st minted || ticket_status_eq st refunded || ticket_status_eq st used
follows refunded st = ticket_status_eq st refunded
follows used st = ticket_status_eq st used

follows_refl : (a : TicketStatus) → follows a a ≡ true
follows_refl a = ground arith

follows_trans :
    (a b c : TicketStatus) → follows a b ≡ true → follows b c ≡ true → follows a c ≡ true
follows_trans preauthorized b c h k = refl
follows_trans paid b c h k = ground arith
follows_trans minted b c h k = ground arith
follows_trans refunded b c h k = ground arith
follows_trans used b c h k = ground arith

-- What an operation may do to a ticket.
pub record Evolves (t u : Ticket) : Type 0 where
  pub id : u.id ≡ t.id
  pub event_id : u.event_id ≡ t.event_id
  pub user_id : u.user_id ≡ t.user_id
  pub amount : u.amount ≡ t.amount
  pub trade_no : u.preauth_trade_no ≡ t.preauth_trade_no
  pub status : follows t.status u.status ≡ true

Evolves-refl : (t : Ticket) → Evolves t t
Evolves-refl t = record {
  id = refl;
  event_id = refl;
  user_id = refl;
  amount = refl;
  trade_no = refl;
  status = follows_refl t.status;
}

Evolves-trans : (t u v : Ticket) → Evolves t u → Evolves u v → Evolves t v
Evolves-trans t u v a b = record {
  id = b.id ∙ a.id;
  event_id = b.event_id ∙ a.event_id;
  user_id = b.user_id ∙ a.user_id;
  amount = b.amount ∙ a.amount;
  trade_no = b.trade_no ∙ a.trade_no;
  status = follows_trans t.status u.status v.status a.status b.status;
}

-- Every ticket of the first table is in the second, as far on in its life or farther.
abbrev pub TicketsEvolve : List Ticket → List Ticket → Type 0
TicketsEvolve rows rows' =
    (k : String) (t : Ticket)
    → find_id Ticket.id k rows ≡ some t
    → (u : Ticket) × (find_id Ticket.id k rows' ≡ some u) × Evolves t u

pub TicketsEvolve-refl : (rows : List Ticket) → TicketsEvolve rows rows
TicketsEvolve-refl rows k t e = (t, e, Evolves-refl t)

pub TicketsEvolve-trans :
    (a b c : List Ticket) → TicketsEvolve a b → TicketsEvolve b c → TicketsEvolve a c
TicketsEvolve-trans a b c f g k t e =
    let (u, e', ev) = f k t e in
    let (v, e'', ev') = g k u e' in (v, e'', Evolves-trans t u v ev ev')

-- Saving a later version of the row that a key finds.
pub save-TicketsEvolve :
    (rows : List Ticket) (key : String) (t u : Ticket)
    → find_id Ticket.id key rows ≡ some t
    → Evolves t u
    → TicketsEvolve rows (save Ticket.id u rows)
save-TicketsEvolve rows key t u found ev k r e = elim (Bool-cases (u.id == k)) [
  | inl hit ↦
      let at_key : key ≡ k =
        sym (key-find_id Ticket.id key rows t found) ∙ sym ev.id ∙ (eq_iff u.id k).0 hit in
      let same : t ≡ r = some_inj (sym found ∙ rw at_key e) in
      (u, rw (find_id-save Ticket.id k u rows, hit) refl, rw (← same) ev)
  | inr miss ↦ (r, rw (find_id-save Ticket.id k u rows, miss) e, Evolves-refl r)
]

-- Inserting a row with a new key.
pub insert-TicketsEvolve :
    (rows : List Ticket) (u : Ticket)
    → find_id Ticket.id u.id rows ≡ none
    → TicketsEvolve rows (save Ticket.id u rows)
insert-TicketsEvolve rows u new k r e = elim (Bool-cases (u.id == k)) [
  | inl hit ↦ absurd (some≢none (sym e ∙ rw (← (eq_iff u.id k).0 hit) new))
  | inr miss ↦ (r, rw (find_id-save Ticket.id k u rows, miss) e, Evolves-refl r)
]

-- An update of the rows that pass a test, each to a later version.
pub update_where-TicketsEvolve :
    (p : Ticket → Bool) (f : Ticket → Ticket) (rows : List Ticket)
    → ((t : Ticket) → (f t).id ≡ t.id)
    → ((t : Ticket) → p t ≡ true → Evolves t (f t))
    → TicketsEvolve rows (update_where p f rows)
update_where-TicketsEvolve p f rows same later k t e =
    let row = find_id-update_where Ticket.id p f same k rows in
    elim (Bool-cases (p t)) [
      | inl hit ↦ (f t, rw (row, e, hit) refl, later t hit)
      | inr miss ↦ (t, rw (row, e, miss) refl, Evolves-refl t)
    ]

-- A step of the application: primary keys stay unique, and the tickets evolve.
abbrev pub MovesOn : State → State → Type 0
MovesOn s s' =
    Distinct Ticket.id s.tickets
    → Distinct Ticket.id s'.tickets × TicketsEvolve s.tickets s'.tickets

pub MovesOn-IsPreorder : IsPreorder MovesOn
MovesOn-IsPreorder = record {
  same = λ s d. (d, TicketsEvolve-refl s.tickets);
  chain = λ s t u f g d.
      let (d', e) = f d in
      let (d'', e') = g d' in (d'', TicketsEvolve-trans s.tickets t.tickets u.tickets e e');
}
