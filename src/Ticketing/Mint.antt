-- ===== src/Ticketing/Mint.antt =====
-- ticketing/ticketing.service.ts, mintTicket and deriveTokenId: what a minting does on each branch,
-- and the range of the token ids.
use blocktic_backend.Base.{
  String, ◌≡◌, some, ◌∷◌, arith, find_id, Option-cases, inl, inr, non_empty,
}
use blocktic_backend.Exec.{Fault, ok, err, ◌>>=◌, Result-cases}
use blocktic_backend.Entities.{Ticket, Person, paid, minted}
use blocktic_backend.State.{World, Config, State, sbt_mint, mined}
use blocktic_backend.Blockchain.{mint_ticket_sbt}
use blocktic_backend.Blockchain.Transactions.{mint_ticket_sbt-ok, db-mint_ticket_sbt}
use blocktic_backend.Ticketing.{save_ticket, derive_token_id, mint_ticket}

module _ (w : World) (cfg : Config) where
  -- A minting that throws leaves the database as it was, also where the transaction was sent.
  pub mint_ticket-err :
      (ticket_id : String) (s : State) (e : Fault)
      → (mint_ticket w cfg ticket_id s).0 ≡ err e
      → (mint_ticket w cfg ticket_id s).1.db ≡ s.db
  unfolding mint_ticket ◌>>=◌
  mint_ticket-err ticket_id s e h = elim (Option-cases (find_id Ticket.id ticket_id s.tickets)) [
    | inl missing ↦ ground arith
    | inr (t, found) ↦ elim (Option-cases (find_id Person.id t.user_id s.persons)) [
      | inl missing ↦ ground arith
      | inr (p, known) ↦ elim (Option-cases (non_empty p.aa_wallet_address)) [
        | inl missing ↦ ground arith
        | inr (wallet, held) ↦
            ground (arith, db-mint_ticket_sbt w cfg wallet (derive_token_id w cfg t.id) s)
      ]
    ]
  ]

  -- A minting that returns has found a paid ticket whose owner's person row has a wallet; it sends
  -- one transaction, which mints the ticket's token to that wallet, and writes the ticket alone.
  pub mint_ticket-ok :
      (ticket_id : String) (s : State) (u : Ticket)
      → (mint_ticket w cfg ticket_id s).0 ≡ ok u
      → (t : Ticket) × (p : Person) × (wallet : String) × (tx : String) × (find_id Ticket.id
            ticket_id s.tickets
          ≡ some t)
        × (t.status ≡ paid)
        × (find_id Person.id t.user_id s.persons ≡ some p)
        × (non_empty p.aa_wallet_address ≡ some wallet)
        × (w.transact s.trace (sbt_mint wallet (derive_token_id w cfg t.id)) ≡ mined tx)
        × ((mint_ticket w cfg ticket_id s).1.trace
            ≡ sbt_mint wallet (derive_token_id w cfg t.id) ∷ s.trace)
        × (u ≡ record t {
          status = minted;
          sbt_token_id = some (derive_token_id w cfg t.id);
          aa_wallet_address = some wallet;
          tx_hash = some tx;
          minted_at = some (w.now (mint_ticket w cfg ticket_id s).1.trace);
        })
        × ((mint_ticket w cfg ticket_id s).1.db ≡ (save_ticket u s).db)
  unfolding mint_ticket ◌>>=◌
  mint_ticket-ok ticket_id s u h = elim (Option-cases (find_id Ticket.id ticket_id s.tickets)) [
    | inl e ↦ ground arith
    | inr (t, e) ↦ elim (Option-cases (find_id Person.id t.user_id s.persons)) [
      | inl e' ↦ ground arith
      | inr (p, e') ↦ elim (Option-cases (non_empty p.aa_wallet_address)) [
        | inl e'' ↦ ground arith
        | inr (wallet, e'') ↦
            let sending = mint_ticket_sbt w cfg wallet (derive_token_id w cfg t.id) in
            elim (Result-cases (sending s).0) [
              | inl (fault, failed) ↦ ground arith
              | inr (tx, sent) ↦
                  let (sent_tx, sent_trace) =
                    mint_ticket_sbt-ok w cfg wallet (derive_token_id w cfg t.id) s tx sent in
                  let same_db = db-mint_ticket_sbt w cfg wallet (derive_token_id w cfg t.id) s in
                  (
                    t,
                    p,
                    wallet,
                    tx,
                    e,
                    ground arith,
                    e',
                    e'',
                    sent_tx,
                    ground arith,
                    ground arith,
                    ground arith,
                  )
            ]
      ]
    ]
  ]
