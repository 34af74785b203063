-- ===== src/Blockchain/Transactions.antt =====
-- blockchain/blockchain.service.ts, sendContractTx and the calls that go through it.
use blocktic_backend.Base.{ℕ, String, List, ◌≡◌, ◌∷◌, arith, inl, inr}
use blocktic_backend.Exec.{ok, ◌>>=◌}
use blocktic_backend.State.{World, Config, Call, State, TxReply-cases, sbt_mint, mined}
use blocktic_backend.Blockchain.{send_contract_tx, mint_ticket_sbt, record_draw_result}

module _ (w : World) (cfg : Config) where
  -- A transaction whose hash is returned was sent once and mined.
  pub send_contract_tx-ok :
      (label : String) (c : Call) (s : State) (tx : String)
      → (send_contract_tx w cfg label c s).0 ≡ ok tx
      → (w.transact s.trace c ≡ mined tx)
        × ((send_contract_tx w cfg label c s).1.trace ≡ c ∷ s.trace)
  unfolding send_contract_tx ◌>>=◌
  send_contract_tx-ok label c s tx h = elim (TxReply-cases (w.transact s.trace c)) [
    | inl failed ↦ absurd (failed tx (ground arith))
    | inr (hash, e) ↦ (ground arith, ground arith)
  ]

  pub db-send_contract_tx :
      (label : String) (c : Call) (s : State) → (send_contract_tx w cfg label c s).1.db ≡ s.db
  unfolding send_contract_tx ◌>>=◌
  db-send_contract_tx label c s = ground arith

  pub mint_ticket_sbt-ok :
      (wallet : String) (token : ℕ) (s : State) (tx : String)
      → (mint_ticket_sbt w cfg wallet token s).0 ≡ ok tx
      → (w.transact s.trace (sbt_mint wallet token) ≡ mined tx)
        × ((mint_ticket_sbt w cfg wallet token s).1.trace ≡ sbt_mint wallet token ∷ s.trace)
  unfolding mint_ticket_sbt ◌>>=◌
  mint_ticket_sbt-ok wallet token s tx h =
      elim (TxReply-cases (w.transact s.trace (sbt_mint wallet token))) [
        | inl failed ↦ absurd (failed tx (ground arith))
        | inr (hash, e) ↦ (ground arith, ground arith)
      ]

  pub db-mint_ticket_sbt :
      (wallet : String) (token : ℕ) (s : State) → (mint_ticket_sbt w cfg wallet token s).1.db ≡ s.db
  unfolding mint_ticket_sbt ◌>>=◌
  db-mint_ticket_sbt wallet token s = ground arith

  pub db-record_draw_result :
      (event zone request seed : ℕ) (winners : List String) (s : State)
      → (record_draw_result w cfg event zone request seed winners s).1.db ≡ s.db
  unfolding record_draw_result ◌>>=◌
  db-record_draw_result event zone request seed winners s = ground arith
