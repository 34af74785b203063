-- ===== src/Frames/Chain.antt =====
-- blockchain/blockchain.service.ts: no operation writes the database.
use blocktic_backend.Base.{ℕ, zero, suc, String, List}
use blocktic_backend.Exec.Keeps.{Moves}
use blocktic_backend.State.{World, Config, Db, TxReply, tx_error, no_receipt, mined, Call}
use blocktic_backend.State.Frame.{Same, frame_rules}
use blocktic_backend.Blockchain

module _ {X : Type 0} (v : Db → X) where
  hash_of-Same : (r : TxReply) → Moves (Same v) (Blockchain.hash_of r)
  hash_of-Same (tx_error message) = search frame_rules
  hash_of-Same no_receipt = search frame_rules
  hash_of-Same (mined hash) = search frame_rules

  vrf_receipt-Same : (r : TxReply) → Moves (Same v) (Blockchain.vrf_receipt r)
  vrf_receipt-Same (tx_error message) = search frame_rules
  vrf_receipt-Same no_receipt = search frame_rules
  vrf_receipt-Same (mined hash) = search frame_rules

  module _ (w : World) (cfg : Config) where
    polled-Same :
        (request max_wait : ℕ) (p : Blockchain.Polled)
        → Moves (Same v) (Blockchain.polled w cfg request max_wait p)
    polled-Same request max_wait (Blockchain.fulfilled word) = search frame_rules
    polled-Same request max_wait Blockchain.timed_out = search frame_rules
    polled-Same request max_wait Blockchain.out_of_fuel = search frame_rules

    ensure_initialized-Same : Moves (Same v) (Blockchain.ensure_initialized w cfg)
    unfolding Blockchain.ensure_initialized
    ensure_initialized-Same = search frame_rules

    send_contract_tx-Same :
        (label : String) (c : Call) → Moves (Same v) (Blockchain.send_contract_tx w cfg label c)
    unfolding Blockchain.send_contract_tx
    send_contract_tx-Same label c = search (frame_rules, hash_of-Same) depth 16

    pub create_aa_wallet-Same :
        (id : String) → Moves (Same v) (Blockchain.create_aa_wallet w cfg id)
    unfolding Blockchain.create_aa_wallet
    create_aa_wallet-Same id = search (frame_rules, ensure_initialized-Same) depth 16

    pub mint_kyc_sbt-Same :
        (wallet : String) (token : ℕ) → Moves (Same v) (Blockchain.mint_kyc_sbt w cfg wallet token)
    unfolding Blockchain.mint_kyc_sbt
    mint_kyc_sbt-Same wallet token =
        search (frame_rules, ensure_initialized-Same, send_contract_tx-Same)

    pub mint_ticket_sbt-Same :
        (wallet : String) (token : ℕ)
        → Moves (Same v) (Blockchain.mint_ticket_sbt w cfg wallet token)
    unfolding Blockchain.mint_ticket_sbt
    mint_ticket_sbt-Same wallet token =
        search (frame_rules, ensure_initialized-Same, send_contract_tx-Same)

    pub burn_ticket_sbt-Same :
        (wallet : String) (token : ℕ)
        → Moves (Same v) (Blockchain.burn_ticket_sbt w cfg wallet token)
    unfolding Blockchain.burn_ticket_sbt
    burn_ticket_sbt-Same wallet token =
        search (frame_rules, ensure_initialized-Same, send_contract_tx-Same)

    pub record_draw_result-Same :
        (event zone request seed : ℕ) (winners : List String)
        → Moves (Same v) (Blockchain.record_draw_result w cfg event zone request seed winners)
    unfolding Blockchain.record_draw_result
    record_draw_result-Same event zone request seed winners =
        search (frame_rules, ensure_initialized-Same, send_contract_tx-Same)

    pub verify_sbt_ownership-Same :
        (wallet : String) (token : ℕ)
        → Moves (Same v) (Blockchain.verify_sbt_ownership w cfg wallet token)
    unfolding Blockchain.verify_sbt_ownership
    verify_sbt_ownership-Same wallet token = search (frame_rules, ensure_initialized-Same) depth 16

    poll_vrf-Same :
        (fuel request deadline interval : ℕ)
        → Moves (Same v) (Blockchain.poll_vrf w cfg fuel request deadline interval)
    unfolding Blockchain.poll_vrf
    poll_vrf-Same zero request deadline interval = search frame_rules
    poll_vrf-Same (suc fuel) request deadline interval =
        search (frame_rules, poll_vrf-Same fuel) depth 32

    pub request_vrf_randomness-Same :
        (max_wait interval : ℕ)
        → Moves (Same v) (Blockchain.request_vrf_randomness w cfg max_wait interval)
    unfolding Blockchain.request_vrf_randomness
    request_vrf_randomness-Same max_wait interval =
        search (frame_rules, ensure_initialized-Same, vrf_receipt-Same, poll_vrf-Same, polled-Same)
          depth 32
