-- ===== src/Blockchain.antt =====
-- blockchain/blockchain.service.ts: the transactions and reads on Polygon. The contracts and the
-- JSON-RPC node are the world's.
pub mod Transactions
pub mod Polling
pub mod Tests
use blocktic_backend.Base.{
  ℕ, zero, suc, ◌+◌, ◌/◌, String, Bool, false, not, List, ◌<>◌, ltb, if◌then◌else◌, decimal,
}
use blocktic_backend.Exec.{
  internal, failure, pure, throw, gets, throw_if, or_throw, try_catch, ◌>>=◌, ◌>>◌,
}
use blocktic_backend.State.{
  Call, sbt_mint, sbt_burn, sbt_record_draw, sbt_balance_of, factory_get_address, vrf_request,
  vrf_last_request_id, vrf_get_request_result, sleep, TxReply, tx_error, no_receipt, mined, World,
  Config, App, call,
}

-- dto/wallet.dto.ts
pub record WalletResponse : Type 0 where
  pub wallet_address : String
  pub user_id : String
  pub is_deployed : Bool

-- The outcome of the polling loop; `out_of_fuel` is the model's own.
pub data Polled : Type 0 where
  fulfilled : (random_word : ℕ) → Polled
  timed_out out_of_fuel : Polled

pub record VrfRandomness : Type 0 where
  pub vrf_request_id : ℕ
  pub random_word : ℕ

abbrev pub hash_of : TxReply → App String
hash_of (tx_error message) = throw (failure message)
hash_of no_receipt = throw (failure "交易被替換或取消，receipt 為 null")
hash_of (mined hash) = pure hash

-- The receipt of `requestRandomWords`.
abbrev pub vrf_receipt : TxReply → App (Unit {0})
vrf_receipt (tx_error message) = throw (failure message)
vrf_receipt no_receipt = throw (internal "VRF 請求交易被取消")
vrf_receipt (mined hash) = pure tt

module _ (w : World) (cfg : Config) where
  unfoldable pub ensure_initialized : App (Unit {0})
  ensure_initialized =
      throw_if (not cfg.chain_initialized) (internal "區塊鏈服務未初始化 — 請設定 POLYGON_PRIVATE_KEY 環境變數。")

  unfoldable pub send_contract_tx : String → Call → App String
  unfolding call
  send_contract_tx label c =
      try_catch (do reply ← call c w.transact; hash_of reply)
        (λ _. throw (internal ("區塊鏈交易失敗：" <> label)))

  unfoldable pub create_aa_wallet : String → App WalletResponse
  unfolding ensure_initialized call
  create_aa_wallet user_id = do
    ensure_initialized
    found ← call (factory_get_address (w.keccak256 user_id)) w.counterfactual
    address ← or_throw found (failure "getAddress")
    pure (record { wallet_address = address; user_id = user_id; is_deployed = false })

  unfoldable pub mint_kyc_sbt : String → ℕ → App String
  unfolding ensure_initialized send_contract_tx
  mint_kyc_sbt wallet token = do
    ensure_initialized
    send_contract_tx "鑄造 KYC SBT" (sbt_mint wallet token)

  unfoldable pub mint_ticket_sbt : String → ℕ → App String
  unfolding ensure_initialized send_contract_tx
  mint_ticket_sbt wallet token = do
    ensure_initialized
    send_contract_tx "鑄造票券 SBT" (sbt_mint wallet token)

  unfoldable pub burn_ticket_sbt : String → ℕ → App String
  unfolding ensure_initialized send_contract_tx
  burn_ticket_sbt wallet token = do
    ensure_initialized
    send_contract_tx "銷毀票券 SBT" (sbt_burn wallet token)

  unfoldable pub record_draw_result :
      (event zone request seed : ℕ) → (winners : List String) → App String
  unfolding ensure_initialized send_contract_tx
  record_draw_result event zone request seed winners = do
    ensure_initialized
    send_contract_tx ("記錄抽籤結果 eventId=" <> decimal event)
        (sbt_record_draw event zone request seed winners)

  unfoldable pub verify_sbt_ownership : String → ℕ → App Bool
  unfolding ensure_initialized call
  verify_sbt_ownership wallet token = do
    ensure_initialized
    found ← call (sbt_balance_of wallet token) w.balance_of
    balance ← or_throw found (failure "balanceOf")
    pure (ltb 0 balance)

  -- The `while (Date.now() < deadline)` loop.
  unfoldable pub poll_vrf : (fuel request deadline interval : ℕ) → App Polled
  unfolding call
  poll_vrf zero request deadline interval = pure out_of_fuel
  poll_vrf (suc fuel) request deadline interval =
      let again = poll_vrf fuel request deadline interval in
      (do
        now ← gets (λ s. w.now s.trace)
        if not (ltb now deadline) then pure timed_out else do
          found ← call (vrf_get_request_result request) (λ t _. w.request_result t request)
          answer ← or_throw found (failure "getRequestResult")
          if answer.0
              then pure (fulfilled answer.1)
              else do call (sleep interval) (λ _ _. tt {0}); again)

  -- Every round but the last sleeps for the interval, so this many rounds pass the deadline.
  abbrev pub poll_fuel : (max_wait interval : ℕ) → ℕ
  poll_fuel max_wait interval = max_wait / interval + 2

  abbrev pub polled : (request max_wait : ℕ) → Polled → App VrfRandomness
  polled request max_wait (fulfilled word) =
      pure (record { vrf_request_id = request; random_word = word })
  polled request max_wait timed_out = throw (
      internal (
        "VRF 隨機數等待逾時 — requestId="
        <> decimal request
        <> "，超過 "
        <> decimal (max_wait / 1000)
        <> " 秒"))
  polled request max_wait out_of_fuel = throw (failure "out of fuel")

  unfoldable pub request_vrf_randomness : (max_wait interval : ℕ) → App VrfRandomness
  unfolding ensure_initialized call poll_vrf
  request_vrf_randomness max_wait interval = do
    ensure_initialized
    sent ← call vrf_request w.transact
    vrf_receipt sent
    latest ← call vrf_last_request_id (λ t _. w.last_request_id t)
    request ← or_throw latest (failure "lastRequestId")
    now ← gets (λ s. w.now s.trace)
    outcome ← poll_vrf (poll_fuel max_wait interval) request (now + max_wait) interval
    polled request max_wait outcome
