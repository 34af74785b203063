-- ===== src/Ticketing/Form.antt =====
-- ticketing/ticketing.service.ts, generateTradeNo and buildEcpayFormData: the trade number, and the
-- signed parameters of the AioCheckOut form.
use Prim.Native.Char.{code}
use Prim.Native.String.{slice}
use blocktic_backend.Base.{
  ℕ, String, Bool, ◌||◌, [], ◌∷◌, ◌++◌, ◌<>◌, ◌==◌, nat_eq, if◌then◌else◌, decimal, pad_start,
}
use blocktic_backend.State.{World, Config, Trace}
use blocktic_backend.Ecpay.{Params, generate_check_mac_value, to_upper_case}

-- `.replace(/[-T:.Z]/g, '')`
abbrev is_separator : ℕ → Bool
is_separator c = c == b'-' || c == b'T' || c == b':' || c == b'.' || c == b'Z'

unfoldable pub strip_separators : String → String
strip_separators String.[] = ""
strip_separators (String.◌∷◌ c s) =
    let rest = strip_separators s in if is_separator (code c) then rest else String.◌∷◌ c rest

module _ (w : World) where
  unfoldable pub generate_trade_no : Trace → String
  unfolding strip_separators to_upper_case
  generate_trade_no t =
      let ts = slice (strip_separators (w.iso_string (w.now t))) 2 14 in
      let rand = to_upper_case (slice (w.sha256 (decimal (w.now t) <> "-" <> w.random t)) 0 6) in
      "BT" <> ts <> rand

  abbrev two : ℕ → String
  two n = pad_start 2 "0" (decimal n)

  unfoldable pub trade_date : ℕ → String
  trade_date now =
      let d = w.local_time now in
      decimal d.year
      <> "/"
      <> two d.month
      <> "/"
      <> two d.date
      <> " "
      <> two d.hours
      <> ":"
      <> two d.minutes
      <> ":"
      <> two d.seconds

  module _ (cfg : Config) where
    abbrev pub ecpay_api_url : String
    ecpay_api_url =
        if cfg.is_prod then "https://payment.ecpay.com.tw" else "https://payment-stage.ecpay.com.tw"

    abbrev pub order_params :
        (now : ℕ) → (trade_no : String) → (amount : ℕ) → (return_url : String) → Params
    order_params now trade_no amount return_url =
        ("MerchantID", cfg.ecpay_merchant_id)
        ∷ ("MerchantTradeNo", trade_no)
        ∷ ("MerchantTradeDate", trade_date now)
        ∷ ("PaymentType", "aio")
        ∷ ("TotalAmount", decimal amount)
        ∷ ("TradeDesc", "BlockTic Ticket Preauthorization")
        ∷ ("ItemName", "BlockTic 票券預授權")
        ∷ ("ReturnURL", cfg.ecpay_return_url)
        ∷ ("ClientBackURL", return_url)
        ∷ ("ChoosePayment", "Credit")
        ∷ ("EncryptType", "1")
        ∷ []

    unfoldable pub build_ecpay_form_data :
        (now : ℕ) → (trade_no : String) → (amount : ℕ) → (return_url : String) → Params
    unfolding trade_date generate_check_mac_value
    build_ecpay_form_data now trade_no amount return_url =
        let params = order_params now trade_no amount return_url in
        params
        ++ ("CheckMacValue", generate_check_mac_value w params cfg.ecpay_hash_key cfg.ecpay_hash_iv)
          ∷ ("_action", ecpay_api_url <> "/Cashier/AioCheckOut/V5")
          ∷ []
