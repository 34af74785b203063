-- ===== src/Ticketing/Callback.antt =====
-- ticketing/ticketing.service.ts, handleEcpayCallback, and the bodies that ECPay signs.
use blocktic_backend.Base.{
  String, ◌≡◌, ◌≢◌, refl, sym, ap, ◌∙◌, Bool, true, false, none, some, [], ◌∷◌, ◌++◌, arith, lookup,
  without, find_by, Option-cases, Bool-cases, inl, inr, ◌==◌, string_eq, eq_iff, eq_refl,
}
use blocktic_backend.Exec.{ok, ◌>>=◌}
use blocktic_backend.Entities.{Ticket}
use blocktic_backend.State.{World, Config, State}
use blocktic_backend.Ecpay.{Params, generate_check_mac_value}
use blocktic_backend.Ticketing.{
  save_ticket, expected_mac, mac_matches, has_trade_no, store_trade_no, handle_ecpay_callback,
}

-- The parameters do not have the key.
abbrev pub Lacks : String → Params → Type 0
Lacks k ps = lookup k ps ≡ none

lookup-sent :
    (k v : String) (before after : Params)
    → Lacks k before
    → lookup k (before ++ (k, v) ∷ after) ≡ some v
lookup-sent k v [] after free = rw (eq_refl k) refl
lookup-sent k v ((j, u) ∷ before) after free = ground (arith, lookup-sent k v before after)

without-lacking : (k : String) (ps : Params) → Lacks k ps → without k ps ≡ ps
without-lacking k [] free = refl
without-lacking k ((j, u) ∷ ps) free = ground (arith, without-lacking k ps)

without-sent :
    (k v : String) (before after : Params)
    → Lacks k before
    → Lacks k after
    → without k (before ++ (k, v) ∷ after) ≡ before ++ after
without-sent k v [] after free free' = rw (eq_refl k) (without-lacking k after free')
without-sent k v ((j, u) ∷ before) after free free' = ground (arith, without-sent k v before after)

module _ (w : World) (cfg : Config) where
  -- The body that ECPay sends: the parameters with their signature among them.
  abbrev pub signed : (before after : Params) → Params
  signed before after =
      before
      ++ (
        "CheckMacValue",
        generate_check_mac_value w (before ++ after) cfg.ecpay_hash_key cfg.ecpay_hash_iv,
      )
        ∷ after

  mac_matches-true :
      (body : Params) (mac : String)
      → lookup "CheckMacValue" body ≡ some mac
      → mac ≡ expected_mac w cfg body
      → mac_matches w cfg body ≡ true
  mac_matches-true body mac found right =
      ap (λ o. elim o as (λ o. Bool) [ none ↦ false | some m ↦ m == expected_mac w cfg body ]) found
      ∙ (eq_iff mac (expected_mac w cfg body)).1 right

  mac_matches-signed :
      (before after : Params)
      → Lacks "CheckMacValue" before
      → Lacks "CheckMacValue" after
      → mac_matches w cfg (signed before after) ≡ true
  mac_matches-signed before after free free' =
      let key = cfg.ecpay_hash_key in
      let mac = generate_check_mac_value w (before ++ after) key cfg.ecpay_hash_iv in
      mac_matches-true (signed before after) mac (lookup-sent "CheckMacValue" mac before after free)
        (ap (λ ps. generate_check_mac_value w ps key cfg.ecpay_hash_iv)
          (sym (without-sent "CheckMacValue" mac before after free free')))

  -- A callback that ECPay has signed, whose parameters have no other CheckMacValue, is acknowledged
  -- where a ticket has its MerchantTradeNo, and that ticket is given the TradeNo, if there is one.
  pub handle_ecpay_callback-signed :
      (before after : Params) (t : Ticket) (s : State)
      → Lacks "CheckMacValue" before
      → Lacks "CheckMacValue" after
      → find_by (has_trade_no w cfg (lookup "MerchantTradeNo" (signed before after))) s.tickets
        ≡ some t
      → handle_ecpay_callback w cfg (signed before after) s
        ≡ (ok "1|OK", store_trade_no w cfg (lookup "TradeNo" (signed before after)) t s)
  unfolding handle_ecpay_callback ◌>>=◌
  handle_ecpay_callback-signed before after t s free free' found =
      ground (arith, mac_matches-signed before after free free')

  -- A callback changes the application's state only where its signature is right, and then by the
  -- TradeNo of one ticket: no status, amount, owner or date is written, whatever RtnCode says.
  pub handle_ecpay_callback_effect :
      (body : Params) (s : State)
      → (handle_ecpay_callback w cfg body s).1 ≢ s
      → (t : Ticket) × (trade : String) × (mac_matches w cfg body ≡ true)
        × (find_by (has_trade_no w cfg (lookup "MerchantTradeNo" body)) s.tickets ≡ some t)
        × (lookup "TradeNo" body ≡ some trade)
        × ((handle_ecpay_callback w cfg body s).1
            ≡ save_ticket (record t { ecpay_trade_no = some trade }) s)
  unfolding handle_ecpay_callback ◌>>=◌
  handle_ecpay_callback_effect body s changed = elim (Bool-cases (mac_matches w cfg body)) [
    | inr forged ↦ absurd (changed (ground arith))
    | inl right ↦
        elim (Option-cases
          (find_by (has_trade_no w cfg (lookup "MerchantTradeNo" body)) s.tickets)) [
            | inl missing ↦ absurd (changed (ground arith))
            | inr (t, found) ↦ elim (Option-cases (lookup "TradeNo" body)) [
              | inl unset ↦ absurd (changed (ground arith))
              | inr (trade, given) ↦ elim (Bool-cases (trade == "")) [
                | inl empty ↦ absurd (changed (ground arith))
                | inr filled ↦ (t, trade, right, found, given, ground arith)
              ]
            ]
          ]
  ]
