-- ===== src/Ecpay/Tests.antt =====
-- The CheckMacValue at concrete inputs, with the keys in the order of their code points.
use Prim.Native.Char.{code}
use blocktic_backend.Base.{
  String, ◌≡◌, ◌≢◌, refl, Bool, true, false, [], ◌∷◌, arith, inl, inr, ◌⊎◌, if◌then◌else◌, ltb,
  ◌==◌, nat_eq,
}
use blocktic_backend.State.{World}
use blocktic_backend.Ecpay.{generate_check_mac_value}
use blocktic_backend.Ecpay.Signing.{IsTotalPreorder, swap, generate_check_mac_value-Reordered}
use blocktic_backend.Samples.{world}

unfoldable text_le : String → String → Bool
text_le String.[] t = true
text_le (String.◌∷◌ c s) String.[] = false
text_le (String.◌∷◌ c s) (String.◌∷◌ d t) =
    let rest = text_le s t in
    if ltb (code c) (code d) then true else if code c == code d then rest else false

text_le_total : (a b : String) → (text_le a b ≡ true) ⊎ (text_le b a ≡ true)
unfolding text_le
text_le_total String.[] b = inl refl
text_le_total (String.◌∷◌ c s) String.[] = inr refl
text_le_total (String.◌∷◌ c s) (String.◌∷◌ d t) = ground (arith, text_le_total s t)

text_le_trans : (a b c : String) → text_le a b ≡ true → text_le b c ≡ true → text_le a c ≡ true
unfolding text_le
text_le_trans String.[] b c h k = refl
text_le_trans (String.◌∷◌ x a) String.[] c h k = ground arith
text_le_trans (String.◌∷◌ x a) (String.◌∷◌ y b) String.[] h k = ground arith
text_le_trans (String.◌∷◌ x a) (String.◌∷◌ y b) (String.◌∷◌ z c) h k =
    ground (arith, text_le_trans a b c)

abbrev sorting_world : World
sorting_world = record world { key_le = text_le }

text_le-IsTotalPreorder : IsTotalPreorder text_le
text_le-IsTotalPreorder = record { total = text_le_total; trans = text_le_trans }

false≢true : false ≢ true
false≢true e = cc

apart : ¬ ((text_le "TradeNo" "Action" ≡ true) × (text_le "Action" "TradeNo" ≡ true))
unfolding text_le
apart (h, k) = false≢true h

-- The parameters of one order, in two orders.
generate_check_mac_value-Reordered_example :
    generate_check_mac_value sorting_world (("TradeNo", "7") ∷ ("Action", "C") ∷ []) "key" "iv"
    ≡ generate_check_mac_value sorting_world (("Action", "C") ∷ ("TradeNo", "7") ∷ []) "key" "iv"
generate_check_mac_value-Reordered_example =
    generate_check_mac_value-Reordered sorting_world text_le-IsTotalPreorder
      (("TradeNo", "7") ∷ ("Action", "C") ∷ []) (("Action", "C") ∷ ("TradeNo", "7") ∷ []) "key" "iv"
      (swap ("TradeNo", "7") ("Action", "C") [] apart)
