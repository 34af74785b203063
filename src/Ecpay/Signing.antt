-- ===== src/Ecpay/Signing.antt =====
-- ticketing/ecpay.util.ts, generateCheckMacValue, and the order of the parameters.
use blocktic_backend.Base.{
  String, ◌≡◌, ◌≢◌, refl, sym, ap, ◌∙◌, Bool, true, false, [], ◌∷◌, arith, Bool-cases, inl, inr,
  ◌⊎◌,
}
use blocktic_backend.Base.Sorting.{sort, insert_sorted}
use blocktic_backend.State.{World}
use blocktic_backend.Ecpay.{Params, param_le, generate_check_mac_value}

-- The comparison of the lower-cased keys is a total preorder.
pub record IsTotalPreorder (le : String → String → Bool) : Type 0 where
  pub total : (a b : String) → (le a b ≡ true) ⊎ (le b a ≡ true)
  pub trans : (a b c : String) → le a b ≡ true → le b c ≡ true → le a c ≡ true

-- The same parameters in another order, where no two keys that compare alike change places: keys
-- that differ by case only compare alike.
pub data Reordered (le : String → String → Bool) : Params → Params → Type 0 where
  same : (ps : Params) → Reordered le ps ps
  under :
      (p : String × String) {ps qs : Params} → Reordered le ps qs → Reordered le (p ∷ ps) (p ∷ qs)
  swap :
      (p q : String × String) (ps : Params)
      → ¬ ((le p.0 q.0 ≡ true) × (le q.0 p.0 ≡ true))
      → Reordered le (p ∷ q ∷ ps) (q ∷ p ∷ ps)
  next : {ps qs rs : Params} → Reordered le ps qs → Reordered le qs rs → Reordered le ps rs

module _ (w : World) (ordered : IsTotalPreorder w.key_le) where
  insert_before :
      (p q : String × String) (ps : Params)
      → w.key_le p.0 q.0 ≡ true
      → w.key_le q.0 p.0 ≡ false
      → insert_sorted (param_le w) p (insert_sorted (param_le w) q ps)
        ≡ insert_sorted (param_le w) q (insert_sorted (param_le w) p ps)
  unfolding insert_sorted
  insert_before p q [] h k = ground arith
  insert_before p q (r ∷ ps) h k =
      ground (arith, insert_before p q ps h k, ordered.trans p.0 q.0 r.0 h)

  insert_swap :
      (p q : String × String) (ps : Params)
      → ¬ ((w.key_le p.0 q.0 ≡ true) × (w.key_le q.0 p.0 ≡ true))
      → insert_sorted (param_le w) p (insert_sorted (param_le w) q ps)
        ≡ insert_sorted (param_le w) q (insert_sorted (param_le w) p ps)
  insert_swap p q ps differ = elim (Bool-cases (w.key_le p.0 q.0)) [
    | inl le ↦ elim (Bool-cases (w.key_le q.0 p.0)) [
      | inl ge ↦ absurd (differ (le, ge))
      | inr gt ↦ insert_before p q ps le gt
    ]
    | inr gt ↦ elim (ordered.total p.0 q.0) [
      | inl le ↦ absurd (true_false (sym le ∙ gt))
      | inr ge ↦ sym (insert_before q p ps ge gt)
    ]
  ]
    where
      true_false : true ≢ false
      true_false e = cc

  sort-Reordered :
      (ps qs : Params) → Reordered w.key_le ps qs → sort (param_le w) ps ≡ sort (param_le w) qs
  unfolding sort
  sort-Reordered _ _ (same ps) = refl
  sort-Reordered _ _ (under p {ps} {qs} r) =
      ap (insert_sorted (param_le w) p) (sort-Reordered ps qs r)
  sort-Reordered _ _ (swap p q ps differ) = insert_swap p q (sort (param_le w) ps) differ
  sort-Reordered _ _ (next {ps} {qs} {rs} r r') = sort-Reordered ps qs r ∙ sort-Reordered qs rs r'

  -- Where the comparison of lower-cased keys is total and transitive: the CheckMacValue is the same
  -- in whatever order the parameters are given, as long as keys that compare alike keep theirs.
  pub generate_check_mac_value-Reordered :
      (ps qs : Params) (hash_key hash_iv : String)
      → Reordered w.key_le ps qs
      → generate_check_mac_value w ps hash_key hash_iv
        ≡ generate_check_mac_value w qs hash_key hash_iv
  unfolding generate_check_mac_value
  generate_check_mac_value-Reordered ps qs hash_key hash_iv r = rw (sort-Reordered ps qs r) refl
