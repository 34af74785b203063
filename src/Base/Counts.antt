-- ===== src/Base/Counts.antt =====
-- Counting the members of a list that pass a test, through the functions on lists.
use Prim.Native.Nat.{◌+◌, ◌≤◌}
use mathlib.Core.Path.{◌≡◌, refl}
use mathlib.Core.Logic.{inl, inr}
use mathlib.Core.Bool.{Bool, true, false, ◌&&◌}
use mathlib.Core.List.{List, [], ◌∷◌, map}
use native.Mathlib.Omega.{arith}
use blocktic_backend.Base.Tests.{if◌then◌else◌, Bool-cases}
use blocktic_backend.Base.Lists.{length, keep, tally, All}
use blocktic_backend.Base.Sorting.{sort, insert_sorted}

module _ {A : Type 0} where
  pub tally-keep : (p q : A → Bool) (xs : List A) → tally (λ x. p x && q x) xs ≡ tally q (keep p xs)
  tally-keep p q [] = refl
  tally-keep p q (x ∷ xs) = ground (arith, tally-keep p q xs)

  pub tally-keep_le : (p q : A → Bool) (xs : List A) → tally q (keep p xs) ≤ tally q xs
  tally-keep_le p q [] = omega arith
  tally-keep_le p q (x ∷ xs) = ground (arith, tally-keep_le p q xs)

  -- What passes the test is counted in one of two parts that have nothing in common.
  pub tally-apart :
      (p q r : A → Bool) (xs : List A)
      → ((x : A) → p x ≡ true → q x ≡ false)
      → tally r (keep p xs) + tally r (keep q xs) ≤ tally r xs
  tally-apart p q r [] apart = omega arith
  tally-apart p q r (x ∷ xs) apart = ground (arith, tally-apart p q r xs apart, apart x)

  pub tally-map :
      (f : A → A) (p : A → Bool) (xs : List A) → tally p (map f xs) ≡ tally (λ x. p (f x)) xs
  tally-map f p [] = refl
  tally-map f p (x ∷ xs) = ground (arith, tally-map f p xs)

  pub tally-All : (p q : A → Bool) (xs : List A) → All (λ x. p x ≡ q x) xs → tally p xs ≡ tally q xs
  tally-All p q [] same = refl
  tally-All p q (x ∷ xs) (same, rest) = ground (arith, tally-All p q xs rest)

  pub tally_zero : (p : A → Bool) (xs : List A) → tally p xs ≡ 0 → All (λ x. p x ≡ false) xs
  tally_zero p [] h = tt
  tally_zero p (x ∷ xs) h = (ground arith, tally_zero p xs (ground arith))

  pub All-map {ℓ κ} :
      (P : A → Type ℓ) (Q : A → Type κ) (xs : List A) → ((x : A) → P x → Q x) → All P xs → All Q xs
  All-map P Q [] f h = tt
  All-map P Q (x ∷ xs) f h = (f x h.0, All-map P Q xs f h.1)

  pub All-keep-All {ℓ} :
      (P : A → Type ℓ) (p : A → Bool) (xs : List A) → All P xs → All P (keep p xs)
  All-keep-All P p [] h = tt
  All-keep-All P p (x ∷ xs) h = elim (Bool-cases (p x)) [
    | inl hit ↦ rw hit (h.0, All-keep-All P p xs h.1)
    | inr miss ↦ rw miss (All-keep-All P p xs h.1)
  ]

  pub All-and {ℓ κ} :
      (P : A → Type ℓ) (Q : A → Type κ) (xs : List A)
      → All P xs
      → All Q xs
      → All (λ x. P x × Q x) xs
  All-and P Q [] h k = tt
  All-and P Q (x ∷ xs) h k = ((h.0, k.0), All-and P Q xs h.1 k.1)

  pub All-image {ℓ κ} :
      {B : Type 0} (P : A → Type ℓ) (Q : B → Type κ) (f : A → B) (xs : List A)
      → ((x : A) → P x → Q (f x))
      → All P xs
      → All Q (map f xs)
  All-image P Q f [] g h = tt
  All-image P Q f (x ∷ xs) g h = (g x h.0, All-image P Q f xs g h.1)

  module _ (le : A → A → Bool) where
    tally-insert_sorted :
        (p : A → Bool) (a : A) (xs : List A)
        → tally p (insert_sorted le a xs) ≡ (if p a then 1 else 0) + tally p xs
    unfolding insert_sorted
    tally-insert_sorted p a [] = refl
    tally-insert_sorted p a (x ∷ xs) = ground (arith, tally-insert_sorted p a xs)

    pub tally-sort : (p : A → Bool) (xs : List A) → tally p (sort le xs) ≡ tally p xs
    unfolding sort
    tally-sort p [] = refl
    tally-sort p (x ∷ xs) = ground (arith, tally-insert_sorted p x (sort le xs), tally-sort p xs)

    length-insert_sorted : (a : A) (xs : List A) → length (insert_sorted le a xs) ≡ 1 + length xs
    unfolding insert_sorted
    length-insert_sorted a [] = omega arith
    length-insert_sorted a (x ∷ xs) = ground (arith, length-insert_sorted a xs)

    pub length-sort : (xs : List A) → length (sort le xs) ≡ length xs
    unfolding sort
    length-sort [] = refl
    length-sort (x ∷ xs) = omega (arith, length-insert_sorted x (sort le xs), length-sort xs)

    All-insert_sorted :
        (P : A → Type 0) (a : A) (xs : List A) → P a → All P xs → All P (insert_sorted le a xs)
    unfolding insert_sorted
    All-insert_sorted P a [] h hs = (h, tt)
    All-insert_sorted P a (x ∷ xs) h hs = elim (Bool-cases (le a x)) [
      | inl first ↦ rw first (h, hs)
      | inr later ↦ rw later (hs.0, All-insert_sorted P a xs h hs.1)
    ]

    pub All-sort : (P : A → Type 0) (xs : List A) → All P xs → All P (sort le xs)
    unfolding sort
    All-sort P [] h = tt
    All-sort P (x ∷ xs) h = All-insert_sorted P x (sort le xs) h.0 (All-sort P xs h.1)
