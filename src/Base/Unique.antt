-- ===== src/Base/Unique.antt =====
-- Lists in which no two members are the same by a test, as a unique index asks of a table's rows.
use mathlib.Core.Path.{◌≡◌, refl}
use mathlib.Core.Logic.{inl, inr}
use mathlib.Core.Bool.{Bool, false}
use mathlib.Core.Option.{none}
use mathlib.Core.List.{List, [], ◌∷◌, ◌++◌}
use native.Mathlib.Omega.{arith}
use blocktic_backend.Base.Tests.{Bool-cases}
use blocktic_backend.Base.Lists.{find_by, update_where}

module _ {A : Type 0} (same : A → A → Bool) where
  abbrev pub Apart : List A → Type 0
  Apart [] = Unit
  Apart (x ∷ xs) = (find_by (same x) xs ≡ none) × Apart xs

  find_by-append_none :
      (x a : A) (xs : List A)
      → find_by (same x) xs ≡ none
      → same x a ≡ false
      → find_by (same x) (xs ++ a ∷ []) ≡ none
  find_by-append_none x a [] h k = rw k refl
  find_by-append_none x a (y ∷ xs) h k = ground (arith, find_by-append_none x a xs)

  pub append-Apart :
      ((x y : A) → same x y ≡ same y x)
      → (a : A) (xs : List A) → find_by (same a) xs ≡ none
      → Apart xs
      → Apart (xs ++ a ∷ [])
  append-Apart symmetric a [] h d = (refl, tt)
  append-Apart symmetric a (x ∷ xs) h d = elim (Bool-cases (same a x)) [
    | inl hit ↦ absurd (ground arith)
    | inr miss ↦ (
      find_by-append_none x a xs d.0 (rw (symmetric x a) miss),
      append-Apart symmetric a xs (ground arith) d.1,
    )
  ]

  -- An update that the test does not see.
  module _ (p : A → Bool) (f : A → A) (left : (x y : A) → same (f x) y ≡ same x y)
      (right : (x y : A) → same x (f y) ≡ same x y) where
    find_by-update_none :
        (x : A) (xs : List A)
        → find_by (same x) xs ≡ none
        → find_by (same x) (update_where p f xs) ≡ none
    find_by-update_none x [] h = refl
    find_by-update_none x (y ∷ xs) h = ground (arith, find_by-update_none x xs, right x y)

    pub update_where-Apart : (xs : List A) → Apart xs → Apart (update_where p f xs)
    update_where-Apart [] d = tt
    update_where-Apart (x ∷ xs) d = (
      elim (Bool-cases (p x)) [
        | inl hit ↦ rw hit (find_by-update_none (f x) xs (seen x xs d.0))
        | inr miss ↦ rw miss (find_by-update_none x xs d.0)
      ],
      update_where-Apart xs d.1,
    )
      where
        seen : (x : A) (xs : List A) → find_by (same x) xs ≡ none → find_by (same (f x)) xs ≡ none
        seen x [] h = refl
        seen x (y ∷ xs) h = ground (arith, seen x xs, left x y)
