-- ===== src/Seats/Sums.antt =====
-- seat-allocation/seat-allocation.service.ts, getSeatMap: laws of its `reduce` sums.
use blocktic_backend.Base.{
  ℕ, ◌+◌, ◌≡◌, refl, ◌∙◌, Bool, List, [], ◌∷◌, ◌++◌, map, tally, All, arith, string_eq, nat_eq,
  if◌then◌else◌,
}
use blocktic_backend.Entities.{Seat}
use blocktic_backend.Seats.Map.{sum_by}

module _ {A : Type 0} (f : A → ℕ) where
  pub sum_by-add : (n : ℕ) (xs : List A) → sum_by f n xs ≡ n + sum_by f 0 xs
  sum_by-add n [] = omega arith
  sum_by-add n (x ∷ xs) = omega (arith, sum_by-add (n + f x) xs, sum_by-add (0 + f x) xs)

  pub sum_by-cons : (x : A) (xs : List A) → sum_by f 0 (x ∷ xs) ≡ f x + sum_by f 0 xs
  sum_by-cons x xs = omega (arith, sum_by-add (0 + f x) xs)

  pub sum_by-append : (xs : List A) (x : A) → sum_by f 0 (xs ++ x ∷ []) ≡ sum_by f 0 xs + f x
  sum_by-append [] x = omega arith
  sum_by-append (y ∷ xs) x =
      sum_by-cons y (xs ++ x ∷ []) ∙ omega (arith, sum_by-append xs x, sum_by-cons y xs)

  pub sum_by-map :
      {B : Type 0} (h : B → A) (n : ℕ) (ys : List B)
      → sum_by f n (map h ys) ≡ sum_by (λ y. f (h y)) n ys
  sum_by-map h n [] = refl
  sum_by-map h n (y ∷ ys) = sum_by-map h (n + f (h y)) ys

pub sum_by-plus :
    {A : Type 0} (f g : A → ℕ) (xs : List A)
    → sum_by (λ x. f x + g x) 0 xs ≡ sum_by f 0 xs + sum_by g 0 xs
sum_by-plus f g [] = omega arith
sum_by-plus f g (x ∷ xs) = omega (
  arith,
  sum_by-cons (λ x. f x + g x) x xs,
  sum_by-cons f x xs,
  sum_by-cons g x xs,
  sum_by-plus f g xs,
)

pub sum_by-test :
    {A : Type 0} (p : A → Bool) (xs : List A) → sum_by (λ x. if p x then 1 else 0) 0 xs ≡ tally p xs
sum_by-test p [] = refl
sum_by-test p (x ∷ xs) =
    sum_by-cons (λ x. if p x then 1 else 0) x xs ∙ omega (arith, sum_by-test p xs)

pub sum_by-zero : {A : Type 0} (xs : List A) → sum_by (λ (x : A). 0) 0 xs ≡ 0
sum_by-zero [] = refl
sum_by-zero (x ∷ xs) = sum_by-cons (λ y. 0) x xs ∙ omega (arith, sum_by-zero xs)

-- Counting by parts: each seat is counted in one part, if it passes the test.
pub sum_by-parts :
    {K : Type 0} (p : K → Seat → Bool) (q : Seat → Bool) (keys : List K) (seats : List Seat)
    → All (λ s. tally (λ k. p k s) keys ≡ (if q s then 1 else 0)) seats
    → sum_by (λ k. tally (p k) seats) 0 keys ≡ tally q seats
sum_by-parts p q keys [] h = sum_by-zero keys
sum_by-parts p q keys (s ∷ seats) (one, h) =
    sum_by-plus (λ k. if p k s then 1 else 0) (λ k. tally (p k) seats) keys
    ∙ omega (arith, sum_by-test (λ k. p k s) keys, sum_by-parts p q keys seats h)
