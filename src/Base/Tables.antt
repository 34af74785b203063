-- ===== src/Base/Tables.antt =====
-- A table of the database: its rows, with the primary key that `key` reads.
use Prim.Native.String.{String}
use mathlib.Core.Path.{◌≡◌, refl, sym, ◌∙◌}
use mathlib.Core.Bool.{Bool, true, false, not}
use mathlib.Core.Option.{Option, none, some}
use mathlib.Core.List.{List, [], ◌∷◌, map, ◌++◌}
use native.Mathlib.Omega.{arith}
use text.Mathlib.TextEquality.{eq_iff}
use text.Mathlib.TextPositions.{eq_refl}
use mathlib.Core.Logic.{inl, inr}
use blocktic_backend.Base.Tests.{◌==◌, string_eq, if◌then◌else◌, Bool-cases}
use blocktic_backend.Base.Lists.{find_by, keep, update_where, some≢none, All}

All-weaken :
    {A : Type 0} {P Q : A → Type 0} (xs : List A) → ((a : A) → P a → Q a) → All P xs → All Q xs
All-weaken [] f h = tt
All-weaken (x ∷ xs) f h = (f x h.0, All-weaken xs f h.1)

module _ {A : Type 0} (key : A → String) where
  -- `findOne({ where: { id } })`
  abbrev pub find_id : String → List A → Option A
  find_id k rows = find_by (λ a. key a == k) rows

  -- `save(a)`: an update of the row with its key, an insertion where there is none.
  abbrev pub save : A → List A → List A
  save a [] = a ∷ []
  save a (b ∷ rows) = if key b == key a then a ∷ rows else b ∷ save a rows

  -- `remove(a)`
  abbrev pub remove_id : String → List A → List A
  remove_id k rows = keep (λ a. not (key a == k)) rows

  pub find_id-save :
      (k : String) (a : A) (rows : List A)
      → find_id k (save a rows) ≡ (if key a == k then some a else find_id k rows)
  find_id-save k a [] = refl
  find_id-save k a (b ∷ rows) =
      ground
        (arith, find_id-save k a rows, eq_iff (key b) (key a), eq_iff (key a) k, eq_iff (key b) k)

  pub key-find_id : (k : String) (rows : List A) (a : A) → find_id k rows ≡ some a → key a ≡ k
  key-find_id k [] a e = ground arith
  key-find_id k (b ∷ rows) a e = ground (arith, key-find_id k rows a, eq_iff (key b) k)

  pub find_id-remove_id : (k : String) (rows : List A) → find_id k (remove_id k rows) ≡ none
  find_id-remove_id k [] = refl
  find_id-remove_id k (b ∷ rows) = ground (arith, find_id-remove_id k rows)

  -- The primary keys of the table are unique.
  abbrev pub Distinct : List A → Type 0
  Distinct [] = Unit
  Distinct (b ∷ rows) = (find_id (key b) rows ≡ none) × Distinct rows

  pub find_id-find_by :
      (p : A → Bool) (rows : List A) (a : A)
      → Distinct rows
      → find_by p rows ≡ some a
      → find_id (key a) rows ≡ some a
  find_id-find_by p [] a d e = ground arith
  find_id-find_by p (b ∷ rows) a d e = elim (Bool-cases (p b)) [
    | inl hit ↦ ground (arith, eq_refl (key b))
    | inr miss ↦
        let later = find_id-find_by p rows a d.1 (rw (miss, find_by) at e) in
        elim (Bool-cases (key b == key a)) [
          | inl same ↦ absurd (some≢none (sym later ∙ rw (← (eq_iff (key b) (key a)).0 same) d.0))
          | inr other ↦ rw other later
        ]
  ]

  -- Each row is the one that its key finds.
  pub Distinct-All : (rows : List A) → Distinct rows → All (λ a. find_id (key a) rows ≡ some a) rows
  Distinct-All [] d = tt
  Distinct-All (b ∷ rows) d =
      (rw (eq_refl (key b)) refl, All-weaken rows (λ a h. past a h) (Distinct-All rows d.1))
    where
      past : (a : A) → find_id (key a) rows ≡ some a → find_id (key a) (b ∷ rows) ≡ some a
      past a h = elim (Bool-cases (key b == key a)) [
        | inl same ↦ absurd (some≢none (sym h ∙ rw (← (eq_iff (key b) (key a)).0 same) d.0))
        | inr other ↦ rw other h
      ]

  pub save-Distinct : (a : A) (rows : List A) → Distinct rows → Distinct (save a rows)
  save-Distinct a [] d = (refl, tt)
  save-Distinct a (b ∷ rows) d = elim (Bool-cases (key b == key a)) [
    | inl same ↦ rw same (rw (← (eq_iff (key b) (key a)).0 same) d.0, d.1)
    | inr other ↦ rw other (
      ground (arith, find_id-save (key b) a rows, eq_iff (key b) (key a), eq_iff (key a) (key b)),
      save-Distinct a rows d.1,
    )
  ]

  pub find_id-new :
      (k : String) (rows : List A)
      → find_by (λ id. id == k) (map key rows) ≡ none
      → find_id k rows ≡ none
  find_id-new k [] e = refl
  find_id-new k (b ∷ rows) e = ground (arith, find_id-new k rows)

  -- A saved row that passes a test which none of the rows has passed.
  pub find_by-save :
      (p : A → Bool) (a : A) (rows : List A)
      → find_by p rows ≡ none
      → p a ≡ true
      → find_by p (save a rows) ≡ some a
  find_by-save p a [] new holds = rw holds refl
  find_by-save p a (b ∷ rows) new holds = elim (Bool-cases (key b == key a)) [
    | inl same ↦ rw (same, holds) refl
    | inr other ↦
        let (fails, later) = passed_by p b rows new in
        rw (other, fails) (find_by-save p a rows later holds)
  ]
    where
      passed_by :
          (p : A → Bool) (b : A) (rows : List A)
          → find_by p (b ∷ rows) ≡ none
          → (p b ≡ false) × (find_by p rows ≡ none)
      passed_by p b rows h = (ground arith, ground arith)

  pub find_id-append :
      (k : String) (rows more : List A) (a : A)
      → find_id k rows ≡ some a
      → find_id k (rows ++ more) ≡ some a
  find_id-append k [] more a h = ground arith
  find_id-append k (b ∷ rows) more a h = ground (arith, find_id-append k rows more a)

  find_id-append_other :
      (k : String) (rows : List A) (a : A)
      → (key a == k) ≡ false
      → find_id k rows ≡ none
      → find_id k (rows ++ a ∷ []) ≡ none
  find_id-append_other k [] a other h = rw other refl
  find_id-append_other k (b ∷ rows) a other h = ground (arith, find_id-append_other k rows a other)

  -- Appending a row with a new key.
  pub append-Distinct :
      (a : A) (rows : List A)
      → find_id (key a) rows ≡ none
      → Distinct rows
      → Distinct (rows ++ a ∷ [])
  append-Distinct a [] new d = (refl, tt)
  append-Distinct a (b ∷ rows) new d =
      let other : (key a == key b) ≡ false =
        ground (arith, eq_iff (key a) (key b), eq_iff (key b) (key a)) in
      (find_id-append_other (key b) rows a other d.0, append-Distinct a rows (ground arith) d.1)

  -- An update that leaves the keys alone.
  module _ (p : A → Bool) (f : A → A) (same : (a : A) → key (f a) ≡ key a) where
    abbrev pub updated : Option A → Option A
    updated none = none
    updated (some a) = some (if p a then f a else a)

    pub find_id-update_where :
        (k : String) (rows : List A) → find_id k (update_where p f rows) ≡ updated (find_id k rows)
    find_id-update_where k [] = refl
    find_id-update_where k (b ∷ rows) = elim (Bool-cases (p b)) [
      | inl hit ↦ elim (Bool-cases (key b == k)) [
        | inl here ↦ rw (hit, same b, here, hit) refl
        | inr past ↦ rw (hit, same b, past) (find_id-update_where k rows)
      ]
      | inr miss ↦ elim (Bool-cases (key b == k)) [
        | inl here ↦ rw (miss, here, miss) refl
        | inr past ↦ rw (miss, past) (find_id-update_where k rows)
      ]
    ]

    pub update_where-Distinct : (rows : List A) → Distinct rows → Distinct (update_where p f rows)
    update_where-Distinct [] d = tt
    update_where-Distinct (b ∷ rows) d =
        (rw (kept b, find_id-update_where (key b) rows, d.0) refl, update_where-Distinct rows d.1)
      where
        kept : (a : A) → key (if p a then f a else a) ≡ key a
        kept a = elim (Bool-cases (p a)) [ inl hit ↦ rw hit (same a) | inr miss ↦ rw miss refl ]
