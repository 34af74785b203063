-- ===== src/Base/Pages.antt =====
-- `findAndCount({ skip: (page - 1) * limit, take: limit })` of an ordered query.
use Prim.Native.Nat.{ℕ, ◌-◌, ◌*◌}
use mathlib.Core.List.{List}
use blocktic_backend.Base.Lists.{take, drop, length}

pub record Page (A : Type 0) : Type 0 where
  pub items : List A
  pub total : ℕ

abbrev pub page_of : {A : Type 0} → (page limit : ℕ) → List A → List A
page_of page limit rows = take limit (drop ((page - 1) * limit) rows)

abbrev pub paged : {A : Type 0} → (page limit : ℕ) → List A → Page A
paged page limit rows = record { items = page_of page limit rows; total = length rows }
