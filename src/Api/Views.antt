-- ===== src/Api/Views.antt =====
-- Views of the database, and the tables that they do not read.
use blocktic_backend.Base.{◌≡◌, refl, arith, Bool, true, false, ◌||◌, List, [], ◌∷◌}
use blocktic_backend.State.{Db}
use blocktic_backend.Lottery.Unique.{indexes}
use blocktic_backend.Api.Effects.{
  Table, users_table, seats_table, entries_table, draws_table, tickets_table, notices_table,
  IgnoresTable, Untouched,
}

abbrev pub is_tickets : Table → Bool
is_tickets tickets_table = true
is_tickets _ = false

abbrev pub some_table : (Table → Bool) → List Table → Bool
some_table p [] = false
some_table p (t ∷ rest) = p t || some_table p rest

IgnoresTable-tickets : (t : Table) → is_tickets t ≡ false → IgnoresTable Db.tickets t
IgnoresTable-tickets tickets_table h = ground arith
IgnoresTable-tickets _ h = λ rows s. refl

pub Untouched-tickets :
    (ts : List Table) → some_table is_tickets ts ≡ false → Untouched Db.tickets ts
Untouched-tickets [] h = tt
Untouched-tickets (t ∷ rest) h =
    (IgnoresTable-tickets t (ground arith), Untouched-tickets rest (ground arith))

abbrev pub is_users : Table → Bool
is_users users_table = true
is_users _ = false

IgnoresTable-users : (t : Table) → is_users t ≡ false → IgnoresTable Db.users t
IgnoresTable-users users_table h = ground arith
IgnoresTable-users _ h = λ rows s. refl

pub Untouched-users : (ts : List Table) → some_table is_users ts ≡ false → Untouched Db.users ts
Untouched-users [] h = tt
Untouched-users (t ∷ rest) h =
    (IgnoresTable-users t (ground arith), Untouched-users rest (ground arith))

abbrev pub is_indexed : Table → Bool
is_indexed entries_table = true
is_indexed draws_table = true
is_indexed _ = false

IgnoresTable-indexes : (t : Table) → is_indexed t ≡ false → IgnoresTable indexes t
IgnoresTable-indexes entries_table h = ground arith
IgnoresTable-indexes draws_table h = ground arith
IgnoresTable-indexes _ h = λ rows s. refl

pub Untouched-indexes : (ts : List Table) → some_table is_indexed ts ≡ false → Untouched indexes ts
Untouched-indexes [] h = tt
Untouched-indexes (t ∷ rest) h =
    (IgnoresTable-indexes t (ground arith), Untouched-indexes rest (ground arith))

abbrev pub is_seats : Table → Bool
is_seats seats_table = true
is_seats _ = false

IgnoresTable-seats : (t : Table) → is_seats t ≡ false → IgnoresTable Db.seats t
IgnoresTable-seats seats_table h = ground arith
IgnoresTable-seats _ h = λ rows s. refl

pub Untouched-seats : (ts : List Table) → some_table is_seats ts ≡ false → Untouched Db.seats ts
Untouched-seats [] h = tt
Untouched-seats (t ∷ rest) h =
    (IgnoresTable-seats t (ground arith), Untouched-seats rest (ground arith))

abbrev pub is_draws : Table → Bool
is_draws draws_table = true
is_draws _ = false

IgnoresTable-draws : (t : Table) → is_draws t ≡ false → IgnoresTable Db.draw_results t
IgnoresTable-draws draws_table h = ground arith
IgnoresTable-draws _ h = λ rows s. refl

pub Untouched-draws :
    (ts : List Table) → some_table is_draws ts ≡ false → Untouched Db.draw_results ts
Untouched-draws [] h = tt
Untouched-draws (t ∷ rest) h =
    (IgnoresTable-draws t (ground arith), Untouched-draws rest (ground arith))

abbrev pub is_notices : Table → Bool
is_notices notices_table = true
is_notices _ = false

IgnoresTable-notices : (t : Table) → is_notices t ≡ false → IgnoresTable Db.notifications t
IgnoresTable-notices notices_table h = ground arith
IgnoresTable-notices _ h = λ rows s. refl

pub Untouched-notices :
    (ts : List Table) → some_table is_notices ts ≡ false → Untouched Db.notifications ts
Untouched-notices [] h = tt
Untouched-notices (t ∷ rest) h =
    (IgnoresTable-notices t (ground arith), Untouched-notices rest (ground arith))
