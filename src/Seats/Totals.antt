-- ===== src/Seats/Totals.antt =====
-- seat-allocation/seat-allocation.service.ts, getSeatMap: its totals.
use blocktic_backend.Base.{
  ℕ, ◌+◌, ◌≤◌, String, ◌≡◌, ◌≢◌, refl, sym, ap, ◌∙◌, Bool, true, false, ◌&&◌, none, some, List, [],
  ◌∷◌, ◌++◌, keep, tally, length, All, lookup, insert, get_or, find_by, Bool-cases, Option-cases,
  inl, inr, arith, ◌==◌, string_eq, nat_eq, eq_iff, eq_refl, if◌then◌else◌,
}
use blocktic_backend.Base.Counts.{tally-sort, tally-All, All-map}
use blocktic_backend.Base.Sorting.{sort}
use blocktic_backend.Exec.{Fault, ok, err, ◌>>=◌}
use blocktic_backend.Entities.{Seat}
use blocktic_backend.State.{State}
use blocktic_backend.Seats.Map.{
  RowCount, RowSummary, ZoneSummary, SeatMapResponse, of_event, in_row, is_free, add_row, rows_of,
  count_row, Zones, summary, push_row, group_rows, sum_by, zone_summary, seat_map, queried,
  get_seat_map,
}
use blocktic_backend.Seats.Sums.{sum_by-cons, sum_by-append, sum_by-map, sum_by-parts}

-- The sum over the zones of the sums over their rows.
abbrev total : (RowSummary → ℕ) → Zones → ℕ
total g zones = sum_by (λ z. sum_by g 0 z.1) 0 zones

total-insert :
    (g : RowSummary → ℕ) (key : String) (x : RowSummary) (zones : Zones)
    → total g (insert key (get_or (lookup key zones) [] ++ x ∷ []) zones) ≡ total g zones + g x
total-insert g key x [] = omega arith
total-insert g key x (z ∷ zones) = elim (Bool-cases (z.0 == key)) [
  | inl hit ↦ rw hit (
      sum_by-cons (λ z. sum_by g 0 z.1) (z.0, z.1 ++ x ∷ []) zones
      ∙ omega (arith, sum_by-append g z.1 x, sum_by-cons (λ z. sum_by g 0 z.1) z zones))
  | inr miss ↦
      let before : get_or (lookup key (z ∷ zones)) [] ≡ get_or (lookup key zones) [] =
        rw miss refl in
      ap (λ l. total g (insert key (l ++ x ∷ []) (z ∷ zones))) before
      ∙ rw miss (
          sum_by-cons (λ z. sum_by g 0 z.1) z
            (insert key (get_or (lookup key zones) [] ++ x ∷ []) zones)
          ∙ omega (arith, total-insert g key x zones, sum_by-cons (λ z. sum_by g 0 z.1) z zones))
]

total-group_rows :
    (g : RowSummary → ℕ) (zones : Zones) (rows : List RowCount)
    → total g (group_rows zones rows) ≡ total g zones + sum_by (λ r. g (summary r)) 0 rows
total-group_rows g zones [] = omega arith
total-group_rows g zones (r ∷ rows) =
    total-group_rows g (push_row zones r) rows
    ∙ omega
        (arith, total-insert g r.zone_id (summary r) zones, sum_by-cons (λ r. g (summary r)) r rows)

-- The pairs of the query: each seat has exactly one.
find_by-none :
    (s : Seat) (keys : List (String × String))
    → find_by (λ k. in_row k s) keys ≡ none
    → tally (λ k. in_row k s) keys ≡ 0
find_by-none s [] h = refl
find_by-none s (k ∷ keys) h = ground (arith, find_by-none s keys)

find_by-some :
    (s : Seat) (keys : List (String × String)) (k : String × String)
    → find_by (λ k. in_row k s) keys ≡ some k
    → 1 ≤ tally (λ k. in_row k s) keys
find_by-some s [] k h = ground arith
find_by-some s (j ∷ keys) k h = ground (arith, find_by-some s keys k)

same_row :
    (s t : Seat) (k : String × String)
    → in_row (t.zone_id, t.row) s ≡ true
    → in_row k s ≡ in_row k t
same_row s t k h =
    let zone : t.zone_id ≡ s.zone_id = ground (arith, eq_iff s.zone_id t.zone_id) in
    let row : t.row ≡ s.row = ground (arith, eq_iff s.row t.row) in rw (zone, row) refl

own_row : (s : Seat) → in_row (s.zone_id, s.row) s ≡ true
own_row s = ground (arith, eq_refl s.zone_id, eq_refl s.row)

rows_of-once : (s : Seat) (seats : List Seat) → tally (λ k. in_row k s) (rows_of seats) ≤ 1
rows_of-once s [] = omega arith
rows_of-once s (t ∷ seats) = elim (Option-cases (find_by (λ k. in_row k t) (rows_of seats))) [
  | inr (k, found) ↦ rw found (rows_of-once s seats)
  | inl new ↦ rw new (elim (Bool-cases (in_row (t.zone_id, t.row) s)) [
    | inr other ↦ rw other (omega (arith, rows_of-once s seats))
    | inl same ↦ rw same (
        omega (
          arith,
          find_by-none t (rows_of seats) new,
          tally-All (λ k. in_row k s) (λ k. in_row k t) (rows_of seats)
              (all (rows_of seats) (λ k. same_row s t k same)),
        ))
  ])
]
  where
    all :
        {P : String × String → Type 0} (keys : List (String × String))
        → ((k : String × String) → P k)
        → All P keys
    all [] f = tt
    all (k ∷ keys) f = (f k, all keys f)

add_row-has :
    (s t : Seat) (keys : List (String × String))
    → tally (λ k. in_row k s) keys ≤ tally (λ k. in_row k s) (add_row t keys)
add_row-has s t keys = elim (Option-cases (find_by (λ k. in_row k t) keys)) [
  | inr (k, found) ↦ rw found (omega arith)
  | inl new ↦ rw new (omega arith)
]

add_row-own :
    (s : Seat) (keys : List (String × String)) → 1 ≤ tally (λ k. in_row k s) (add_row s keys)
add_row-own s keys = elim (Option-cases (find_by (λ k. in_row k s) keys)) [
  | inr (k, found) ↦ rw found (find_by-some s keys k found)
  | inl new ↦ rw new (rw (own_row s) (omega arith))
]

rows_of-has : (seats : List Seat) → All (λ s. 1 ≤ tally (λ k. in_row k s) (rows_of seats)) seats
rows_of-has [] = tt
rows_of-has (t ∷ seats) = (
  add_row-own t (rows_of seats),
  All-map (λ (s : Seat). 1 ≤ tally (λ k. in_row k s) (rows_of seats)) _ seats
      (λ s h. omega (arith, add_row-has s t (rows_of seats))) (rows_of-has seats),
)

tally-and :
    (s : Seat) (b : Bool) (keys : List (String × String))
    → tally (λ k. in_row k s) keys ≡ 1
    → tally (λ k. in_row k s && b) keys ≡ (if b then 1 else 0)
tally-and s true keys h = tally-All _ (λ k. in_row k s) keys (all_true keys) ∙ h
  where
    all_true : (keys : List (String × String)) → All (λ k. (in_row k s && true) ≡ in_row k s) keys
    all_true [] = tt
    all_true (k ∷ keys) = (ground arith, all_true keys)
tally-and s false keys h = none_of keys
  where
    none_of : (keys : List (String × String)) → tally (λ k. in_row k s && false) keys ≡ 0
    none_of [] = refl
    none_of (k ∷ keys) = ground (arith, none_of keys)

tally-every : (seats : List Seat) → tally (λ s. true) seats ≡ length seats
tally-every [] = refl
tally-every (s ∷ seats) = omega (arith, tally-every seats)

module _ (row_le : String × String → String × String → Bool) (seats : List Seat) where
  abbrev keys : List (String × String)
  keys = sort row_le (rows_of seats)

  one_key : All (λ s. tally (λ k. in_row k s) keys ≡ 1) seats
  one_key =
      All-map (λ (s : Seat). 1 ≤ tally (λ k. in_row k s) (rows_of seats)) _ seats
        (λ s h.
          omega (arith, rows_of-once s seats, tally-sort row_le (λ k. in_row k s) (rows_of seats)))
        (rows_of-has seats)

  sum-total : sum_by RowCount.total 0 (queried row_le seats) ≡ length seats
  sum-total =
      sum_by-map RowCount.total (count_row seats) 0 keys
      ∙ sum_by-parts in_row (λ s. true) keys seats one_key
      ∙ tally-every seats

  sum-available : sum_by RowCount.available 0 (queried row_le seats) ≡ tally is_free seats
  sum-available =
      sum_by-map RowCount.available (count_row seats) 0 keys
      ∙ sum_by-parts (λ k s. in_row k s && is_free s) is_free keys seats
          (All-map (λ (s : Seat). tally (λ k. in_row k s) keys ≡ 1) _ seats
            (λ s h. tally-and s (is_free s) keys h) one_key)

-- A seat map that is returned changes nothing, and its totals are the number of the event's seats and
-- the number of those that are available.
pub get_seat_map-totals :
    (row_le : String × String → String × String → Bool) (event_id : String) (s : State)
    (r : SeatMapResponse)
    → (get_seat_map row_le event_id s).0 ≡ ok r
    → ((get_seat_map row_le event_id s).1 ≡ s)
      × (r.total_seats ≡ length (keep (of_event event_id) s.seats))
      × (r.total_available ≡ tally is_free (keep (of_event event_id) s.seats))
unfolding get_seat_map ◌>>=◌
get_seat_map-totals row_le event_id s r h =
    let seats = keep (of_event event_id) s.seats in
    let rows = queried row_le seats in
    elim (Bool-cases (length rows == 0)) [
      | inl empty ↦ absurd (err≢ok (rw (empty) at h))
      | inr some_row ↦
          let same : seat_map event_id (group_rows [] rows) ≡ r = ok_inj (rw (some_row) at h) in
          (
            rw some_row refl,
            ap SeatMapResponse.total_seats (sym same)
                ∙ sum_by-map ZoneSummary.total_seats zone_summary 0 (group_rows [] rows)
                ∙ total-group_rows RowSummary.total_seats [] rows
                ∙ omega (arith, sum-total row_le seats),
            ap SeatMapResponse.total_available (sym same)
                ∙ sum_by-map ZoneSummary.available_seats zone_summary 0 (group_rows [] rows)
                ∙ total-group_rows RowSummary.available_seats [] rows
                ∙ omega (arith, sum-available row_le seats),
          )
    ]
  where
    err≢ok : {f : Fault} → err f ≢ ok r
    err≢ok h = cc

    ok_inj : {a : SeatMapResponse} → ok a ≡ ok r → a ≡ r
    ok_inj h = cc
