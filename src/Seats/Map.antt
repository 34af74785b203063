-- ===== src/Seats/Map.antt =====
-- seat-allocation/seat-allocation.service.ts, getSeatMap: the seats of an event counted by zone and
-- row. The database's ORDER BY zoneId, row is a comparison of pairs.
use blocktic_backend.Base.{
  ℕ, ◌+◌, String, Bool, ◌&&◌, List, [], ◌∷◌, ◌++◌, ◌<>◌, map, keep, tally, length, lookup, insert,
  get_or, find_by, is_some, ◌==◌, string_eq, nat_eq, if◌then◌else◌,
}
use blocktic_backend.Base.Sorting.{sort}
use blocktic_backend.Exec.{not_found, pure, gets, throw_if, ◌>>=◌, ◌>>◌}
use blocktic_backend.Entities.{Seat, available, seat_status_eq}
use blocktic_backend.State.{App}

-- A row of the query.
pub record RowCount : Type 0 where
  pub zone_id : String
  pub row : String
  pub total : ℕ
  pub available : ℕ

-- dto/seat-map.dto.ts
pub record RowSummary : Type 0 where
  pub row : String
  pub total_seats : ℕ
  pub available_seats : ℕ

pub record ZoneSummary : Type 0 where
  pub zone_id : String
  pub rows : List RowSummary
  pub total_seats : ℕ
  pub available_seats : ℕ

pub record SeatMapResponse : Type 0 where
  pub event_id : String
  pub zones : List ZoneSummary
  pub total_seats : ℕ
  pub total_available : ℕ

abbrev pub of_event : String → Seat → Bool
of_event event_id s = s.event_id == event_id

abbrev pub in_row : String × String → Seat → Bool
in_row k s = s.zone_id == k.0 && s.row == k.1

abbrev pub is_free : Seat → Bool
is_free s = seat_status_eq s.status available

-- The pairs of GROUP BY, each once.
abbrev pub add_row : Seat → List (String × String) → List (String × String)
add_row s found =
    if is_some (find_by (λ k. in_row k s) found) then found else (s.zone_id, s.row) ∷ found

abbrev pub rows_of : List Seat → List (String × String)
rows_of [] = []
rows_of (s ∷ seats) = add_row s (rows_of seats)

abbrev pub count_row : List Seat → String × String → RowCount
count_row seats k = record {
  zone_id = k.0;
  row = k.1;
  total = tally (in_row k) seats;
  available = tally (λ s. in_row k s && is_free s) seats;
}

abbrev pub Zones : Type 0
Zones = List (String × List RowSummary)

abbrev pub summary : RowCount → RowSummary
summary r = record { row = r.row; total_seats = r.total; available_seats = r.available }

-- The first loop.
abbrev pub push_row : Zones → RowCount → Zones
push_row zones r = insert r.zone_id (get_or (lookup r.zone_id zones) [] ++ summary r ∷ []) zones

abbrev pub group_rows : Zones → List RowCount → Zones
group_rows zones [] = zones
group_rows zones (r ∷ rows) = group_rows (push_row zones r) rows

-- `rowList.reduce((sum, r) => sum + …, 0)`
abbrev pub sum_by : {A : Type 0} → (A → ℕ) → ℕ → List A → ℕ
sum_by f sum [] = sum
sum_by f sum (a ∷ rest) = sum_by f (sum + f a) rest

abbrev pub zone_summary : String × List RowSummary → ZoneSummary
zone_summary z = record {
  zone_id = z.0;
  rows = z.1;
  total_seats = sum_by RowSummary.total_seats 0 z.1;
  available_seats = sum_by RowSummary.available_seats 0 z.1;
}

abbrev pub seat_map : String → Zones → SeatMapResponse
seat_map event_id zones =
    let summaries = map zone_summary zones in
    record {
      event_id = event_id;
      zones = summaries;
      total_seats = sum_by ZoneSummary.total_seats 0 summaries;
      total_available = sum_by ZoneSummary.available_seats 0 summaries;
    }

abbrev pub queried : (row_le : String × String → String × String → Bool) → List Seat → List RowCount
queried row_le seats = map (count_row seats) (sort row_le (rows_of seats))

unfoldable pub get_seat_map :
    (row_le : String × String → String × String → Bool) → (event_id : String) → App SeatMapResponse
unfolding sort
get_seat_map row_le event_id = do
  rows ← gets (λ s. queried row_le (keep (of_event event_id) s.seats))
  throw_if (length rows == 0) (not_found ("No seats found for event " <> event_id))
  pure (seat_map event_id (group_rows [] rows))
