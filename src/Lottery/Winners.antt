-- ===== src/Lottery/Winners.antt =====
-- lottery/lottery.service.ts, groupIntoPools and selectWinners: the pools by zone and group size,
-- and the half of each pool that wins. The source writes the statuses into the entries; here the
-- choice is a function of an entry, and `drawn` the entries with their statuses.
use Prim.Native.Nat.{max}
use Prim.Native.Char.{code}
use blocktic_backend.Base.{
  ℕ, zero, suc, ◌+◌, ◌-◌, ◌*◌, ◌/◌, String, Bool, ◌&&◌, List, [], ◌∷◌, ◌++◌, map, ◌<>◌, leb, ◌==◌,
  nat_eq, string_eq, if◌then◌else◌, length, decimal, Option, none, some, lookup, insert, get_or,
}
use blocktic_backend.Base.Sorting.{sort}
use blocktic_backend.Entities.{LotteryEntry, LotteryEntryStatus, won, lost}
use blocktic_backend.State.{World}

-- `${entry.zoneId}:${entry.groupSize}`
abbrev pub pool_key : LotteryEntry → String
pool_key e = e.zone_id <> ":" <> decimal e.group_size

abbrev pub Pools : Type 0
Pools = List (String × List LotteryEntry)

abbrev pub push_entry : Pools → LotteryEntry → Pools
push_entry pools e = insert (pool_key e) (get_or (lookup (pool_key e) pools) [] ++ e ∷ []) pools

unfoldable pub group_from : Pools → List LotteryEntry → Pools
group_from pools [] = pools
group_from pools (e ∷ rest) = group_from (push_entry pools e) rest

unfoldable pub group_into_pools : List LotteryEntry → Pools
unfolding group_from
group_into_pools entries = group_from [] entries

-- Math.max(1, Math.ceil(n * 0.5))
abbrev pub winner_count : ℕ → ℕ
winner_count n = max 1 ((n + 1) / 2)

-- The statuses of a sorted pool: `index < winnerCount`.
abbrev pub statuses : (winners : ℕ) → List LotteryEntry → List (String × LotteryEntryStatus)
statuses winners [] = []
statuses zero (e ∷ rest) = (e.id, lost) ∷ statuses zero rest
statuses (suc n) (e ∷ rest) = (e.id, won) ∷ statuses n rest

abbrev pub with_status : List (String × LotteryEntryStatus) → LotteryEntry → LotteryEntry
with_status chosen e = record e { status = get_or (lookup e.id chosen) e.status }

module _ (w : World) (seed : String) where
  -- keccak256(solidityPacked(['string', 'string', 'string'], [seed, poolKey, entry.id]))
  abbrev pub sort_key : (pool : String) → LotteryEntry → String
  sort_key pool e = w.keccak256 (seed <> pool <> e.id)

  abbrev pub entry_le : (pool : String) → LotteryEntry → LotteryEntry → Bool
  entry_le pool a b = w.locale_le (sort_key pool a) (sort_key pool b)

  unfoldable pub select_winners :
      (pool : String) → List LotteryEntry → List (String × LotteryEntryStatus)
  unfolding sort
  select_winners pool entries =
      let sorted = sort (entry_le pool) entries in statuses (winner_count (length sorted)) sorted

  -- The pools in the order of their sorted keys.
  abbrev pub key_sorted : Pools → Pools
  key_sorted = sort (λ (a b : String × List LotteryEntry). w.code_unit_le a.0 b.0)

  unfoldable pub select_all : Pools → List (String × LotteryEntryStatus)
  unfolding select_winners
  select_all [] = []
  select_all ((key, pool) ∷ rest) = select_winners key pool ++ select_all rest

  unfoldable pub drawn : List LotteryEntry → List LotteryEntry
  unfolding select_all group_into_pools
  drawn entries = map (with_status (select_all (key_sorted (group_into_pools entries)))) entries

-- The value of a hexadecimal digit, as parseInt(…, 16) reads it.
abbrev pub hex_value : ℕ → Option ℕ
hex_value c =
    if leb b'0' c && leb c b'9'
    then some (c - b'0')
    else if leb b'a' c && leb c b'f'
    then some (c - b'a' + 10)
    else if leb b'A' c && leb c b'F'
    then some (c - b'A' + 10)
    else none

-- `parseInt(eventId.replace(/-/g, '').slice(0, 8), 16)`, of a UUID: at most `left` digits are read,
-- dashes are passed over, and the first other character ends it.
unfoldable pub parse_hex : (left acc : ℕ) → String → ℕ
parse_hex left acc String.[] = acc
parse_hex zero acc (String.◌∷◌ c s) = acc
parse_hex (suc left) acc (String.◌∷◌ c s) =
    let passed = parse_hex (suc left) acc s in
    if code c == b'-'
    then passed
    else elim (hex_value (code c)) [ none ↦ acc | some d ↦ parse_hex left (acc * 16 + d) s ]

unfoldable pub event_id_num : (event_id : String) → ℕ
unfolding parse_hex
event_id_num event_id = parse_hex 8 0 event_id
