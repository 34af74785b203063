-- ===== src/Lottery/Fairness.antt =====
-- lottery/lottery.service.ts, the choice of a draw: how many entries of each pool win.
use Prim.Native.Nat.{max, min}
use blocktic_backend.Base.{
  ℕ, zero, suc, ◌+◌, ◌/◌, ◌≤◌, String, ◌≡◌, refl, sym, ap, ◌∙◌, Bool, true, false, ◌&&◌, List, [],
  ◌∷◌, ◌++◌, arith, keep, length, length-keep, tally, All, lookup, get_or, none, is_some,
  Bool-cases, inl, inr, ◌==◌, string_eq, eq_iff, eq_refl, if◌then◌else◌,
}
use blocktic_backend.Base.Counts.{
  tally-keep, tally-keep_le, tally-apart, tally-map, tally-All, tally_zero, All-map, tally-sort,
  length-sort, All-sort,
}
use blocktic_backend.Base.Sorting.{sort}
use blocktic_backend.Entities.{LotteryEntry, LotteryEntryStatus, won, lost, is_won}
use blocktic_backend.State.{World}
use blocktic_backend.Lottery.Winners.{
  pool_key, Pools, group_into_pools, winner_count, statuses, with_status, entry_le, select_winners,
  key_sorted, select_all, drawn,
}
use blocktic_backend.Lottery.Pools.{
  in_pool, ArePools, keyed, group_into_pools-ArePools, group_into_pools-keyed,
}

abbrev pub has_id : String → LotteryEntry → Bool
has_id i e = e.id == i

-- No two entries of the list have one id.
abbrev pub IdsDiffer : List LotteryEntry → Type 0
IdsDiffer entries = (i : String) → tally (has_id i) entries ≤ 1

-- The choice makes the entry win.
abbrev wins : List (String × LotteryEntryStatus) → LotteryEntry → Bool
wins chosen e = is_won (get_or (lookup e.id chosen) e.status)

lookup-statuses-none :
    (i : String) (n : ℕ) (xs : List LotteryEntry)
    → tally (has_id i) xs ≡ 0
    → lookup i (statuses n xs) ≡ none
lookup-statuses-none i n [] h = refl
lookup-statuses-none i zero (e ∷ xs) h = ground (arith, lookup-statuses-none i zero xs)
lookup-statuses-none i (suc n) (e ∷ xs) h = ground (arith, lookup-statuses-none i n xs)

lookup-statuses-some :
    (i : String) (n : ℕ) (xs : List LotteryEntry)
    → 1 ≤ tally (has_id i) xs
    → is_some (lookup i (statuses n xs)) ≡ true
lookup-statuses-some i n [] h = absurd (omega arith)
lookup-statuses-some i zero (e ∷ xs) h = ground (arith, lookup-statuses-some i zero xs)
lookup-statuses-some i (suc n) (e ∷ xs) h = ground (arith, lookup-statuses-some i n xs)

lookup-append :
    (i : String) (a b : List (String × LotteryEntryStatus))
    → lookup i (a ++ b) ≡ (if is_some (lookup i a) then lookup i a else lookup i b)
lookup-append i [] b = refl
lookup-append i (p ∷ a) b = elim (Bool-cases (p.0 == i)) [
  | inl hit ↦ rw hit refl
  | inr miss ↦ rw miss (lookup-append i a b)
]

tail-IdsDiffer : (e : LotteryEntry) (xs : List LotteryEntry) → IdsDiffer (e ∷ xs) → IdsDiffer xs
tail-IdsDiffer e xs d i = ground (arith, d i)

-- The choice for one entry says nothing of the others.
tally-wins_tail :
    (e : LotteryEntry) (st : LotteryEntryStatus) (xs : List LotteryEntry)
    (chosen : List (String × LotteryEntryStatus))
    → IdsDiffer (e ∷ xs)
    → tally (wins ((e.id, st) ∷ chosen)) xs ≡ tally (wins chosen) xs
tally-wins_tail e st xs chosen d = tally-All (wins ((e.id, st) ∷ chosen)) (wins chosen) xs (
    All-map (λ (y : LotteryEntry). has_id e.id y ≡ false) _ xs skipped
      (tally_zero (has_id e.id) xs absent))
  where
    absent : tally (has_id e.id) xs ≡ 0
    absent = ground (arith, d e.id, eq_refl e.id)

    skipped :
        (y : LotteryEntry) → has_id e.id y ≡ false → wins ((e.id, st) ∷ chosen) y ≡ wins chosen y
    skipped y other =
        let miss : (e.id == y.id) ≡ false = ground (arith, eq_iff e.id y.id, eq_iff y.id e.id) in
        rw miss refl

-- A choice by position makes the first `n` of a list win, and no more.
tally-statuses :
    (n : ℕ) (xs : List LotteryEntry)
    → IdsDiffer xs
    → tally (wins (statuses n xs)) xs ≡ min n (length xs)
tally-statuses n [] d = omega arith
tally-statuses zero (e ∷ xs) d =
    let here : wins ((e.id, lost) ∷ statuses 0 xs) e ≡ false = rw (eq_refl e.id) refl in
    rw here (
      omega (
        arith,
        tally-wins_tail e lost xs (statuses 0 xs) d,
        tally-statuses 0 xs (tail-IdsDiffer e xs d),
      ))
tally-statuses (suc n) (e ∷ xs) d =
    let here : wins ((e.id, won) ∷ statuses n xs) e ≡ true = rw (eq_refl e.id) refl in
    rw here (
      omega (
        arith,
        tally-wins_tail e won xs (statuses n xs) d,
        tally-statuses n xs (tail-IdsDiffer e xs d),
      ))

All-has_id : (xs : List LotteryEntry) → All (λ e. 1 ≤ tally (has_id e.id) xs) xs
All-has_id [] = tt
All-has_id (x ∷ xs) = (
  ground (arith, eq_refl x.id),
  All-map (λ (e : LotteryEntry). 1 ≤ tally (has_id e.id) xs) _ xs (λ e h. ground arith)
      (All-has_id xs),
)

module _ (w : World) (seed : String) (entries : List LotteryEntry) (differ : IdsDiffer entries)
    (key : String) where
  abbrev pool : List LotteryEntry
  pool = keep (in_pool key) entries

  -- An entry of the pool is in no other.
  elsewhere :
      (i other : String)
      → 1 ≤ tally (has_id i) pool
      → (other == key) ≡ false
      → tally (has_id i) (keep (in_pool other) entries) ≡ 0
  elsewhere i other member no_match =
      omega (arith, differ i, tally-apart (in_pool key) (in_pool other) (has_id i) entries apart)
    where
      apart : (x : LotteryEntry) → in_pool key x ≡ true → in_pool other x ≡ false
      apart x mine =
          ground (arith, eq_iff (pool_key x) key, eq_iff (pool_key x) other, eq_iff other key)

  lookup-select_winners-none :
      (i k : String) (xs : List LotteryEntry)
      → tally (has_id i) xs ≡ 0
      → lookup i (select_winners w seed k xs) ≡ none
  unfolding select_winners
  lookup-select_winners-none i k xs h =
      lookup-statuses-none i _ (sort (entry_le w seed k) xs)
        (tally-sort (entry_le w seed k) (has_id i) xs ∙ h)

  lookup-select_winners-some :
      (i k : String) (xs : List LotteryEntry)
      → 1 ≤ tally (has_id i) xs
      → is_some (lookup i (select_winners w seed k xs)) ≡ true
  unfolding select_winners
  lookup-select_winners-some i k xs h =
      lookup-statuses-some i _ (sort (entry_le w seed k) xs)
        (omega (arith, tally-sort (entry_le w seed k) (has_id i) xs))

  -- Among the choices of all pools, an entry of the pool finds its own pool's.
  lookup-select_all :
      (i : String) (pools : Pools)
      → 1 ≤ tally (has_id i) pool
      → ArePools entries pools
      → 1 ≤ tally (keyed key) pools
      → lookup i (select_all w seed pools) ≡ lookup i (select_winners w seed key pool)
  unfolding select_all
  lookup-select_all i [] member right listed = absurd (omega arith)
  lookup-select_all i (p ∷ rest) member right listed = elim (Bool-cases (p.0 == key)) [
    | inl hit ↦
        let same : p.0 ≡ key = (eq_iff p.0 key).0 hit in
        let mine : p.1 ≡ pool = right.0 ∙ ap (λ k. keep (in_pool k) entries) same in
        let found = lookup-select_winners-some i key pool member in
        lookup-append i (select_winners w seed p.0 p.1) (select_all w seed rest)
        ∙ rw (same, mine, found) refl
    | inr miss ↦
        let other =
          lookup-select_winners-none i p.0 p.1 (rw right.0 (elsewhere i p.0 member miss)) in
        lookup-append i (select_winners w seed p.0 p.1) (select_all w seed rest)
        ∙ rw other (lookup-select_all i rest member right.1 (omega (arith, rw (miss) at listed)))
  ]

  abbrev chosen : List (String × LotteryEntryStatus)
  chosen = select_all w seed (key_sorted w seed (group_into_pools entries))

  -- The choice for the members of the pool is the pool's own.
  wins-in_pool :
      1 ≤ tally (in_pool key) entries
      → tally (wins chosen) pool ≡ tally (wins (select_winners w seed key pool)) pool
  wins-in_pool some_entry = tally-All (wins chosen) (wins (select_winners w seed key pool)) pool (
      All-map (λ (e : LotteryEntry). 1 ≤ tally (has_id e.id) pool) _ pool
        (λ e member.
          ap (λ o. is_won (get_or o e.status))
            (lookup-select_all e.id (key_sorted w seed (group_into_pools entries)) member
              (All-sort _ _ (group_into_pools entries) (group_into_pools-ArePools entries))
              (omega (
                arith,
                group_into_pools-keyed entries key some_entry,
                tally-sort (λ (a b : String × List LotteryEntry). w.code_unit_le a.0 b.0)
                    (keyed key) (group_into_pools entries),
              ))))
        (All-has_id pool))

  sorted-IdsDiffer : IdsDiffer (sort (entry_le w seed key) pool)
  sorted-IdsDiffer i = omega (
    arith,
    tally-sort (entry_le w seed key) (has_id i) pool,
    tally-keep_le (in_pool key) (has_id i) entries,
    differ i,
  )

  wins_of_pool :
      tally (wins (select_winners w seed key pool)) pool
      ≡ min (winner_count (length pool)) (length pool)
  unfolding select_winners
  wins_of_pool =
      let le = entry_le w seed key in
      let sorted = sort le pool in
      sym (tally-sort le (wins (statuses (winner_count (length sorted)) sorted)) pool)
      ∙ tally-statuses (winner_count (length sorted)) sorted sorted-IdsDiffer
      ∙ ap (λ n. min (winner_count n) n) (length-sort le pool)

  -- After a draw over entries with distinct ids, of which `n` have the key, one or more:
  -- exactly max(1, ceil(n / 2)) of those with the key have won.
  pub drawn_winners :
      (n : ℕ)
      → tally (in_pool key) entries ≡ n
      → 1 ≤ n
      → tally (λ e. in_pool key e && is_won e.status) (drawn w seed entries) ≡ max 1 ((n + 1) / 2)
  unfolding drawn
  drawn_winners n count some_entry =
      let step1 = tally-map (with_status chosen) (λ e. in_pool key e && is_won e.status) entries in
      let step2 = tally-keep (in_pool key) (wins chosen) entries in
      let size = length-keep (in_pool key) entries ∙ count in
      step1
      ∙ step2
      ∙ wins-in_pool (omega arith)
      ∙ wins_of_pool
      ∙ ap (λ n. min (winner_count n) n) size
      ∙ omega arith
