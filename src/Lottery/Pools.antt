-- ===== src/Lottery/Pools.antt =====
-- lottery/lottery.service.ts, groupIntoPools: the pools as parts of the entries.
use blocktic_backend.Base.{
  ◌≤◌, String, ◌≡◌, refl, sym, ap, ◌∙◌, subst, Bool, false, List, [], ◌∷◌, ◌++◌, arith, keep,
  length, length-keep, tally, All, lookup, insert, lookup-insert, get_or, none, some, some_inj,
  some≢none, Bool-cases, Option-cases, inl, inr, ◌==◌, string_eq, eq_iff, eq_refl, if◌then◌else◌,
}
use blocktic_backend.Entities.{LotteryEntry}
use blocktic_backend.Lottery.Winners.{pool_key, Pools, push_entry, group_from, group_into_pools}

abbrev pub in_pool : String → LotteryEntry → Bool
in_pool key e = pool_key e == key

-- Each pool of the list is the part of `seen` with its key.
abbrev pub ArePools : (seen : List LotteryEntry) → Pools → Type 0
ArePools seen pools = All (λ p. p.1 ≡ keep (in_pool p.0) seen) pools

abbrev KeysDiffer : Pools → Type 0
KeysDiffer [] = Unit
KeysDiffer (p ∷ rest) = (lookup p.0 rest ≡ none) × KeysDiffer rest

-- An entry of `seen` whose key has no pool does not exist.
abbrev Covers : (seen : List LotteryEntry) → Pools → Type 0
Covers seen pools = (key : String) → lookup key pools ≡ none → keep (in_pool key) seen ≡ []

keep-snoc :
    (key : String) (seen : List LotteryEntry) (e : LotteryEntry)
    → keep (in_pool key) (seen ++ e ∷ [])
      ≡ keep (in_pool key) seen ++ (if in_pool key e then e ∷ [] else [])
keep-snoc key [] e = elim (Bool-cases (in_pool key e)) [ inl h ↦ rw h refl | inr h ↦ rw h refl ]
keep-snoc key (x ∷ seen) e = elim (Bool-cases (in_pool key x)) [
  | inl h ↦ rw h (ap (λ l. x ∷ l) (keep-snoc key seen e))
  | inr h ↦ rw h (keep-snoc key seen e)
]

append_nil : (l : List LotteryEntry) → l ++ [] ≡ l
append_nil [] = refl
append_nil (x ∷ l) = ap (λ r. x ∷ r) (append_nil l)

keep-other :
    (key : String) (seen : List LotteryEntry) (e : LotteryEntry)
    → in_pool key e ≡ false
    → keep (in_pool key) (seen ++ e ∷ []) ≡ keep (in_pool key) seen
keep-other key seen e h = keep-snoc key seen e ∙ rw h (append_nil (keep (in_pool key) seen))

insert-KeysDiffer :
    (key : String) (value : List LotteryEntry) (pools : Pools)
    → KeysDiffer pools
    → KeysDiffer (insert key value pools)
insert-KeysDiffer key value [] d = (refl, tt)
insert-KeysDiffer key value (p ∷ rest) d = elim (Bool-cases (p.0 == key)) [
  | inl hit ↦ rw hit d
  | inr miss ↦ rw miss (
    lookup-insert key p.0 value rest ∙ rw (differ miss) d.0,
    insert-KeysDiffer key value rest d.1,
  )
]
  where
    differ : (p.0 == key) ≡ false → (key == p.0) ≡ false
    differ miss = ground (arith, eq_iff p.0 key, eq_iff key p.0)

lookup-ArePools :
    (seen : List LotteryEntry) (pools : Pools) (key : String) (l : List LotteryEntry)
    → ArePools seen pools
    → lookup key pools ≡ some l
    → l ≡ keep (in_pool key) seen
lookup-ArePools seen [] key l h e = absurd (some≢none (sym e))
lookup-ArePools seen (p ∷ rest) key l h e = elim (Bool-cases (p.0 == key)) [
  | inl hit ↦
      sym (some_inj (rw (hit, lookup) at e))
      ∙ h.0
      ∙ ap (λ k. keep (in_pool k) seen) ((eq_iff p.0 key).0 hit)
  | inr miss ↦ lookup-ArePools seen rest key l h.1 (rw (miss, lookup) at e)
]

module _ (seen : List LotteryEntry) (e : LotteryEntry) where
  -- Pools with other keys have nothing of the entry.
  absent-ArePools :
      (pools : Pools)
      → lookup (pool_key e) pools ≡ none
      → ArePools seen pools
      → ArePools (seen ++ e ∷ []) pools
  absent-ArePools [] free h = tt
  absent-ArePools (p ∷ rest) free h = elim (Bool-cases (p.0 == pool_key e)) [
    | inl hit ↦ absurd (some≢none (rw (hit) at free))
    | inr miss ↦ (
      h.0
          ∙ sym (
              keep-other p.0 seen e
                (ground (arith, eq_iff p.0 (pool_key e), eq_iff (pool_key e) p.0))),
      absent-ArePools rest (rw (miss) at free) h.1,
    )
  ]

  insert-ArePools :
      (value : List LotteryEntry) (pools : Pools)
      → value ≡ keep (in_pool (pool_key e)) (seen ++ e ∷ [])
      → KeysDiffer pools
      → ArePools seen pools
      → ArePools (seen ++ e ∷ []) (insert (pool_key e) value pools)
  insert-ArePools value [] right d h = (right, tt)
  insert-ArePools value (p ∷ rest) right d h = elim (Bool-cases (p.0 == pool_key e)) [
    | inl hit ↦
        let same : p.0 ≡ pool_key e = (eq_iff p.0 (pool_key e)).0 hit in
        rw hit (
          right ∙ ap (λ k. keep (in_pool k) (seen ++ e ∷ [])) (sym same),
          absent-ArePools rest (subst (λ k. lookup k rest ≡ none) same d.0) h.1,
        )
    | inr miss ↦ rw miss (
      h.0
          ∙ sym (
              keep-other p.0 seen e
                (ground (arith, eq_iff p.0 (pool_key e), eq_iff (pool_key e) p.0))),
      insert-ArePools value rest right d.1 h.1,
    )
  ]

-- What holds of the pools after the entries of `seen`.
record Grouped (seen : List LotteryEntry) (pools : Pools) : Type 0 where
  right : ArePools seen pools
  differ : KeysDiffer pools
  covers : Covers seen pools

extended :
    (seen : List LotteryEntry) (pools : Pools) (e : LotteryEntry)
    → Grouped seen pools
    → get_or (lookup (pool_key e) pools) [] ++ e ∷ [] ≡ keep (in_pool (pool_key e)) (seen ++ e ∷ [])
extended seen pools e g =
    ap (λ l. l ++ e ∷ []) before
    ∙ sym (keep-snoc (pool_key e) seen e ∙ rw (eq_refl (pool_key e)) refl)
  where
    before : get_or (lookup (pool_key e) pools) [] ≡ keep (in_pool (pool_key e)) seen
    before = elim (Option-cases (lookup (pool_key e) pools)) [
      | inl new ↦ rw new (sym (g.covers (pool_key e) new))
      | inr (l, held) ↦ rw held (lookup-ArePools seen pools (pool_key e) l g.right held)
    ]

push_entry-Grouped :
    (seen : List LotteryEntry) (pools : Pools) (e : LotteryEntry)
    → Grouped seen pools
    → Grouped (seen ++ e ∷ []) (push_entry pools e)
push_entry-Grouped seen pools e g = record {
  right = insert-ArePools seen e value pools (extended seen pools e g) g.differ g.right;
  differ = insert-KeysDiffer (pool_key e) value pools g.differ;
  covers = covers;
}
  where
    value : List LotteryEntry
    value = get_or (lookup (pool_key e) pools) [] ++ e ∷ []

    covers : Covers (seen ++ e ∷ []) (push_entry pools e)
    covers key absent = elim (Bool-cases (pool_key e == key)) [
      | inl this ↦
          absurd (some≢none (rw (lookup-insert (pool_key e) key value pools, this) at absent))
      | inr other ↦
          keep-other key seen e other
          ∙ g.covers key (rw (lookup-insert (pool_key e) key value pools, other) at absent)
    ]

append_assoc : (a b c : List LotteryEntry) → (a ++ b) ++ c ≡ a ++ (b ++ c)
append_assoc [] b c = refl
append_assoc (x ∷ a) b c = ap (λ l. x ∷ l) (append_assoc a b c)

group_from-Grouped :
    (seen : List LotteryEntry) (pools : Pools) (entries : List LotteryEntry)
    → Grouped seen pools
    → Grouped (seen ++ entries) (group_from pools entries)
unfolding group_from
group_from-Grouped seen pools [] g = subst (λ l. Grouped l pools) (sym (append_nil seen)) g
group_from-Grouped seen pools (e ∷ entries) g =
    subst (λ l. Grouped l (group_from (push_entry pools e) entries))
      (append_assoc seen (e ∷ []) entries)
      (group_from-Grouped (seen ++ e ∷ []) (push_entry pools e) entries
        (push_entry-Grouped seen pools e g))

group_into_pools-Grouped :
    (entries : List LotteryEntry) → Grouped entries (group_into_pools entries)
unfolding group_into_pools
group_into_pools-Grouped entries =
    group_from-Grouped [] [] entries (record { right = tt; differ = tt; covers = λ key e. refl })

pub group_into_pools-ArePools :
    (entries : List LotteryEntry) → ArePools entries (group_into_pools entries)
group_into_pools-ArePools entries = (group_into_pools-Grouped entries).right

abbrev pub keyed : String → String × List LotteryEntry → Bool
keyed key p = p.0 == key

lookup-keyed :
    (key : String) (pools : Pools) (l : List LotteryEntry)
    → lookup key pools ≡ some l
    → 1 ≤ tally (keyed key) pools
lookup-keyed key [] l e = absurd (some≢none (sym e))
lookup-keyed key (p ∷ rest) l e = elim (Bool-cases (p.0 == key)) [
  | inl hit ↦ rw hit (omega arith)
  | inr miss ↦ rw miss (omega (arith, lookup-keyed key rest l (rw (miss, lookup) at e)))
]

pub group_into_pools-keyed :
    (entries : List LotteryEntry) (key : String)
    → 1 ≤ tally (in_pool key) entries
    → 1 ≤ tally (keyed key) (group_into_pools entries)
group_into_pools-keyed entries key some_entry =
    elim (Option-cases (lookup key (group_into_pools entries))) [
      | inl missing ↦
          let empty = (group_into_pools-Grouped entries).covers key missing in
          absurd (omega (arith, some_entry, length-keep (in_pool key) entries, ap length empty))
      | inr (l, held) ↦ lookup-keyed key (group_into_pools entries) l held
    ]
