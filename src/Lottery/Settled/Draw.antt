-- ===== src/Lottery/Settled/Draw.antt =====
-- lottery/lottery.service.ts, draw: what a draw of one event does to the entries of another one.
use blocktic_backend.Base.{
  ◌≡◌, ◌≢◌, refl, sym, ap, ◌∙◌, subst, String, true, false, some, some_inj, List, [], ◌∷◌, ◌==◌,
  nat_eq, string_eq, eq_iff, find_id, Distinct-All, All, keep, length, is_some, Bool-cases, inl,
  inr,
}
use blocktic_backend.Base.Counts.{All-map, All-image}
use blocktic_backend.Exec.{modify, for_each, throw_if, not_found, gets, ◌>>=◌, ◌>>◌}
use blocktic_backend.Exec.Keeps.{Moves, Moves-for_each-All}
use blocktic_backend.Entities.{LotteryEntry, DrawResult}
use blocktic_backend.State.{World, Config, State, App}
use blocktic_backend.Blockchain.{VrfRandomness, request_vrf_randomness}
use blocktic_backend.Frames.Chain.{request_vrf_randomness-Same, record_draw_result-Same}
use blocktic_backend.Frames.Draws.{resolve-Same}
use blocktic_backend.Frames.Reads.{get_results-Same}
use blocktic_backend.Lottery.Winners.{drawn as winners_drawn}
use blocktic_backend.Lottery.Kept.{is_drawn}
use blocktic_backend.Lottery
use blocktic_backend.Lottery.Settled.{
  Holds, Settled, Settled-IsPreorder, Settled-insert, Settled-update, settled_rules,
}

true≢false : true ≢ false
true≢false e = cc

module _ (event_id k : String) (x : LotteryEntry) (w : World) where
  -- A list of entries other than the one that the key finds.
  abbrev Others : List LotteryEntry → Type 0
  Others = All (λ e. (k == e.id) ≡ false)

  set_all-Settled :
      (decided : List LotteryEntry)
      → Others decided
      → Moves (Settled event_id k x) (for_each decided (λ e. modify (Lottery.set_status e)))
  set_all-Settled decided others =
      Moves-for_each-All (Settled-IsPreorder event_id k x) decided
        (λ e. modify (Lottery.set_status e))
        (All-map (λ e. (k == e.id) ≡ false) _ decided
          (λ e other.
            Settled-update event_id k x e.id (λ y. record y { status = e.status }) (λ y. refl)
              other)
          others)

  persist_draw-Settled :
      (event : String) (vrf : VrfRandomness) (decided : List LotteryEntry)
      → Others decided
      → Moves (Settled event_id k x) (Lottery.persist_draw w event vrf decided)
  unfolding Lottery.persist_draw
  persist_draw-Settled event vrf decided others =
      search (settled_rules, Settled-insert, set_all-Settled) depth 32

  module _ (cfg : Config) where
    record_proof-Settled :
        (event : String) (vrf : VrfRandomness) (d : DrawResult) (decided : List LotteryEntry)
        → Others decided
        → Moves (Settled event_id k x) (Lottery.record_proof w cfg event vrf d decided)
    unfolding Lottery.record_proof
    record_proof-Settled event vrf d decided others =
        let o = (Settled-IsPreorder event_id k x) in
        let each : (tx : String)
            → Moves (Settled event_id k x)
                (for_each decided (λ e. modify (Lottery.set_proof tx e))) =
          λ tx.
            Moves-for_each-All o decided (λ e. modify (Lottery.set_proof tx e))
              (All-map (λ e. (k == e.id) ≡ false) _ decided
                (λ e other.
                  Settled-update event_id k x e.id (λ y. record y { draw_proof_tx_hash = some tx })
                    (λ y. refl) other)
                others) in
        search (settled_rules, resolve-Same, record_draw_result-Same, each) depth 32

    abbrev from_entries : (event : String) → List LotteryEntry → App Lottery.DrawResultResponse
    from_entries event entries = do
      throw_if (length entries == 0) (not_found "No lottery entries found for this event")
      existing ← gets (Lottery.draw_of event)
      throw_if (is_some existing) Lottery.already_drawn
      vrf ← request_vrf_randomness w cfg 120000 5000
      let decided = winners_drawn w (Lottery.seed_hex w vrf.random_word) entries
      result ← Lottery.persist_draw w event vrf decided
      Lottery.record_proof w cfg event vrf result decided
      Lottery.get_results event

    drawn-Others :
        (seed : String) (entries : List LotteryEntry)
        → Others entries
        → Others (winners_drawn w seed entries)
    unfolding winners_drawn
    drawn-Others seed entries =
        All-image (λ e. (k == e.id) ≡ false) (λ e. (k == e.id) ≡ false) _ entries (λ e h. h)

    from_entries-Settled :
        (event : String) (entries : List LotteryEntry)
        → Others entries
        → Moves (Settled event_id k x) (from_entries event entries)
    from_entries-Settled event entries others =
        search
          (
            settled_rules, request_vrf_randomness-Same, persist_draw-Settled, record_proof-Settled,
            drawn-Others, get_results-Same,
          )
          depth 40

    -- The entries of another event are other entries.
    entries_of-Others :
        (event : String) (s : State)
        → (event == event_id) ≡ false
        → (x.event_id ≡ event_id)
        → Holds event_id k x s
        → Others (Lottery.entries_of event s)
    entries_of-Others event s other mine (h, d, found) =
        over s.entries (Distinct-All LotteryEntry.id s.entries d)
      where
        apart :
            (e : LotteryEntry)
            → find_id LotteryEntry.id e.id s.entries ≡ some e
            → (e.event_id == event) ≡ true
            → (k == e.id) ≡ false
        apart e at_id of_it = elim (Bool-cases (k == e.id)) [
          | inl same ↦
              let is_x : e ≡ x = some_inj (sym at_id ∙ rw (← (eq_iff k e.id).0 same) found) in
              absurd (
                true≢false (
                  sym (
                    (eq_iff event event_id).1 (
                      sym ((eq_iff e.event_id event).0 of_it)
                      ∙ ap LotteryEntry.event_id is_x
                      ∙ mine))
                  ∙ other))
          | inr differ ↦ differ
        ]

        over :
            (rows : List LotteryEntry)
            → All (λ (e : LotteryEntry). find_id LotteryEntry.id e.id s.entries ≡ some e) rows
            → Others (keep (Lottery.of_event event) rows)
        over [] a = tt
        over (e ∷ rows) a = elim (Bool-cases (e.event_id == event)) [
          | inl of_it ↦ rw of_it (apart e a.0 of_it, over rows a.1)
          | inr not_of_it ↦ rw not_of_it (over rows a.1)
        ]

    drawn-unchanged :
        (s : State) → is_drawn event_id s ≡ true → (Lottery.draw w cfg event_id s).1 ≡ s
    unfolding Lottery.draw ◌>>=◌
    drawn-unchanged s before = elim (Bool-cases (length (Lottery.entries_of event_id s) == 0)) [
      | inl empty ↦ rw empty refl
      | inr some_entry ↦ rw (some_entry, before) refl
    ]

    draw-from_entries :
        (event : String) (s : State)
        → Lottery.draw w cfg event s ≡ from_entries event (Lottery.entries_of event s) s
    unfolding Lottery.draw ◌>>=◌
    draw-from_entries event s = refl

    -- A draw leaves an entry of a drawn event as it is.
    pub draw-Settled :
        (event : String)
        → x.event_id ≡ event_id
        → Moves (Settled event_id k x) (Lottery.draw w cfg event)
    draw-Settled event mine = record {
      at = λ s. record {
        holds = λ h. elim (Bool-cases (event == event_id)) [
          | inl same ↦
              let kept : (Lottery.draw w cfg event s).1 ≡ s =
                rw ((eq_iff event event_id).0 same) (drawn-unchanged s h.0) in
              subst (Holds event_id k x) (sym kept) h
          | inr other ↦
              let entries = Lottery.entries_of event s in
              let kept =
                from_entries-Settled event entries (entries_of-Others event s other mine h) in
              subst (λ r. Holds event_id k x r.1) (sym (draw-from_entries event s))
                ((kept.at s).holds h)
        ];
      };
    }
