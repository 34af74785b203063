-- ===== src/Lottery/Once.antt =====
-- lottery/lottery.service.ts, draw: a draw that returns is stored, and a drawn event is refused.
use blocktic_backend.Base.{
  String, ◌≡◌, ◌≢◌, refl, sym, ap, ◌∙◌, true, List, [], ◌∷◌, ◌++◌, arith, is_some, find_by, length,
  Bool-cases, inl, inr, ◌==◌, string_eq, nat_eq, eq_refl,
}
use blocktic_backend.Exec.{
  Fault, not_found, ok, err, for_each, modify, gets, throw_if, bind-ok, ◌>>=◌,
}
use blocktic_backend.Exec.Keeps.{Moves, Moves-bind}
use blocktic_backend.Entities.{LotteryEntry, DrawResult}
use blocktic_backend.State.{World, Config, State, App, put_draw_results, transaction, Db}
use blocktic_backend.Frames.Reads.{get_results-Same}
use blocktic_backend.Blockchain.{VrfRandomness, request_vrf_randomness}
use blocktic_backend.Lottery.Winners.{drawn as winners_drawn}
use blocktic_backend.Lottery.Kept.{
  is_drawn, has_draw, Kept, Kept-IsPreorder, Kept-Same, record_proof-Kept,
}
use blocktic_backend.Lottery.{
  DrawResultResponse, draw_of, set_status, persist_draw, new_draw, entries_of, seed_hex,
  already_drawn, record_proof, draw, get_results,
}

draws-for_each_status :
    (entries : List LotteryEntry) (s : State)
    → (for_each entries (λ e. modify (set_status e)) s).1.draw_results ≡ s.draw_results
unfolding for_each ◌>>=◌
draws-for_each_status [] s = refl
draws-for_each_status (e ∷ entries) s = draws-for_each_status entries (set_status e s)

for_each_status-ok :
    (entries : List LotteryEntry) (s : State)
    → (for_each entries (λ e. modify (set_status e)) s).0 ≡ ok tt
unfolding for_each ◌>>=◌
for_each_status-ok [] s = refl
for_each_status-ok (e ∷ entries) s = for_each_status-ok entries (set_status e s)

is_drawn-append :
    (d : DrawResult) (rows : List DrawResult)
    → is_some (find_by (λ (x : DrawResult). x.event_id == d.event_id) (rows ++ d ∷ [])) ≡ true
is_drawn-append d [] = rw (eq_refl d.event_id) refl
is_drawn-append d (x ∷ rows) = ground (arith, is_drawn-append d rows)

module _ (w : World) (cfg : Config) (event_id : String) where
  -- A draw that is stored is there.
  persist_draw-drawn :
      (vrf : VrfRandomness) (entries : List LotteryEntry) (s : State) (d : DrawResult)
      → (persist_draw w event_id vrf entries s).0 ≡ ok d
      → is_drawn event_id (persist_draw w event_id vrf entries s).1 ≡ true
  unfolding persist_draw transaction ◌>>=◌
  persist_draw-drawn vrf entries s d h = elim (Bool-cases (is_drawn event_id s)) [
    | inl already ↦ absurd (err≢ok (rw (already) at h))
    | inr new ↦
        let result = new_draw w event_id vrf s in
        let s1 = put_draw_results (s.draw_results ++ result ∷ []) s in
        rw (new, for_each_status-ok entries s1)
          (ap (has_draw event_id) (draws-for_each_status entries s1)
            ∙ is_drawn-append result s.draw_results)
  ]
    where
      err≢ok : {f : Fault} → err f ≢ ok d
      err≢ok h = cc

  -- The draw of a handler that returns is stored.
  pub record Draws {A : Type 0} (m : App A) : Type 0 where
    pub at : (s : State) (a : A) → (m s).0 ≡ ok a → is_drawn event_id (m s).1 ≡ true

  Draws-bind :
      {A B : Type 0} (m : App A) (f : A → App B) → ((a : A) → Draws (f a)) → Draws (m >>= f)
  Draws-bind m f rest = record {
    at = λ s b h.
        let (a, first, path) = bind-ok m f s h in
        ap (λ x. is_drawn event_id x.1) path ∙ (rest a).at (m s).1 b (ap (λ x. x.0) (sym path) ∙ h);
  }

  Draws-then :
      {A B : Type 0} (m : App A) (f : A → App B)
      → Draws m
      → ((a : A) → Moves (Kept event_id) (f a))
      → Draws (m >>= f)
  Draws-then m f first rest = record {
    at = λ s b h.
        let (a, done, path) = bind-ok m f s h in
        ap (λ x. is_drawn event_id x.1) path ∙ ((rest a).at (m s).1).stays (first.at s a done);
  }

  pub draw-Draws : Draws (draw w cfg event_id)
  unfolding draw
  draw-Draws = Draws-bind (gets (entries_of event_id)) _ λ entries.
      Draws-bind
        (throw_if (length entries == 0) (not_found "No lottery entries found for this event")) _
        λ _. Draws-bind (gets (draw_of event_id)) _ λ existing.
          Draws-bind (throw_if (is_some existing) already_drawn) _ λ _.
            Draws-bind (request_vrf_randomness w cfg 120000 5000) _ λ vrf.
              let decided = winners_drawn w (seed_hex w vrf.random_word) entries in
              Draws-then (persist_draw w event_id vrf decided) _
                (record { at = persist_draw-drawn vrf decided })
                λ result.
                  Moves-bind (Kept-IsPreorder event_id)
                    (record_proof w cfg event_id vrf result decided) _
                    (record_proof-Kept event_id w cfg event_id vrf result decided)
                    λ _.
                      Kept-Same event_id (get_results event_id)
                        (get_results-Same Db.draw_results event_id)

  pub drawn-refused :
      (s : State) (r : DrawResultResponse)
      → is_drawn event_id s ≡ true
      → (draw w cfg event_id s).0 ≢ ok r
  unfolding draw ◌>>=◌
  drawn-refused s r before h = elim (Bool-cases (length (entries_of event_id s) == 0)) [
    | inl empty ↦ absurd (err≢ok (rw (empty) at h))
    | inr some_entry ↦ absurd (err≢ok (rw (some_entry, before) at h))
  ]
    where
      err≢ok : {f : Fault} → err f ≢ ok r
      err≢ok h = cc
