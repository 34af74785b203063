-- ===== src/Lottery/Kept.antt =====
-- lottery/lottery.service.ts: an event that is drawn stays drawn.
use blocktic_backend.Base.{
  String, ◌≡◌, refl, ap, ◌∙◌, Bool, true, some, List, [], ◌∷◌, ◌++◌, arith, is_some, find_by,
  update_where, ◌==◌, string_eq, inl, inr,
}
use blocktic_backend.Exec.{modify, ◌>>=◌, Result-cases}
use blocktic_backend.Exec.Keeps.{Moves, IsPreorder, moves_rules}
use blocktic_backend.Entities.{LotteryEntry, DrawResult}
use blocktic_backend.State.{
  World, Config, State, App, Db, put_draw_results, put_entries, transaction,
}
use blocktic_backend.State.Frame.{Same}
use blocktic_backend.Blockchain.{VrfRandomness}
use blocktic_backend.Frames.Chain.{request_vrf_randomness-Same, record_draw_result-Same}
use blocktic_backend.Frames.Draws.{resolve-Same}
use blocktic_backend.Frames.Reads.{get_results-Same}
use blocktic_backend.Lottery.{draw_of, set_draw_proof, persist_draw, record_proof, draw}

abbrev pub has_draw : String → List DrawResult → Bool
has_draw event_id rows = is_some (find_by (λ (d : DrawResult). d.event_id == event_id) rows)

abbrev pub is_drawn : String → State → Bool
is_drawn event_id s = is_some (draw_of event_id s)

-- Once drawn, an event stays drawn.
pub record Kept (event_id : String) (s t : State) : Type 0 where
  pub stays : is_drawn event_id s ≡ true → is_drawn event_id t ≡ true

module _ (event_id : String) where
  pub Kept-IsPreorder : IsPreorder (Kept event_id)
  Kept-IsPreorder = record {
    same = λ s. record { stays = λ h. h };
    chain = λ s t u a b. record { stays = λ h. b.stays (a.stays h) };
  }

  pub Kept-Same :
      {A : Type 0} (m : App A) → Moves (Same Db.draw_results) m → Moves (Kept event_id) m
  Kept-Same m h = record {
    at = λ s. record { stays = λ d. ap (has_draw event_id) ((h.at s).same) ∙ d };
  }

  Kept-transaction :
      {A : Type 0} (m : App A) → Moves (Kept event_id) m → Moves (Kept event_id) (transaction m)
  unfolding transaction
  Kept-transaction m h = record {
    at = λ s. elim (Result-cases (m s).0) [
      | inl (e, failed) ↦ rw failed (record { stays = λ d. d })
      | inr (a, done) ↦ rw done (h.at s)
    ];
  }

  Kept-entries :
      (f : State → List LotteryEntry) → Moves (Kept event_id) (modify (λ s. put_entries (f s) s))
  unfolding ◌>>=◌
  Kept-entries f = record { at = λ s. record { stays = λ d. d } }

  pub has_draw-proof :
      (tx id : String) (rows : List DrawResult)
      → has_draw event_id (
          update_where
            (λ (d : DrawResult). d.id == id)
            (λ d. record d { draw_proof_tx_hash = some tx })
            rows)
        ≡ has_draw event_id rows
  has_draw-proof tx id [] = refl
  has_draw-proof tx id (d ∷ rows) = ground (arith, has_draw-proof tx id rows)

  Kept-proof : (tx id : String) → Moves (Kept event_id) (modify (set_draw_proof tx id))
  unfolding ◌>>=◌
  Kept-proof tx id = record {
    at = λ s. record { stays = λ d. has_draw-proof tx id s.draw_results ∙ d };
  }

  pub has_draw-more :
      (rows more : List DrawResult)
      → has_draw event_id rows ≡ true
      → has_draw event_id (rows ++ more) ≡ true
  has_draw-more [] more h = ground arith
  has_draw-more (d ∷ rows) more h = ground (arith, has_draw-more rows more)

  Kept-insert :
      (d : DrawResult)
      → Moves (Kept event_id) (modify (λ s. put_draw_results (s.draw_results ++ d ∷ []) s))
  unfolding ◌>>=◌
  Kept-insert d = record {
    at = λ s. record { stays = λ h. has_draw-more s.draw_results (d ∷ []) h };
  }

  ruleset kept_rules =
      (Kept-IsPreorder, moves_rules, Kept-Same, Kept-transaction, Kept-entries, Kept-proof)

  module _ (w : World) where
    pub persist_draw-Kept :
        (event : String) (vrf : VrfRandomness) (decided : List LotteryEntry)
        → Moves (Kept event_id) (persist_draw w event vrf decided)
    unfolding persist_draw
    persist_draw-Kept event vrf decided = search (kept_rules, Kept-insert) depth 32

    module _ (cfg : Config) where
      pub record_proof-Kept :
          (event : String) (vrf : VrfRandomness) (d : DrawResult) (decided : List LotteryEntry)
          → Moves (Kept event_id) (record_proof w cfg event vrf d decided)
      unfolding record_proof
      record_proof-Kept event vrf d decided =
          search (kept_rules, resolve-Same, record_draw_result-Same) depth 32

      pub draw-Kept : (event : String) → Moves (Kept event_id) (draw w cfg event)
      unfolding draw
      draw-Kept event =
          search
            (
              kept_rules, request_vrf_randomness-Same, persist_draw-Kept, record_proof-Kept,
              get_results-Same,
            )
            depth 40
