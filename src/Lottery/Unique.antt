-- ===== src/Lottery/Unique.antt =====
-- lottery/lottery.service.ts: what the unique indexes ask, kept by the service's own checks; of the
-- entries by event and user, of the draws by event.
use blocktic_backend.Base.{
  ◌≡◌, refl, sym, subst, String, Bool, none, some, List, [], ◌∷◌, ◌++◌, arith, Option-cases, inl,
  inr, ◌==◌, string_eq, eq_iff, find_by,
}
use blocktic_backend.Base.Unique.{Apart, append-Apart, update_where-Apart}
use blocktic_backend.Exec.{modify, pure, for_each, Result-cases, ◌>>=◌}
use blocktic_backend.Exec.Keeps.{Moves, IsPreorder, moves_rules}
use blocktic_backend.Entities.{LotteryEntry, DrawResult}
use blocktic_backend.State.{World, Config, Db, State, App, transaction, put_draw_results}
use blocktic_backend.State.Frame.{Same}
use blocktic_backend.Blockchain.{VrfRandomness}
use blocktic_backend.Frames.Chain.{request_vrf_randomness-Same, record_draw_result-Same}
use blocktic_backend.Frames.Draws.{resolve-Same}
use blocktic_backend.Frames.Reads.{get_results-Same}
use blocktic_backend.Lottery

abbrev pub same_user : LotteryEntry → LotteryEntry → Bool
same_user e f = Lottery.is_registered e.event_id e.user_id f

abbrev pub same_draw : DrawResult → DrawResult → Bool
same_draw d e = e.event_id == d.event_id

same_user_sym : (e f : LotteryEntry) → same_user e f ≡ same_user f e
same_user_sym e f = ground (
  arith,
  eq_iff e.event_id f.event_id,
  eq_iff f.event_id e.event_id,
  eq_iff e.user_id f.user_id,
  eq_iff f.user_id e.user_id,
)

same_draw_sym : (d e : DrawResult) → same_draw d e ≡ same_draw e d
same_draw_sym d e = ground (arith, eq_iff d.event_id e.event_id, eq_iff e.event_id d.event_id)

-- A user has one entry at most for an event, and an event one draw at most.
abbrev pub IsIndexed : State → Type 0
IsIndexed s = Apart same_user s.entries × Apart same_draw s.draw_results

pub record StaysIndexed (s s' : State) : Type 0 where
  pub indexed : IsIndexed s → IsIndexed s'

pub StaysIndexed-IsPreorder : IsPreorder StaysIndexed
StaysIndexed-IsPreorder = record {
  same = λ s. record { indexed = λ h. h };
  chain = λ a b c p q. record { indexed = λ h. q.indexed (p.indexed h) };
}

abbrev pub indexes : Db → List LotteryEntry × List DrawResult
indexes db = (db.entries, db.draw_results)

pub StaysIndexed-Same : {A : Type 0} (m : App A) → Moves (Same indexes) m → Moves StaysIndexed m
StaysIndexed-Same m h = record {
  at = λ s. record {
    indexed = λ d.
        let same = (h.at s).same in
        subst (λ x. Apart same_user x.0 × Apart same_draw x.1) (sym same) d;
  };
}

StaysIndexed-transaction :
    {A : Type 0} (m : App A) → Moves StaysIndexed m → Moves StaysIndexed (transaction m)
unfolding transaction
StaysIndexed-transaction m h = record {
  at = λ s. elim (Result-cases (m s).0) [
    | inl (e, failed) ↦ rw failed (record { indexed = λ d. d })
    | inr (a, done) ↦ rw done (h.at s)
  ];
}

set_status-StaysIndexed : (e : LotteryEntry) → Moves StaysIndexed (modify (Lottery.set_status e))
unfolding ◌>>=◌
set_status-StaysIndexed e = record {
  at = λ s. record {
    indexed = λ d. (
      update_where-Apart same_user (λ x. x.id == e.id) (λ x. record x { status = e.status })
          (λ x y. refl) (λ x y. refl) s.entries d.0,
      d.1,
    );
  };
}

set_proof-StaysIndexed :
    (tx : String) (e : LotteryEntry) → Moves StaysIndexed (modify (Lottery.set_proof tx e))
unfolding ◌>>=◌
set_proof-StaysIndexed tx e = record {
  at = λ s. record {
    indexed = λ d. (
      update_where-Apart same_user (λ x. x.id == e.id)
          (λ x. record x { draw_proof_tx_hash = some tx }) (λ x y. refl) (λ x y. refl) s.entries
          d.0,
      d.1,
    );
  };
}

set_draw_proof-StaysIndexed :
    (tx id : String) → Moves StaysIndexed (modify (Lottery.set_draw_proof tx id))
unfolding ◌>>=◌
set_draw_proof-StaysIndexed tx id = record {
  at = λ s. record {
    indexed = λ d. (
      d.0,
      update_where-Apart same_draw (λ x. x.id == id)
          (λ x. record x { draw_proof_tx_hash = some tx }) (λ x y. refl) (λ x y. refl)
          s.draw_results d.1,
    );
  };
}

module _ (w : World) where
  pub register-StaysIndexed :
      (event user : String) (dto : Lottery.RegisterLottery)
      → Moves StaysIndexed (Lottery.register w event user dto)
  unfolding Lottery.register ◌>>=◌
  register-StaysIndexed event user dto = record {
    at = λ s. elim (Option-cases (find_by (Lottery.is_registered event user) s.entries)) [
      | inl new ↦
          let e = Lottery.new_entry w event user dto s in
          rw new (record {
            indexed = λ d. (append-Apart same_user same_user_sym e s.entries new d.0, d.1);
          })
      | inr (f, taken) ↦ rw taken (record { indexed = λ d. d })
    ];
  }

  set_all-StaysIndexed :
      (decided : List LotteryEntry) (d : DrawResult)
      → Moves StaysIndexed (for_each decided (λ e. modify (Lottery.set_status e)) >>= λ _. pure d)
  set_all-StaysIndexed decided d =
      search (StaysIndexed-IsPreorder, moves_rules, set_status-StaysIndexed)

  stored-StaysIndexed :
      (d : DrawResult) (s : State)
      → find_by (same_draw d) s.draw_results ≡ none
      → StaysIndexed s (put_draw_results (s.draw_results ++ d ∷ []) s)
  stored-StaysIndexed d s new = record {
    indexed = λ h. (h.0, append-Apart same_draw same_draw_sym d s.draw_results new h.1);
  }

  persist_draw-StaysIndexed :
      (event : String) (vrf : VrfRandomness) (decided : List LotteryEntry)
      → Moves StaysIndexed (Lottery.persist_draw w event vrf decided)
  unfolding Lottery.persist_draw ◌>>=◌
  persist_draw-StaysIndexed event vrf decided = StaysIndexed-transaction _ (record {
    at = λ s. elim (Option-cases (Lottery.draw_of event s)) [
      | inl new ↦
          let d = Lottery.new_draw w event vrf s in
          let s1 = put_draw_results (s.draw_results ++ d ∷ []) s in
          rw new (
            StaysIndexed-IsPreorder.chain s s1 _ (stored-StaysIndexed d s new)
              ((set_all-StaysIndexed decided d).at s1))
      | inr (d, taken) ↦ rw taken (record { indexed = λ h. h })
    ];
  })

  module _ (cfg : Config) where
    record_proof-StaysIndexed :
        (event : String) (vrf : VrfRandomness) (d : DrawResult) (decided : List LotteryEntry)
        → Moves StaysIndexed (Lottery.record_proof w cfg event vrf d decided)
    unfolding Lottery.record_proof
    record_proof-StaysIndexed event vrf d decided =
        search
          (
            StaysIndexed-IsPreorder, moves_rules, StaysIndexed-Same, resolve-Same,
            record_draw_result-Same, set_draw_proof-StaysIndexed, set_proof-StaysIndexed,
          )
          depth 32

    pub draw-StaysIndexed : (event : String) → Moves StaysIndexed (Lottery.draw w cfg event)
    unfolding Lottery.draw
    draw-StaysIndexed event =
        search
          (
            StaysIndexed-IsPreorder, moves_rules, StaysIndexed-Same, request_vrf_randomness-Same,
            persist_draw-StaysIndexed, record_proof-StaysIndexed, get_results-Same,
          )
          depth 40
