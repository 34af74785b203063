-- ===== src/Lottery/Settled.antt =====
-- lottery/lottery.service.ts: the entries of an event that is drawn.
pub mod Draw
use blocktic_backend.Base.{
  ◌≡◌, ◌≢◌, refl, sym, ap, ◌∙◌, subst, String, Bool, true, false, Option, none, some, some_inj,
  some≢none, List, [], ◌∷◌, ◌++◌, arith, ◌==◌, nat_eq, string_eq, eq_iff, find_id, find_by,
  Distinct, update_where, find_id-update_where, update_where-Distinct, Distinct-All, find_id-new,
  key-find_id, append-Distinct, find_id-append, All, keep, map, length, is_some, Bool-cases,
  Option-cases, inl, inr,
}
use blocktic_backend.Base.Counts.{All-map, All-keep-All, All-image, All-and}
use blocktic_backend.Exec.{modify, pure, for_each, throw_if, not_found, Result-cases, ◌>>=◌}
use blocktic_backend.Exec.Keeps.{Moves, IsPreorder, Moves-for_each-All, Moves-bind, moves_rules}
use blocktic_backend.Entities.{LotteryEntry, DrawResult}
use blocktic_backend.State.{
  World, Config, State, App, Db, FreshIds, transaction, put_entries, put_draw_results,
}
use blocktic_backend.State.Frame.{Same}
use blocktic_backend.Blockchain.{VrfRandomness, request_vrf_randomness}
use blocktic_backend.Frames.Chain.{request_vrf_randomness-Same, record_draw_result-Same}
use blocktic_backend.Frames.Draws.{resolve-Same}
use blocktic_backend.Frames.Reads.{get_results-Same}
use blocktic_backend.Lottery.Winners.{with_status, drawn as winners_drawn}
use blocktic_backend.Lottery.Kept.{is_drawn, has_draw, has_draw-more, has_draw-proof}
use blocktic_backend.Lottery.Unique.{indexes}
use blocktic_backend.Lottery

-- The event is drawn, ids of entries are unique, and the key finds the entry.
abbrev pub Holds : (event_id k : String) → LotteryEntry → State → Type 0
Holds event_id k x s =
    (is_drawn event_id s ≡ true)
    × Distinct LotteryEntry.id s.entries
    × (find_id LotteryEntry.id k s.entries ≡ some x)

pub record Settled (event_id k : String) (x : LotteryEntry) (s t : State) : Type 0 where
  pub holds : Holds event_id k x s → Holds event_id k x t

module _ (event_id k : String) (x : LotteryEntry) where
  pub Settled-IsPreorder : IsPreorder (Settled event_id k x)
  Settled-IsPreorder = record {
    same = λ s. record { holds = λ h. h };
    chain = λ s t u a b. record { holds = λ h. b.holds (a.holds h) };
  }

  pub Settled-Same :
      {A : Type 0} (m : App A) → Moves (Same indexes) m → Moves (Settled event_id k x) m
  Settled-Same m h = record {
    at = λ s. record {
      holds = λ d.
          subst
            (λ v.
              (has_draw event_id v.1 ≡ true)
              × Distinct LotteryEntry.id v.0
              × (find_id LotteryEntry.id k v.0 ≡ some x))
            (sym ((h.at s).same)) d;
    };
  }

  pub Settled-transaction :
      {A : Type 0} (m : App A)
      → Moves (Settled event_id k x) m
      → Moves (Settled event_id k x) (transaction m)
  unfolding transaction
  Settled-transaction m h = record {
    at = λ s. elim (Result-cases (m s).0) [
      | inl (e, failed) ↦ rw failed (record { holds = λ d. d })
      | inr (a, done) ↦ rw done (h.at s)
    ];
  }

  pub Settled-proof :
      (tx id : String) → Moves (Settled event_id k x) (modify (Lottery.set_draw_proof tx id))
  unfolding ◌>>=◌
  Settled-proof tx id = record {
    at = λ s. record {
      holds = λ (h, d, found). (has_draw-proof event_id tx id s.draw_results ∙ h, d, found);
    };
  }

  pub Settled-insert :
      (d : DrawResult)
      → Moves (Settled event_id k x) (modify (λ s. put_draw_results (s.draw_results ++ d ∷ []) s))
  unfolding ◌>>=◌
  Settled-insert d = record {
    at = λ s. record {
      holds = λ (h, d0, found). (has_draw-more event_id s.draw_results (d ∷ []) h, d0, found);
    };
  }

  -- An update of another entry.
  pub Settled-update :
      (id : String) (f : LotteryEntry → LotteryEntry)
      → ((e : LotteryEntry) → (f e).id ≡ e.id)
      → (k == id) ≡ false
      → Moves (Settled event_id k x) (
          modify (λ s. put_entries (update_where (λ (e : LotteryEntry). e.id == id) f s.entries) s))
  unfolding ◌>>=◌
  Settled-update id f same other = record {
    at = λ s. record {
      holds = λ (h, d, found).
          let is_it : LotteryEntry → Bool = λ e. e.id == id in
          let kept_row = find_id-update_where LotteryEntry.id is_it f same k s.entries in
          (
            h,
            update_where-Distinct LotteryEntry.id is_it f same s.entries d,
            rw (kept_row, found, key-find_id LotteryEntry.id k s.entries x found, other) refl,
          );
    };
  }

  pub ruleset settled_rules =
      (Settled-IsPreorder, moves_rules, Settled-Same, Settled-transaction, Settled-proof)

  module _ (w : World) where
    pub register-Settled :
        FreshIds w
        → (event user : String) (dto : Lottery.RegisterLottery)
        → Moves (Settled event_id k x) (Lottery.register w event user dto)
    unfolding Lottery.register ◌>>=◌
    register-Settled fresh event user dto = record {
      at = λ s. elim (Option-cases (find_by (Lottery.is_registered event user) s.entries)) [
        | inl none_yet ↦
            let e = Lottery.new_entry w event user dto s in
            let new =
              find_id-new LotteryEntry.id e.id s.entries (fresh (map LotteryEntry.id s.entries)) in
            rw none_yet (record {
              holds = λ (h, d, found). (
                h,
                append-Distinct LotteryEntry.id e s.entries new d,
                find_id-append LotteryEntry.id k s.entries (e ∷ []) x found,
              );
            })
        | inr (e, taken) ↦ rw taken (record { holds = λ h. h })
      ];
    }
