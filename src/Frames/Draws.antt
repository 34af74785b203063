-- ===== src/Frames/Draws.antt =====
-- lottery/lottery.service.ts: the tables that its operations do not write.
use blocktic_backend.Base.{String, List, [], ◌∷◌}
use blocktic_backend.Exec.Keeps.{Moves, Moves-bind, Moves-pure}
use blocktic_backend.Entities.{LotteryEntry, DrawResult}
use blocktic_backend.State.{World, Config, Db, put_entries, put_draw_results}
use blocktic_backend.State.Frame.{Same, Ignores, Same-IsPreorder, frame_rules}
use blocktic_backend.Blockchain.{VrfRandomness}
use blocktic_backend.Frames.Chain.{request_vrf_randomness-Same, record_draw_result-Same}
use blocktic_backend.Frames.Reads.{get_kyc_status-Same, get_results-Same}
use blocktic_backend.Lottery

module _ {X : Type 0} (v : Db → X) where
  wallet_of-Same : (user : String) → Moves (Same v) (Lottery.wallet_of user)
  wallet_of-Same user = search (frame_rules, get_kyc_status-Same) depth 24

  pub resolve-Same :
      (entries : List LotteryEntry) → Moves (Same v) (Lottery.resolve_wallet_addresses entries)
  unfolding Lottery.resolve_wallet_addresses
  resolve-Same [] = search frame_rules
  resolve-Same (e ∷ rest) =
      Moves-bind (Same-IsPreorder v) (Lottery.wallet_of e.user_id) _ (wallet_of-Same e.user_id)
        λ address.
          Moves-bind (Same-IsPreorder v) (Lottery.resolve_wallet_addresses rest) _
            (resolve-Same rest) λ addresses. Moves-pure (Same-IsPreorder v) _

  module _ (w : World) (entries : Ignores v put_entries) where
    pub lottery_register-Same :
        (event user : String) (dto : Lottery.RegisterLottery)
        → Moves (Same v) (Lottery.register w event user dto)
    unfolding Lottery.register
    lottery_register-Same event user dto = search (frame_rules, entries) depth 24

    module _ (draws : Ignores v put_draw_results) where
      persist_draw-Same :
          (event : String) (vrf : VrfRandomness) (decided : List LotteryEntry)
          → Moves (Same v) (Lottery.persist_draw w event vrf decided)
      unfolding Lottery.persist_draw
      persist_draw-Same event vrf decided = search (frame_rules, entries, draws) depth 32

      module _ (cfg : Config) where
        record_proof-Same :
            (event : String) (vrf : VrfRandomness) (d : DrawResult) (decided : List LotteryEntry)
            → Moves (Same v) (Lottery.record_proof w cfg event vrf d decided)
        unfolding Lottery.record_proof
        record_proof-Same event vrf d decided =
            search (frame_rules, resolve-Same, record_draw_result-Same, entries, draws) depth 32

        pub draw-Same : (event : String) → Moves (Same v) (Lottery.draw w cfg event)
        unfolding Lottery.draw
        draw-Same event =
            search
              (
                frame_rules, request_vrf_randomness-Same, persist_draw-Same, record_proof-Same,
                get_results-Same,
              )
              depth 40
