-- ===== src/Api/Draws/Tests.antt =====
-- Draws with requests between them.
use blocktic_backend.Base.{
  ◌≡◌, refl, ◌≢◌, String, Option, some, List, [], ◌∷◌, true, find_id, Distinct,
}
use blocktic_backend.Exec.{ok}
use blocktic_backend.Lottery.{draw}
use blocktic_backend.Lottery.Tests.{entry, registered, response, first_draw, runs as draw_runs}
use blocktic_backend.Samples.{world, config, fresh_world}
use blocktic_backend.Entities.{LotteryEntry, won}
use blocktic_backend.State.{State}
use blocktic_backend.Lottery.Kept.{is_drawn}
use blocktic_backend.Api.Sample.{web}
use blocktic_backend.Api.Draws.{draw_once, entries_settled}
use blocktic_backend.Api.Routes.{Endpoint, respond_all}

abbrev decided_entry : LotteryEntry
decided_entry = record (entry "a" 2) { status = won; draw_proof_tx_hash = some "0xabc" }

abbrev requests : List (Option String × Endpoint)
requests =
    (some "Bearer ua", Endpoint.lottery_register "e2" (record { zone_id = "z1"; group_size = 1 }))
    ∷ (some "Bearer aroot", Endpoint.draw "e2")
    ∷ (some "Bearer aroot", Endpoint.draw "e1")
    ∷ []

draw_once_example :
    (draw world config "e1"
      (respond_all world config web requests (draw world config "e1" registered).1)).0
    ≢ ok response
draw_once_example = draw_once world config web "e1" registered response response requests first_draw

abbrev after_draw : State
after_draw = (draw world config "e1" registered).1

winning : find_id LotteryEntry.id "a" after_draw.entries ≡ some decided_entry
unfolding draw_runs
winning = refl

after_draw-is_drawn : is_drawn "e1" after_draw ≡ true
unfolding draw_runs
after_draw-is_drawn = refl

after_draw-Distinct : Distinct LotteryEntry.id after_draw.entries
unfolding draw_runs
after_draw-Distinct = (refl, (refl, tt))

entries_settled_example :
    find_id LotteryEntry.id "a" (respond_all world config web requests after_draw).entries
    ≡ some decided_entry
entries_settled_example =
    entries_settled world config web fresh_world requests after_draw "e1" "a" decided_entry
      after_draw-is_drawn after_draw-Distinct refl winning
