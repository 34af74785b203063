-- ===== src/Api/Draws.antt =====
-- The draw of an event under the requests of the controllers: lottery/lottery.controller.ts among the
-- others.
mod Tests
use blocktic_backend.Base.{
  ◌≡◌, ◌≢◌, refl, true, String, Option, some, List, [], ◌∷◌, Distinct, find_id,
}
use blocktic_backend.Exec.{ok}
use blocktic_backend.Exec.Keeps.{Moves, moves_rules}
use blocktic_backend.Entities.{LotteryEntry}
use blocktic_backend.State.{World, Config, Db, State, FreshIds}
use blocktic_backend.Lottery.{DrawResultResponse}
use blocktic_backend.Lottery
use blocktic_backend.Lottery.Unique.{indexes}
use blocktic_backend.Lottery.Settled.{Settled, Settled-IsPreorder, Settled-Same, register-Settled}
use blocktic_backend.Lottery.Settled.Draw.{draw-Settled}
use blocktic_backend.Lottery.Kept.{is_drawn, Kept, Kept-IsPreorder, Kept-Same, draw-Kept}
use blocktic_backend.Lottery.Once.{draw-Draws, drawn-refused}
use blocktic_backend.Api.Http.{Web}
use blocktic_backend.Api.Effects.{respond-Same, writes}
use blocktic_backend.Api.Guarding.{guard_rules}
use blocktic_backend.Api.Views.{Untouched-draws, Untouched-indexes}
use blocktic_backend.Api.Lottery as LotteryApi
use blocktic_backend.Api.Routes.{Endpoint, respond, respond_all, draw, lottery_register}

module _ (w : World) (cfg : Config) (web : Web) (event_id : String) where
  respond-Kept :
      (auth : Option String) (e : Endpoint) → Moves (Kept event_id) (respond w cfg web auth e)
  unfolding respond LotteryApi.draw
  respond-Kept auth (draw event) =
      search (Kept-IsPreorder, moves_rules, Kept-Same, guard_rules, draw-Kept) depth 24
  respond-Kept auth e =
      Kept-Same event_id _
        (respond-Same Db.draw_results w cfg web auth e (Untouched-draws (writes e) refl))

  respond_all-Kept :
      (requests : List (Option String × Endpoint)) (s : State)
      → Kept event_id s (respond_all w cfg web requests s)
  unfolding respond_all
  respond_all-Kept [] s = (Kept-IsPreorder event_id).same s
  respond_all-Kept (r ∷ rest) s =
      let s' = (respond w cfg web r.0 r.1 s).1 in
      (Kept-IsPreorder event_id).chain s s' (respond_all w cfg web rest s')
        ((respond-Kept r.0 r.1).at s) (respond_all-Kept rest s')

  -- An event is drawn once: after a draw that returned, and whatever requests to the API are served
  -- since, one after the other and from whomever, no draw of the event returns.
  pub draw_once :
      (s : State) (r r' : DrawResultResponse) (between : List (Option String × Endpoint))
      → (Lottery.draw w cfg event_id s).0 ≡ ok r
      → (Lottery.draw w cfg event_id
          (respond_all w cfg web between (Lottery.draw w cfg event_id s).1)).0
        ≢ ok r'
  draw_once s r r' between h =
      let s1 = (Lottery.draw w cfg event_id s).1 in
      drawn-refused w cfg event_id (respond_all w cfg web between s1) r'
        ((respond_all-Kept between s1).stays ((draw-Draws w cfg event_id).at s r h))

module _ (w : World) (cfg : Config) (web : Web) (fresh : FreshIds w) (event_id k : String)
    (x : LotteryEntry) (mine : x.event_id ≡ event_id) where
  respond-Settled :
      (auth : Option String) (e : Endpoint)
      → Moves (Settled event_id k x) (respond w cfg web auth e)
  unfolding respond LotteryApi.draw LotteryApi.register
  respond-Settled auth (draw event) =
      search (Settled-IsPreorder, moves_rules, Settled-Same, guard_rules, draw-Settled, mine) depth
        24
  respond-Settled auth (lottery_register event dto) =
      search
        (
          Settled-IsPreorder,
          moves_rules,
          Settled-Same,
          guard_rules,
          register-Settled event_id k x w fresh,
        )
        depth 24
  respond-Settled auth e =
      Settled-Same event_id k x _
        (respond-Same indexes w cfg web auth e (Untouched-indexes (writes e) refl))

  respond_all-Settled :
      (requests : List (Option String × Endpoint)) (s : State)
      → Settled event_id k x s (respond_all w cfg web requests s)
  unfolding respond_all
  respond_all-Settled [] s = (Settled-IsPreorder event_id k x).same s
  respond_all-Settled (r ∷ rest) s =
      let s' = (respond w cfg web r.0 r.1 s).1 in
      (Settled-IsPreorder event_id k x).chain s s' (respond_all w cfg web rest s')
        ((respond-Settled r.0 r.1).at s) (respond_all-Settled rest s')

-- A draw is final: where new ids are fresh, an event is drawn and no two entries have one id, an entry
-- of the event stays as it is, field by field, whatever requests to the API are served, one after the
-- other and from whomever, so a winner stays a winner and a loser a loser.
pub entries_settled :
    (w : World) (cfg : Config) (web : Web)
    → FreshIds w
    → (requests : List (Option String × Endpoint)) (s : State) (event_id k : String)
      (x : LotteryEntry)
    → is_drawn event_id s ≡ true
    → Distinct LotteryEntry.id s.entries
    → x.event_id ≡ event_id
    → find_id LotteryEntry.id k s.entries ≡ some x
    → find_id LotteryEntry.id k (respond_all w cfg web requests s).entries ≡ some x
entries_settled w cfg web fresh requests s event_id k x drawn d mine found =
    ((respond_all-Settled w cfg web fresh event_id k x mine requests s).holds (drawn, d, found)).2
