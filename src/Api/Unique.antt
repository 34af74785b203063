-- ===== src/Api/Unique.antt =====
-- The unique indexes of the lottery's tables under the requests of the controllers.
use blocktic_backend.Base.{refl, String, Option, List, [], ◌∷◌}
use blocktic_backend.Exec.Keeps.{Moves, moves_rules}
use blocktic_backend.State.{World, Config, State}
use blocktic_backend.Lottery.Unique.{
  IsIndexed, StaysIndexed, StaysIndexed-IsPreorder, StaysIndexed-Same, register-StaysIndexed,
  draw-StaysIndexed, indexes,
}
use blocktic_backend.Api.Http.{Web}
use blocktic_backend.Api.Effects.{respond-Same, writes}
use blocktic_backend.Api.Guarding.{guard_rules}
use blocktic_backend.Api.Views.{Untouched-indexes}
use blocktic_backend.Api.Lottery
use blocktic_backend.Api.Routes.{Endpoint, respond, respond_all, lottery_register, draw}

module _ (w : World) (cfg : Config) (web : Web) where
  respond-StaysIndexed :
      (auth : Option String) (e : Endpoint) → Moves StaysIndexed (respond w cfg web auth e)
  unfolding respond Lottery.register Lottery.draw
  respond-StaysIndexed auth (lottery_register event dto) =
      search
        (
          StaysIndexed-IsPreorder, moves_rules, StaysIndexed-Same, guard_rules,
          register-StaysIndexed,
        )
        depth 16
  respond-StaysIndexed auth (draw event) =
      search
        (StaysIndexed-IsPreorder, moves_rules, StaysIndexed-Same, guard_rules, draw-StaysIndexed)
        depth 16
  respond-StaysIndexed auth e =
      StaysIndexed-Same _
        (respond-Same indexes w cfg web auth e (Untouched-indexes (writes e) refl))

  -- Whatever requests are served, one after the other: where each user has one lottery entry at most
  -- for an event, and each event one draw at most, this stays so by the services' own checks, since
  -- the saves of the model refuse no row.
  pub respond_all-IsIndexed :
      (requests : List (Option String × Endpoint)) (s : State)
      → IsIndexed s
      → IsIndexed (respond_all w cfg web requests s)
  unfolding respond_all
  respond_all-IsIndexed [] s h = h
  respond_all-IsIndexed (r ∷ rest) s h =
      respond_all-IsIndexed rest (respond w cfg web r.0 r.1 s).1
        (((respond-StaysIndexed r.0 r.1).at s).indexed h)
