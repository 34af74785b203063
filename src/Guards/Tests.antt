-- ===== src/Guards/Tests.antt =====
-- The role check at concrete inputs.
use blocktic_backend.Base.{◌≡◌, ◌↔◌, true, none, some, [], ◌∷◌}
use blocktic_backend.Entities.{Role}
use blocktic_backend.Guards.{all_and_override, can_activate}
use blocktic_backend.Guards.Access.{Allows, can_activate_iff}

can_activate_iff_example :
    (can_activate none (some (Role.admin ∷ [])) (some "user") ≡ true)
    ↔ Allows (all_and_override none (some (Role.admin ∷ []))) (some "user")
can_activate_iff_example = can_activate_iff none (some (Role.admin ∷ [])) (some "user")
