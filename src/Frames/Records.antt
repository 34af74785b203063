-- ===== src/Frames/Records.antt =====
-- events/events.service.ts, notifications/notifications.service.ts and
-- seat-allocation/seat-allocation.service.ts: the tables that their operations do not write.
use blocktic_backend.Base.{String, Bool, List}
use blocktic_backend.Exec.Keeps.{Moves}
use blocktic_backend.Entities.{Seat}
use blocktic_backend.State.{World, Db, put_events, put_notifications, put_seats}
use blocktic_backend.State.Frame.{Same, Ignores, frame_rules}
use blocktic_backend.Events
use blocktic_backend.Notifications
use blocktic_backend.Seats

module _ {X : Type 0} (v : Db → X) where
  module _ (ignored : Ignores v put_notifications) where
    pub mark_as_read-Same :
        (id user_id : String) → Moves (Same v) (Notifications.mark_as_read id user_id)
    unfolding Notifications.mark_as_read
    mark_as_read-Same id user_id = search (frame_rules, ignored)

  module _ (ignored : Ignores v put_events) (w : World) where
    pub create-Same : (dto : Events.CreateEvent) → Moves (Same v) (Events.create w dto)
    unfolding Events.create
    create-Same dto = search (frame_rules, ignored)

    pub update-Same :
        (id : String) (dto : Events.UpdateEvent) → Moves (Same v) (Events.update w id dto)
    unfolding Events.update
    update-Same id dto = search (frame_rules, ignored) depth 16

    pub remove-Same : (id : String) → Moves (Same v) (Events.remove id)
    unfolding Events.remove
    remove-Same id = search (frame_rules, ignored) depth 16

  module _ (ignored : Ignores v put_seats) where
    pub allocate_seats-Same :
        (w : World) (event_id : String) (ordered : List Seat → List Seat) (locked : String → Bool)
        (dto : Seats.AllocateSeats)
        → Moves (Same v) (Seats.allocate_seats w event_id ordered locked dto)
    unfolding Seats.allocate_seats
    allocate_seats-Same w event_id ordered locked dto = search (frame_rules, ignored) depth 24

    pub release_seat-Same : (id : String) → Moves (Same v) (Seats.release_seat id)
    unfolding Seats.release_seat
    release_seat-Same id = search (frame_rules, ignored) depth 16
