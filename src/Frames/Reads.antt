-- ===== src/Frames/Reads.antt =====
-- The operations of the services that only read.
use blocktic_backend.Base.{ℕ, String, Bool, Option}
use blocktic_backend.Exec.Keeps.{Moves}
use blocktic_backend.Entities.{EventStatus}
use blocktic_backend.State.{World, Config, Db}
use blocktic_backend.State.Frame.{Same, frame_rules}
use blocktic_backend.Audit
use blocktic_backend.Events
use blocktic_backend.Gate
use blocktic_backend.Kyc
use blocktic_backend.Lottery
use blocktic_backend.Notifications
use blocktic_backend.Seats.Map
use blocktic_backend.Ticketing

module _ {X : Type 0} (v : Db → X) where
  pub get_kyc_status-Same : (id : String) → Moves (Same v) (Kyc.get_kyc_status id)
  unfolding Kyc.get_kyc_status
  get_kyc_status-Same id = search frame_rules depth 16

  pub get_results-Same : (event : String) → Moves (Same v) (Lottery.get_results event)
  unfolding Lottery.get_results
  get_results-Same event = search frame_rules

  pub get_proof-Same : (event : String) → Moves (Same v) (Lottery.get_proof event)
  unfolding Lottery.get_proof
  get_proof-Same event = search frame_rules depth 16

  pub get_seat_map-Same :
      (row_le : String × String → String × String → Bool) (event : String)
      → Moves (Same v) (Map.get_seat_map row_le event)
  unfolding Map.get_seat_map
  get_seat_map-Same row_le event = search frame_rules depth 16

  pub find_one_or_fail-Same : (id : String) → Moves (Same v) (Ticketing.find_one_or_fail id)
  unfolding Ticketing.find_one_or_fail
  find_one_or_fail-Same id = search frame_rules

  pub tickets_of-Same : (user : String) → Moves (Same v) (Ticketing.find_by_user user)
  unfolding Ticketing.find_by_user
  tickets_of-Same user = search frame_rules

  pub generate_dynamic_qr-Same :
      (w : World) (cfg : Config) (id : String) → Moves (Same v) (Gate.generate_dynamic_qr w cfg id)
  unfolding Gate.generate_dynamic_qr
  generate_dynamic_qr-Same w cfg id = search frame_rules depth 24

  pub get_entry_stats-Same : (event : String) → Moves (Same v) (Gate.get_entry_stats event)
  unfolding Gate.get_entry_stats
  get_entry_stats-Same event = search frame_rules

  pub find_all-Same :
      (page limit : ℕ) (status : Option EventStatus)
      → Moves (Same v) (Events.find_all page limit status)
  unfolding Events.find_all
  find_all-Same page limit status = search frame_rules

  pub find_one-Same : (id : String) → Moves (Same v) (Events.find_one id)
  unfolding Events.find_one
  find_one-Same id = search frame_rules

  pub get_logs-Same : (query : Audit.AuditQuery) → Moves (Same v) (Audit.get_logs query)
  unfolding Audit.get_logs
  get_logs-Same query = search frame_rules

  pub get_event_summary-Same : (event : String) → Moves (Same v) (Audit.get_event_summary event)
  unfolding Audit.get_event_summary
  get_event_summary-Same event = search frame_rules

  pub notifications_of-Same :
      (user : String) (page limit : ℕ) → Moves (Same v) (Notifications.find_by_user user page limit)
  unfolding Notifications.find_by_user
  notifications_of-Same user page limit = search frame_rules
