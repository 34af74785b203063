-- ===== src/Entities/Events.antt =====
-- events/entities/event.entity.ts and zone.entity.ts. The deposit rate is in hundredths.
use blocktic_backend.Base.{ℕ, String, Bool, true, false, Option, List}

pub data EventStatus : Type 0 where
  draft published registration drawn active completed cancelled : EventStatus

abbrev pub event_status_eq : EventStatus → EventStatus → Bool
event_status_eq draft draft = true
event_status_eq published published = true
event_status_eq registration registration = true
event_status_eq drawn drawn = true
event_status_eq active active = true
event_status_eq completed completed = true
event_status_eq cancelled cancelled = true
event_status_eq _ _ = false

pub data EventMode : Type 0 where
  strong normal : EventMode

pub record Zone : Type 0 where
  pub id : String
  pub event_id : String
  pub name : String
  pub price : ℕ
  pub deposit_rate : ℕ
  pub total_seats : ℕ

pub record Event : Type 0 where
  pub id : String
  pub name : String
  pub description : Option String
  pub cover_image : Option String
  pub start_time : ℕ
  pub end_time : ℕ
  pub registration_start : ℕ
  pub registration_end : ℕ
  pub status : EventStatus
  pub verification_mode : EventMode
  pub organizer_name : Option String
  pub address : Option String
  pub zones : List Zone
