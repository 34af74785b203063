-- ===== src/Events.antt =====
-- events/events.service.ts: the events with their zones.
use blocktic_backend.Base.{
  ℕ, String, Bool, true, Option, none, some, List, [], ◌∷◌, ◌++◌, leb, string_eq, find_id, keep,
  save, remove_id, map, get_or,
}
use blocktic_backend.Base.Pages.{Page, paged}
use blocktic_backend.Base.Sorting.{sort}
use blocktic_backend.Exec.{not_found, pure, gets, modify, or_throw, ◌>>=◌, ◌>>◌}
use blocktic_backend.Entities.{Event, EventStatus, event_status_eq, EventMode, Zone, draft}
use blocktic_backend.State.{World, State, App, put_events, transaction}

-- dto/create-zone.dto.ts
pub record CreateZone : Type 0 where
  pub name : String
  pub price : ℕ
  pub deposit_rate : ℕ
  pub total_seats : ℕ

-- dto/create-event.dto.ts; a date is what PostgreSQL reads the ISO text as
pub record CreateEvent : Type 0 where
  pub name : String
  pub description : Option String
  pub cover_image : Option String
  pub start_time : ℕ
  pub end_time : ℕ
  pub registration_start : ℕ
  pub registration_end : ℕ
  pub verification_mode : Option EventMode
  pub organizer_name : Option String
  pub address : Option String
  pub zones : List CreateZone

-- dto/update-event.dto.ts: `none` is a property that the body does not have
pub record UpdateEvent : Type 0 where
  pub name : Option String
  pub description : Option String
  pub cover_image : Option String
  pub start_time : Option ℕ
  pub end_time : Option ℕ
  pub registration_start : Option ℕ
  pub registration_end : Option ℕ
  pub verification_mode : Option EventMode
  pub organizer_name : Option String
  pub address : Option String
  pub zones : Option (List CreateZone)

abbrev pub or_keep : {A : Type 0} → Option A → Option A → Option A
or_keep none old = old
or_keep (some a) old = some a

-- `Object.assign(event, { ...dto, zones })`
abbrev pub assign : UpdateEvent → List Zone → Event → Event
assign dto zones e = record e {
  name = get_or dto.name e.name;
  description = or_keep dto.description e.description;
  cover_image = or_keep dto.cover_image e.cover_image;
  start_time = get_or dto.start_time e.start_time;
  end_time = get_or dto.end_time e.end_time;
  registration_start = get_or dto.registration_start e.registration_start;
  registration_end = get_or dto.registration_end e.registration_end;
  verification_mode = get_or dto.verification_mode e.verification_mode;
  organizer_name = or_keep dto.organizer_name e.organizer_name;
  address = or_keep dto.address e.address;
  zones = zones;
}

abbrev pub save_event : Event → State → State
save_event e s = put_events (save Event.id e s.events) s

abbrev pub earliest_first : Event → Event → Bool
earliest_first a b = leb a.start_time b.start_time

abbrev pub has_status : Option EventStatus → Event → Bool
has_status none e = true
has_status (some st) e = event_status_eq e.status st

unfoldable pub find_all : (page limit : ℕ) → Option EventStatus → App (Page Event)
unfolding sort
find_all page limit status =
    gets (λ s. paged page limit (sort earliest_first (keep (has_status status) s.events)))

unfoldable pub find_one : (id : String) → App Event
find_one id = do
  found ← gets (λ s. find_id Event.id id s.events)
  or_throw found (not_found "活動不存在")

unfoldable pub remove : (id : String) → App (Unit {0})
unfolding find_one
remove id = do e ← find_one id; modify (λ s. put_events (remove_id Event.id e.id s.events) s)

module _ (w : World) where
  -- The zones of an event, each with an id that is new among those given out before it.
  abbrev pub create_zones :
      (event_id : String) → (taken : List String) → List CreateZone → List Zone
  create_zones event_id taken [] = []
  create_zones event_id taken (z ∷ rest) =
      let id = w.new_id taken in
      record {
        id = id;
        event_id = event_id;
        name = z.name;
        price = z.price;
        deposit_rate = z.deposit_rate;
        total_seats = z.total_seats;
      }
      ∷ create_zones event_id (id ∷ taken) rest

  abbrev pub zone_ids : List Event → List String
  zone_ids [] = []
  zone_ids (e ∷ rest) = map Zone.id e.zones ++ zone_ids rest

  abbrev pub new_event : CreateEvent → State → Event
  new_event dto s =
      let id = w.new_id (map Event.id s.events) in
      record {
        id = id;
        name = dto.name;
        description = dto.description;
        cover_image = dto.cover_image;
        start_time = dto.start_time;
        end_time = dto.end_time;
        registration_start = dto.registration_start;
        registration_end = dto.registration_end;
        status = draft;
        verification_mode = get_or dto.verification_mode EventMode.normal;
        organizer_name = dto.organizer_name;
        address = dto.address;
        zones = create_zones id (zone_ids s.events) dto.zones;
      }

  unfoldable pub create : CreateEvent → App Event
  create dto = do e ← gets (new_event dto); modify (save_event e); pure e

  -- `if (dto.zones)`: the old zones are deleted and new ones made.
  abbrev pub new_zones : Option (List CreateZone) → Event → State → List Zone
  new_zones none e s = e.zones
  new_zones (some zones) e s = create_zones e.id (zone_ids s.events) zones

  unfoldable pub update : (id : String) → UpdateEvent → App Event
  unfolding transaction
  update id dto = transaction (do
    found ← gets (λ s. find_id Event.id id s.events)
    e ← or_throw found (not_found "活動不存在")
    zones ← gets (new_zones dto.zones e)
    let e' = assign dto zones e
    modify (save_event e')
    pure e')
