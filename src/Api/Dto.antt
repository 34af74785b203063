-- ===== src/Api/Dto.antt =====
-- The request bodies of */dto with the tests of their decorators. A field has the type that its
-- decorators ask for; the tests say what else a body needs. Numbers are natural numbers.
use Prim.Native.Char.{code}
use Prim.Native.String.{count, slice}
use blocktic_backend.Base.{
  ℕ, String, Bool, true, not, ◌&&◌, Option, none, some, List, [], ◌∷◌, leb, ◌==◌, nat_eq, string_eq,
  length, get_or,
}
use blocktic_backend.Entities.{EventStatus, AuditAction}
use blocktic_backend.Lottery.{RegisterLottery}
use blocktic_backend.Seats.{AllocateSeats}
use blocktic_backend.Identity.{SubmitKyc}
use blocktic_backend.Audit.{AuditQuery}
use blocktic_backend.Events.{CreateZone, CreateEvent, UpdateEvent}
use blocktic_backend.Api.Http.{Web}

pub record SendOtp : Type 0 where
  pub phone : String

pub record VerifyOtp : Type 0 where
  pub phone : String
  pub code : String

pub record Register : Type 0 where
  pub name : String
  pub nickname : String

pub record Preauth : Type 0 where
  pub user_id : String
  pub amount : ℕ
  pub return_url : String

pub record GenerateQr : Type 0 where
  pub ticket_id : String

pub record VerifyEntry : Type 0 where
  pub qr_token : String
  pub face_photo : Option String
  pub gate_id : String
  pub staff_id : String

pub record FallbackVerify : Type 0 where
  pub government_id_number : String
  pub event_id : String
  pub gate_id : String
  pub staff_id : String

pub record EventQuery : Type 0 where
  pub page : Option ℕ
  pub limit : Option ℕ
  pub status : Option EventStatus

pub record NotificationQuery : Type 0 where
  pub page : Option ℕ
  pub limit : Option ℕ

pub record AuditLogQuery : Type 0 where
  pub page : Option ℕ
  pub limit : Option ℕ
  pub event_id : Option String
  pub action : Option AuditAction

-- `page = 1` and `limit = 20` of the query DTOs
abbrev pub page_or : Option ℕ → ℕ
page_or page = get_or page 1

abbrev pub limit_or : Option ℕ → ℕ
limit_or limit = get_or limit 20

abbrev pub audit_query : AuditLogQuery → AuditQuery
audit_query q = record {
  page = page_or q.page;
  limit = limit_or q.limit;
  event_id = q.event_id;
  action = q.action;
}

-- `@IsNotEmpty()` of a text, `@MaxLength(n)`, `@Min(lo)` with `@Max(hi)`, and `@IsOptional()`
abbrev pub not_empty : String → Bool
not_empty s = not (s == "")

abbrev pub max_length : ℕ → String → Bool
max_length n s = leb (count s) n

abbrev pub in_range : (lo hi : ℕ) → ℕ → Bool
in_range lo hi n = leb lo n && leb n hi

abbrev pub if_given : {A : Type 0} → (A → Bool) → Option A → Bool
if_given p none = true
if_given p (some a) = p a

abbrev pub all_of : {A : Type 0} → (A → Bool) → List A → Bool
all_of p [] = true
all_of p (a ∷ rest) = p a && all_of p rest

unfoldable pub digits : String → Bool
digits String.[] = true
digits (String.◌∷◌ c s) = leb b'0' (code c) && leb (code c) b'9' && digits s

-- `/^09\d{8}$/`
abbrev pub is_phone : String → Bool
is_phone s = slice s 0 2 == "09" && count s == 10 && digits s

abbrev pub accepts_send_otp : SendOtp → Bool
accepts_send_otp dto = not_empty dto.phone && is_phone dto.phone

abbrev pub accepts_verify_otp : VerifyOtp → Bool
accepts_verify_otp dto =
    not_empty dto.phone && is_phone dto.phone && not_empty dto.code && count dto.code == 6

abbrev pub accepts_register : Register → Bool
accepts_register dto =
    not_empty dto.name
    && max_length 50 dto.name
    && not_empty dto.nickname
    && max_length 50 dto.nickname

abbrev pub accepts_preauth : Web → Preauth → Bool
accepts_preauth web dto =
    not_empty dto.user_id
    && web.is_uuid dto.user_id
    && leb 1 dto.amount
    && not_empty dto.return_url
    && web.is_url dto.return_url

abbrev pub accepts_generate_qr : Web → GenerateQr → Bool
accepts_generate_qr web dto = web.is_uuid dto.ticket_id

abbrev pub accepts_verify_entry : Web → VerifyEntry → Bool
accepts_verify_entry web dto =
    not_empty dto.qr_token
    && if_given web.is_base64 dto.face_photo
    && not_empty dto.gate_id
    && not_empty dto.staff_id

abbrev pub accepts_fallback_verify : FallbackVerify → Bool
accepts_fallback_verify dto =
    not_empty dto.government_id_number
    && not_empty dto.event_id
    && not_empty dto.gate_id
    && not_empty dto.staff_id

abbrev pub accepts_page : (page limit : Option ℕ) → Bool
accepts_page page limit = if_given (leb 1) page && if_given (in_range 1 100) limit

abbrev pub accepts_audit_query : Web → AuditLogQuery → Bool
accepts_audit_query web q = accepts_page q.page q.limit && if_given web.is_uuid q.event_id

abbrev pub accepts_register_lottery : RegisterLottery → Bool
accepts_register_lottery dto = not_empty dto.zone_id && in_range 1 8 dto.group_size

abbrev pub accepts_allocate_seats : Web → AllocateSeats → Bool
accepts_allocate_seats web dto =
    not_empty dto.user_id
    && web.is_uuid dto.user_id
    && in_range 1 8 dto.group_size
    && not_empty dto.zone_id

abbrev pub max_image_length : ℕ
max_image_length = 14000000

abbrev pub accepts_submit_kyc : SubmitKyc → Bool
accepts_submit_kyc dto =
    not_empty dto.id_card_image
    && max_length max_image_length dto.id_card_image
    && not_empty dto.selfie_image
    && max_length max_image_length dto.selfie_image

-- The deposit rate is in hundredths.
abbrev pub accepts_create_zone : CreateZone → Bool
accepts_create_zone z =
    not_empty z.name && max_length 50 z.name && in_range 0 100 z.deposit_rate && leb 1 z.total_seats

-- `@ArrayMinSize(1)` with `@ValidateNested({ each: true })`
abbrev pub accepts_zones : List CreateZone → Bool
accepts_zones zones = leb 1 (length zones) && all_of accepts_create_zone zones

abbrev pub accepts_name : String → Bool
accepts_name name = not_empty name && max_length 200 name

abbrev pub accepts_create_event : CreateEvent → Bool
accepts_create_event dto =
    accepts_name dto.name
    && if_given (max_length 500) dto.cover_image
    && if_given (max_length 100) dto.organizer_name
    && if_given (max_length 300) dto.address
    && accepts_zones dto.zones

-- `PartialType(CreateEventDto)`: the same tests of what is given.
abbrev pub accepts_update_event : UpdateEvent → Bool
accepts_update_event dto =
    if_given accepts_name dto.name
    && if_given (max_length 500) dto.cover_image
    && if_given (max_length 100) dto.organizer_name
    && if_given (max_length 300) dto.address
    && if_given accepts_zones dto.zones
