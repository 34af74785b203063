-- ===== src/Samples.antt =====
-- A world and a configuration at which the tests and examples run.
use blocktic_backend.Base.{
  ℕ, zero, suc, ◌+◌, String, true, false, not, ◌≡◌, refl, none, some, List, [], ◌∷◌, ◌<>◌, ◌==◌,
  nat_eq, string_eq, if◌then◌else◌, find_by, repeat, ◌<◌, arith, ap, eq_iff, Bool-cases, inl, inr,
}
use Prim.Native.String.{count}
use text.Mathlib.TextLemmas.{length-append}
use blocktic_backend.Entities.{Ticket, preauthorized, paid, Person, KycStatus}
use blocktic_backend.State.{World, Config, Trace, State, Db, mined, response, FreshIds, sleep}

-- Ids are "x", "xx", …, longer than all that are taken.
abbrev pub longest : List String → ℕ
longest [] = 0
longest (s ∷ rest) = count s + longest rest

-- The clock advances by the sleeps alone.
abbrev pub slept : Trace → ℕ
slept [] = 1000000
slept (sleep ms ∷ t) = ms + slept t
slept (c ∷ t) = slept t

abbrev pub world : World
world = record {
  now = slept;
  new_id = λ ids. repeat (suc (longest ids)) "x";
  random = λ t. "r";
  sha256 = λ s. s;
  sha256_u32 = λ s. 7;
  keccak256 = λ s. s;
  locale_le = λ a b. true;
  key_le = λ a b. true;
  code_unit_le = λ a b. true;
  jwt_verify = λ t token.
      if token == "qr" then some (record { sub = "t1"; nonce = "n1"; iat = 1000 }) else none;
  sign_user = λ id role. "jwt " <> id;
  sign_qr = λ t sub nonce. "qr";
  local_time =
      λ now. record { year = 2026; month = 3; date = 15; hours = 9; minutes = 5; seconds = 7 };
  iso_string = λ now. "2026-03-15T09:05:07.000Z";
  to_fixed = λ n. "0.50";
  is_uuid = λ s. not (s == "unknown");
  transact = λ t c. mined "0xabc";
  balance_of = λ t c. some 1;
  counterfactual = λ t c. some "0xwallet";
  last_request_id = λ t. some 5;
  request_result = λ t id. some (true, 77);
  ecpay = λ t c. response 200 tt;
  detect_faces = λ t c. some none;
  verify_faces = λ t c. response 200 (some 9000);
  recognize = λ t c. response 200 [];
  add_face = λ t c. response 201 tt;
  delete_face = λ t c. response 200 tt;
}

abbrev pub config : Config
config = record {
  ecpay_merchant_id = "3002607";
  ecpay_hash_key = "key";
  ecpay_hash_iv = "iv";
  ecpay_return_url = "https://example.org/callback";
  is_prod = false;
  chain_initialized = true;
  has_rekognition = false;
  face_match_threshold = 8500;
  liveness_confidence_threshold = 9000;
  liveness_sharpness_threshold = 3000;
  liveness_brightness_threshold = 2000;
}

abbrev pub empty_db : Db
empty_db = record {
  users = [];
  persons = [];
  entries = [];
  draw_results = [];
  seats = [];
  tickets = [];
  gate_logs = [];
  audit_logs = [];
  notifications = [];
  events = [];
}

abbrev pub state_of : Db → State
state_of db = record { db = db; otp_store = []; nonces = []; trace = [] }

abbrev pub paid_ticket : Ticket
paid_ticket = record {
  id = "t1";
  event_id = "e1";
  user_id = "u1";
  seat_id = none;
  status = paid;
  sbt_token_id = none;
  aa_wallet_address = none;
  tx_hash = none;
  amount = 1500;
  preauth_trade_no = some "BT1";
  ecpay_trade_no = none;
  paid_at = some 5;
  minted_at = none;
  refunded_at = none;
  created_at = 1;
}

abbrev pub held_ticket : Ticket
held_ticket = record paid_ticket { id = "t2"; status = preauthorized; paid_at = none }

abbrev pub known_person : Person
known_person = record {
  id = "u1";
  person_id_hash = some "A123";
  kyc_status = KycStatus.approved;
  face_embedding_ref = some "u1";
  aa_wallet_address = some "0xwallet";
  kyc_attestation_tx_hash = some "0xabc";
  consent_recorded_at = some 1;
}

abbrev pub two_tickets : State
two_tickets =
    state_of
      (record empty_db { tickets = paid_ticket ∷ held_ticket ∷ []; persons = known_person ∷ [] })

count-repeat : (n : ℕ) → count (repeat n "x") ≡ n
count-repeat zero = refl
count-repeat (suc n) = omega (arith, length-append "x" (repeat n "x"), count-repeat n)

absent :
    (k : String) (ids : List String) → longest ids < count k → find_by (λ id. id == k) ids ≡ none
absent k [] h = refl
absent k (s ∷ rest) h = elim (Bool-cases (s == k)) [
  | inl same ↦ absurd (omega (arith, ap count ((eq_iff s k).0 same)))
  | inr other ↦ rw other (absent k rest (omega arith))
]

pub fresh_world : FreshIds world
fresh_world ids =
    absent (repeat (suc (longest ids)) "x") ids (omega (arith, count-repeat (suc (longest ids))))
