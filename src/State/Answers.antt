-- ===== src/State/Answers.antt =====
-- What the program gets from outside, as functions of the calls made so far: an answer may depend
-- on the whole history and on the call. Hash functions are functions of their text.
use blocktic_backend.Base.{find_by, ◌==◌, string_eq, ◌≡◌, none, ℕ, String, Bool, Option, List}
use blocktic_backend.Entities.{Role}
use blocktic_backend.State.Calls.{Call, Trace, HttpReply, TxReply, FaceDetail, SubjectMatch}

pub record QrPayload : Type 0 where
  pub sub : String
  pub nonce : String
  pub iat : ℕ

pub record LocalTime : Type 0 where
  pub year : ℕ
  pub month : ℕ  -- getMonth() + 1
  pub date : ℕ
  pub hours : ℕ
  pub minutes : ℕ
  pub seconds : ℕ

pub record World : Type 0 where
  -- Date.now(), in milliseconds
  pub now : Trace → ℕ
  -- a primary key that PostgreSQL generates, given the keys of the table
  pub new_id : List String → String
  -- uuidv4(), randomBytes(16) and the random part of a trade number
  pub random : Trace → String
  -- createHash('sha256')…digest('hex'), and readUInt32BE(0) of the digest
  pub sha256 : String → String
  pub sha256_u32 : String → ℕ
  pub keccak256 : String → String
  -- a.localeCompare(b) <= 0, and the same of both texts in lower case
  pub locale_le : String → String → Bool
  pub key_le : String → String → Bool
  -- a <= b by UTF-16 code units, the order of `sort()` with no argument
  pub code_unit_le : String → String → Bool
  -- jwtService.verify: the payload of a token whose signature and expiry pass
  pub jwt_verify : Trace → String → Option QrPayload
  -- jwtService.sign of { sub, role }, and of { sub, nonce } for the QR code
  pub sign_user : String → Role → String
  pub sign_qr : Trace → (sub nonce : String) → String
  -- a date in the server's time zone, toISOString, and toFixed(2) of a similarity
  pub local_time : ℕ → LocalTime
  pub iso_string : ℕ → String
  pub to_fixed : ℕ → String
  -- whether PostgreSQL takes the text for a uuid
  pub is_uuid : String → Bool
  -- every transaction that the platform's key signs
  pub transact : Trace → Call → TxReply
  -- the contract reads; none where the call throws
  pub balance_of : Trace → Call → Option ℕ
  pub counterfactual : Trace → Call → Option String
  pub last_request_id : Trace → Option ℕ
  pub request_result : Trace → ℕ → Option (Bool × ℕ)
  -- the HTTP services
  pub ecpay : Trace → Call → HttpReply (Unit {0})
  pub detect_faces : Trace → Call → Option (Option (List FaceDetail))
  pub verify_faces : Trace → Call → HttpReply (Option ℕ)
  pub recognize : Trace → Call → HttpReply (List SubjectMatch)
  pub add_face : Trace → Call → HttpReply (Unit {0})
  pub delete_face : Trace → Call → HttpReply (Unit {0})

-- The environment variables that the services read in their constructors.
pub record Config : Type 0 where
  pub ecpay_merchant_id : String
  pub ecpay_hash_key : String
  pub ecpay_hash_iv : String
  pub ecpay_return_url : String
  pub is_prod : Bool
  -- whether BlockchainService.onModuleInit reached its end
  pub chain_initialized : Bool
  -- whether IdentityService has a Rekognition client
  pub has_rekognition : Bool
  pub face_match_threshold : ℕ
  pub liveness_confidence_threshold : ℕ
  pub liveness_sharpness_threshold : ℕ
  pub liveness_brightness_threshold : ℕ

-- PostgreSQL gives a new row a key that no row of the table has.
abbrev pub FreshIds : World → Type 0
FreshIds w = (ids : List String) → find_by (λ id. id == w.new_id ids) ids ≡ none
