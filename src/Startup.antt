-- ===== src/Startup.antt =====
-- What the services read of the environment when they are built: onModuleInit of
-- blockchain/blockchain.service.ts, and the constructors of ticketing/ticketing.service.ts,
-- identity/identity.service.ts and gate-verification/gate-verification.service.ts.
use Prim.Native.String.{slice}
use blocktic_backend.Base.{
  ℕ, String, Bool, true, not, ◌&&◌, ◌||◌, Option, none, some, ◌<>◌, ◌==◌, string_eq, get_or, truthy,
}
use blocktic_backend.Exec.{Exec, failure, pure, gets, or_throw, throw_if, ◌>>=◌}
use blocktic_backend.State.{Config}

-- `process.env`
abbrev pub Env : Type 0
Env = String → Option String

abbrev pub Start : Type 0 → Type 0
Start A = Exec Env A

-- ConfigService's get, getOrThrow, and get with a default
abbrev pub get : (key : String) → Start (Option String)
get key = gets (λ env. env key)

abbrev pub get_or_throw : (key : String) → Start String
get_or_throw key = get key >>= λ value.
    or_throw value (failure ("Configuration key \"" <> key <> "\" does not exist"))

abbrev pub get_default : (key default : String) → Start String
get_default key default = get key >>= λ value. pure (get_or value default)

-- `!key || key.startsWith('your-')`
abbrev pub is_placeholder : Option String → Bool
is_placeholder none = true
is_placeholder (some key) = key == "" || slice key 0 5 == "your-"

-- What the packages do with the values: whether the constructors of ethers return, and the number
-- that JavaScript compares a text as, times a scale.
pub record Packages : Type 0 where
  pub connects : (rpc_url private_key sbt factory vrf_consumer : String) → Bool
  pub scaled : (scale : ℕ) → (text : String) → ℕ

-- The fields of TicketingService and IdentityService that come from the environment.
pub record EcpaySettings : Type 0 where
  pub merchant_id : String
  pub hash_key : String
  pub hash_iv : String
  pub return_url : String
  pub is_prod : Bool

pub record FaceSettings : Type 0 where
  pub has_rekognition : Bool
  pub face_match : ℕ
  pub liveness_confidence : ℕ
  pub liveness_sharpness : ℕ
  pub liveness_brightness : ℕ

module _ (p : Packages) where
  -- BlockchainService.initialized after onModuleInit
  unfoldable pub on_module_init : Start Bool
  on_module_init = do
    rpc_url ← get_or_throw "POLYGON_RPC_URL"
    private_key ← get "POLYGON_PRIVATE_KEY"
    sbt_address ← get_or_throw "SBT_CONTRACT_ADDRESS"
    factory_address ← get_or_throw "WALLET_FACTORY_ADDRESS"
    vrf_consumer_address ← get_or_throw "VRF_COORDINATOR_ADDRESS"
    pure (
        not (is_placeholder private_key)
        && p.connects rpc_url (get_or private_key "") sbt_address factory_address
            vrf_consumer_address)

  -- `get<number>(key, default)`: a value of the environment is a text, which comparisons read as a
  -- number; the default is given scaled.
  abbrev pub get_number : (key : String) → (scale default : ℕ) → Start ℕ
  get_number key scale default =
      get key >>= λ value. pure (elim value [ none ↦ default | some text ↦ p.scaled scale text ])

  -- The constructor of TicketingService, and which of ECPay's servers it picks.
  unfoldable pub ticketing_settings : Start EcpaySettings
  ticketing_settings = do
    merchant_id ← get_or_throw "ECPAY_MERCHANT_ID"
    hash_key ← get_or_throw "ECPAY_HASH_KEY"
    hash_iv ← get_or_throw "ECPAY_HASH_IV"
    return_url ← get_or_throw "ECPAY_RETURN_URL"
    node_env ← get "NODE_ENV"
    pure (record {
      merchant_id = merchant_id;
      hash_key = hash_key;
      hash_iv = hash_iv;
      return_url = return_url;
      is_prod = get_or node_env "" == "production";
    })

  -- The constructor of IdentityService; GateVerificationService reads the first threshold again.
  unfoldable pub identity_settings : Start FaceSettings
  identity_settings = do
    aws_key ← get_default "AWS_ACCESS_KEY_ID" ""
    face ← get_number "FACE_MATCH_THRESHOLD" 10000 8500
    confidence ← get_number "LIVENESS_CONFIDENCE_THRESHOLD" 100 9000
    sharpness ← get_number "LIVENESS_SHARPNESS_THRESHOLD" 100 3000
    brightness ← get_number "LIVENESS_BRIGHTNESS_THRESHOLD" 100 2000
    pure (record {
      has_rekognition = not (is_placeholder (some aws_key));
      face_match = face;
      liveness_confidence = confidence;
      liveness_sharpness = sharpness;
      liveness_brightness = brightness;
    })

  -- What the services then know of their environment.
  unfoldable pub configure : Start Config
  unfolding on_module_init ticketing_settings identity_settings
  configure = do
    initialized ← on_module_init
    ecpay ← ticketing_settings
    faces ← identity_settings
    pure (record {
      ecpay_merchant_id = ecpay.merchant_id;
      ecpay_hash_key = ecpay.hash_key;
      ecpay_hash_iv = ecpay.hash_iv;
      ecpay_return_url = ecpay.return_url;
      is_prod = ecpay.is_prod;
      chain_initialized = initialized;
      has_rekognition = faces.has_rekognition;
      face_match_threshold = faces.face_match;
      liveness_confidence_threshold = faces.liveness_confidence;
      liveness_sharpness_threshold = faces.liveness_sharpness;
      liveness_brightness_threshold = faces.liveness_brightness;
    })

-- The keys that GateVerificationModule asks for: `if (!privateKey || !publicKey) throw`
abbrev pub has_qr_keys : Env → Bool
has_qr_keys env = truthy (env "JWT_PRIVATE_KEY") && truthy (env "JWT_PUBLIC_KEY")

unfoldable pub qr_keys : Start (Unit {0})
qr_keys env =
    throw_if (not (has_qr_keys env))
      (failure "JWT_PRIVATE_KEY and JWT_PUBLIC_KEY must be set for QR token signing.") env
