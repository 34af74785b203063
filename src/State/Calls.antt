-- ===== src/State/Calls.antt =====
-- The calls that leave the program: ECPay, the contracts on Polygon, CompreFace and Rekognition.
-- A trace lists them, the newest first; what each of them returns is the world's choice.
use blocktic_backend.Base.{
  ℕ, String, Bool, Option, List, leb, ◌&&◌, ltb, ◌≡◌, ◌≢◌, refl, ◌⊎◌, inl, inr,
}

pub data DoAction : Type 0 where
  capture refund cancel void : DoAction

pub data Call : Type 0 where
  -- POST /CreditDetail/DoAction with MerchantTradeNo, TradeNo, Action, TotalAmount, CheckMacValue
  ecpay_do_action :
      (merchant_trade_no trade_no : String) → DoAction → (amount : ℕ) → (mac : String) → Call
  -- BlockTicSBT.mint, burn, recordDraw and balanceOf
  sbt_mint sbt_burn : (wallet : String) → (token : ℕ) → Call
  sbt_record_draw : (event zone request seed : ℕ) → (winners : List String) → Call
  sbt_balance_of : (wallet : String) → (token : ℕ) → Call
  -- SimpleAccountFactory.getAddress(owner, salt)
  factory_get_address : (salt : String) → Call
  -- the VRF consumer's requestRandomWords, lastRequestId and getRequestResult
  vrf_request vrf_last_request_id : Call
  vrf_get_request_result : ℕ → Call
  sleep : (ms : ℕ) → Call
  rekognition_detect_faces : (image : String) → Call
  compreface_verify : (source target : String) → Call
  compreface_recognize : (image : String) → Call
  compreface_add_face : (subject image : String) → Call
  compreface_delete_face : (subject : String) → Call
  compreface_delete_subject : (subject : String) → Call

abbrev pub Trace : Type 0
Trace = List Call

-- What `fetch` gives: it rejects (a network error, or the timeout's abort), or it resolves with a
-- status and the body as parsed.
pub data HttpReply (A : Type 0) : Type 0 where
  rejected : HttpReply A
  response : (status : ℕ) → (body : A) → HttpReply A

-- `response.ok`
abbrev pub is_ok : ℕ → Bool
is_ok status = leb 200 status && ltb status 300

-- `tx.wait()` after sending: the send throws, the receipt is null, or the hash of the receipt.
pub data TxReply : Type 0 where
  tx_error : String → TxReply
  no_receipt : TxReply
  mined : (hash : String) → TxReply

-- The hash of a reply, where there is one.
pub TxReply-cases :
    (r : TxReply) → ((hash : String) → r ≢ mined hash) ⊎ ((hash : String) × (r ≡ mined hash))
TxReply-cases (tx_error m) = inl (λ h. cc)
TxReply-cases no_receipt = inl (λ h. cc)
TxReply-cases (mined h) = inr (h, refl)

pub record EyesOpen : Type 0 where
  pub value : Bool
  pub confidence : Option ℕ

-- A FaceDetail of Rekognition. Confidences and qualities are numbers of hundredths.
pub record FaceDetail : Type 0 where
  pub confidence : Option ℕ
  pub sharpness : Option ℕ
  pub brightness : Option ℕ
  pub eyes_open : Option EyesOpen

pub record SubjectMatch : Type 0 where
  pub subject : String
  pub similarity : ℕ
