-- ===== src/Auth.antt =====
-- auth/auth.service.ts: one-time passwords by phone, and registration.
pub mod Otp
pub mod Refinement
pub mod Tests
use blocktic_backend.Base.{
  ℕ, ◌+◌, ◌*◌, String, Bool, true, not, Option, none, some, ltb, leb, ◌==◌, nat_eq, string_eq,
  if◌then◌else◌, find_by, find_id, save, lookup, insert, without, map, is_none, truthy,
}
use blocktic_backend.Exec.{
  bad_request, conflict, pure, throw, gets, modify, throw_if, or_throw, ◌>>=◌, ◌>>◌,
}
use blocktic_backend.Entities.{Role, User}
use blocktic_backend.State.{World, State, OtpRecord, App, put_users}

abbrev pub mock_otp : String
mock_otp = "123456"

abbrev pub max_otp_attempts : ℕ
max_otp_attempts = 5

-- dto/verify-otp-response.dto.ts
pub record VerifyOtpResponse : Type 0 where
  pub token : String
  pub is_new_user : Bool
  pub user_id : String

abbrev pub put_otp : String → OtpRecord → State → State
put_otp phone r s = record s { otp_store = insert phone r s.otp_store }

abbrev pub delete_otp : String → State → State
delete_otp phone s = record s { otp_store = without phone s.otp_store }

-- `!record || record.expiresAt < Date.now()`
abbrev pub is_stale : ℕ → Option OtpRecord → Bool
is_stale now none = true
is_stale now (some r) = ltb r.expires_at now

abbrev pub attempts_of : Option OtpRecord → ℕ
attempts_of none = 0
attempts_of (some r) = r.attempts

abbrev pub bump : Option OtpRecord → OtpRecord
bump none = record { attempts = 1; expires_at = 0 }
bump (some r) = record r { attempts = r.attempts + 1 }

module _ (w : World) where
  unfoldable pub send_otp : (phone : String) → App String
  send_otp phone = do
    now ← gets (λ s. w.now s.trace)
    modify (put_otp phone (record { attempts = 0; expires_at = now + 5 * 60 * 1000 }))
    pure "OTP 已發送"

  -- The checks before the user is looked up: a counted attempt with the right code.
  unfoldable pub check_otp : (phone code : String) → App (Unit {0})
  check_otp phone code = do
    found ← gets (λ s. lookup phone s.otp_store)
    now ← gets (λ s. w.now s.trace)
    if is_stale now found then (modify (delete_otp phone) >> throw (bad_request "請先發送 OTP")) else do
      if leb max_otp_attempts (attempts_of found)
          then (modify (delete_otp phone) >> throw (bad_request "驗證次數過多，請重新發送 OTP"))
          else do
            modify (put_otp phone (bump found))
            throw_if (not (code == mock_otp)) (bad_request "OTP 驗證碼錯誤")
            modify (delete_otp phone)

  abbrev pub new_user : String → State → User
  new_user phone s = record {
    id = w.new_id (map User.id s.users);
    phone = phone;
    name = none;
    nickname = none;
    role = Role.user;
    person_id = none;
  }

  unfoldable pub find_or_create : String → App User
  find_or_create phone s = elim (find_by (λ (u : User). u.phone == phone) s.users) [
    | some u ↦ pure u s
    | none ↦ let u = new_user phone s in (do modify (put_users (save User.id u s.users)); pure u) s
  ]

  unfoldable pub verify_otp : (phone code : String) → App VerifyOtpResponse
  unfolding check_otp find_or_create ◌>>=◌
  verify_otp phone code = do
    check_otp phone code
    is_new ← gets (λ s. is_none (find_by (λ (u : User). u.phone == phone) s.users))
    u ← find_or_create phone
    pure (record { token = w.sign_user u.id u.role; is_new_user = is_new; user_id = u.id })

unfoldable pub register : (user_id name nickname : String) → App User
register user_id name nickname = do
  found ← gets (λ s. find_id User.id user_id s.users)
  u ← or_throw found (bad_request "使用者不存在")
  throw_if (truthy u.name) (conflict "使用者已完成註冊")
  let u' = record u { name = some name; nickname = some nickname }
  modify (λ s. put_users (save User.id u' s.users) s)
  pure u'
