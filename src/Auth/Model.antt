-- ===== src/Auth/Model.antt =====
-- models/auth.py, the settings of core/config.py that the flows read, and what the flows take from
-- Python's libraries. A datetime is an integer of microseconds.
use Prim.Native.String.{◌++◌ as append}
use project_firestarter.Prelude.{ℕ, String, Bool, Option, ℤ, scaled}

pub record User : Type 0 where
  pub id : String
  pub email : Option String
  pub phone : Option String
  pub display_name : Option String

pub record OtpChallenge : Type 0 where
  pub identifier : String
  pub channel : String
  pub code_hash : String
  pub expires_at : ℤ

pub record AuthSession : Type 0 where
  pub token_hash : String
  pub user_id : String
  pub device_id : Option String
  pub expires_at : ℤ

pub record AuthResult : Type 0 where
  pub token : String
  pub user : User

-- Without the fields for SMTP, which only the deliverer reads.
pub record Settings : Type 0 where
  pub auth_secret : String
  pub otp_ttl_min : ℤ
  pub otp_window_min : ℤ
  pub otp_max_requests : ℤ
  pub otp_max_attempts : ℤ
  pub session_ttl_days : ℤ
  pub expose_debug_otp : Bool

-- `timedelta`
abbrev pub seconds : ℤ → ℤ
seconds n = scaled 1000000 n

abbrev pub minutes : ℤ → ℤ
minutes n = scaled 60000000 n

abbrev pub days : ℤ → ℤ
days n = scaled 86400000000 n

-- The string methods and regular expressions of `normalize` and `verify_otp`, the formatting of a
-- number as six digits, HMAC-SHA256 and SHA-256 as hexadecimal text.
pub record Stdlib : Type 0 where
  pub strip : String → String
  pub lower : String → String
  pub email_match : String → Bool
  pub without_separators : String → String
  pub phone_match : String → Bool
  pub six_digits : ℕ → String
  pub hmac_hex : String → String → String
  pub sha256_hex : String → String

module _ (lib : Stdlib) where
  -- `_code_hash` and `_token_hash`
  unfoldable pub code_hash_of : String → String → String → String
  code_hash_of secret identifier code = lib.hmac_hex secret (append identifier (append ":" code))

  unfoldable pub token_hash_of : String → String
  token_hash_of token = lib.sha256_hex token
