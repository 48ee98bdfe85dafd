-- ===== src/Auth/Flows.antt =====
-- services/auth.py: the flows, as functions from the store to an answer with the new store.
use Prim.Native.String.{◌++◌ as append}
use project_firestarter.Prelude.{
  ◌≡◌, refl, ◌⊎◌, inl, inr, ℕ, String, String-Eq, ◌==◌, Bool, true, false, not, ◌&&◌, Option, none,
  some, ℤ, pos, ◌+ℤ◌, ltb_ℤ, leb_ℤ, scaled, if◌then◌else◌,
}
use project_firestarter.Auth.Model.{
  User, OtpChallenge, AuthSession, AuthResult, Settings, Stdlib, minutes, days, code_hash_of,
  token_hash_of,
}
use project_firestarter.Auth.Store.{
  AuthStore, get_user, create_user, truthy, find_user_by_identity, link_identity, put_challenge,
  get_challenge, clear_challenge, create_session, get_session, delete_session, link_device, hit,
  count, reset,
}

-- What a flow may raise: AuthError, RateLimited, or what the deliverer raised.
pub data Failure : Type 0 where
  auth_error : String → Failure
  rate_limited : String → Failure
  delivery_failed : Failure

pub data Answer (A : Type 0) : Type 0 where
  raised : Failure → Answer A
  answered : A → Answer A

pub Answer-cases :
    {A : Type 0} (a : Answer A) → ((f : Failure) × (a ≡ raised f)) ⊎ ((x : A) × (a ≡ answered x))
Answer-cases (raised f) = inl (f, refl)
Answer-cases (answered x) = inr (x, refl)

abbrev pub Flow : Type 0 → Type 0
Flow A = AuthStore → Answer A × AuthStore

abbrev pub after : {A B : Type 0} → Answer A × AuthStore → (A → Flow B) → Answer B × AuthStore
after (raised f, st) next = (raised f, st)
after (answered a, st) next = next a st

infixl 5 ◌>>=◌ ◌>>◌
abbrev pub ◌>>=◌ : {A B : Type 0} → Flow A → (A → Flow B) → Flow B
◌>>=◌ flow next st = after (flow st) next

abbrev pub ◌>>◌ : {A B : Type 0} → Flow A → Flow B → Flow B
flow >> next = flow >>= λ _. next

abbrev pub give : {A : Type 0} → Answer A → Flow A
give a st = (a, st)

-- A method of the store that returns something, or that only writes.
abbrev pub ask : {A : Type 0} → (AuthStore → A × AuthStore) → Flow A
ask m st = let (a, st1) = m st in (answered a, st1)

abbrev pub look : {A : Type 0} → (AuthStore → A) → Flow A
look m st = (answered (m st), st)

abbrev pub write : (AuthStore → AuthStore) → Flow (Unit {0})
write m st = (answered tt, m st)

abbrev pub raise_if : Bool → Failure → Flow (Unit {0})
raise_if test f st = (if test then raised f else answered tt, st)

-- The clock's readings of `request_otp` and of `verify_otp`, in their order.
pub record RequestClock : Type 0 where
  pub at_count : ℤ
  pub at_hit : ℤ
  pub at_stamp : ℤ
  pub at_issue : ℤ

pub record VerifyClock : Type 0 where
  pub at_count : ℤ
  pub at_check : ℤ
  pub at_hit : ℤ
  pub at_stamp : ℤ
  pub at_mint : ℤ

-- The keys of the two counters of an identifier.
abbrev pub req_bucket : String → String
req_bucket ident = append "req:" ident

abbrev pub fail_bucket : String → String
fail_bucket ident = append "fail:" ident

abbrev pub window_of : Settings → ℤ
window_of settings = scaled 60 settings.otp_window_min

-- What the deliverer answered, or that it raised.
abbrev pub delivery : Option Bool → Flow Bool
delivery none = give (raised delivery_failed)
delivery (some sent) = give (answered sent)

-- `challenge is None or challenge.expires_at < _now()`
unfoldable pub current_challenge : Option OtpChallenge → ℤ → Answer OtpChallenge
current_challenge none now = raised (auth_error "code expired or not found")
current_challenge (some c) now =
    if ltb_ℤ c.expires_at now then raised (auth_error "code expired or not found") else answered c

-- A wrong guess is counted, then refused.
unfoldable pub check_code : Settings → String → Bool → VerifyClock → Flow (Unit {0})
check_code settings ident true clock = give (answered tt)
check_code settings ident false clock = do
  ask (λ st. hit st (fail_bucket ident) (window_of settings) clock.at_hit clock.at_stamp)
  give (raised (auth_error "invalid code"))

abbrev pub only_if : Bool → String → Option String
only_if test ident = if test then some ident else none

-- The account of the identity: found, or created and linked.
unfoldable pub account : String → String → String → Option User → Flow User
account channel ident fresh (some user) = give (answered user)
account channel ident fresh none = do
  user ← ask (λ st.
      create_user st fresh (only_if (channel == "email") ident) (only_if (channel == "phone") ident)
        none)
  write (λ st. link_identity st channel ident user.id)
  give (answered user)

abbrev pub link_if : Option String → User → AuthStore → AuthStore
link_if none user st = st
link_if (some device_id) user st = link_device st device_id user.id

module _ (lib : Stdlib) where
  unfoldable pub normalize : String → String → Answer String
  normalize identifier channel =
      let ident = lib.strip identifier in
      if channel == "email"
      then (if not (lib.email_match (lib.lower ident))
          then raised (auth_error "invalid email address")
          else answered (lib.lower ident))
      else if channel == "phone"
      then (if not (lib.phone_match (lib.without_separators ident))
          then raised (auth_error "invalid phone number")
          else answered (lib.without_separators ident))
      else raised (auth_error "unsupported channel")

  abbrev pub challenge_of : Settings → String → String → String → ℤ → OtpChallenge
  challenge_of settings ident channel code now = record {
    identifier = ident;
    channel = channel;
    code_hash = code_hash_of lib settings.auth_secret ident code;
    expires_at = now +ℤ minutes settings.otp_ttl_min;
  }

  -- The random number and the deliverer's answer are arguments.
  unfoldable pub request_otp :
      Settings → String → String → RequestClock → ℕ → Option Bool → Flow (Option String)
  request_otp settings identifier channel clock number sent = do
    ident ← give (normalize identifier channel)
    requests ← ask (λ st. count st (req_bucket ident) (window_of settings) clock.at_count)
    raise_if (leb_ℤ settings.otp_max_requests (pos requests))
        (rate_limited "too many code requests; try again later")
    ask (λ st. hit st (req_bucket ident) (window_of settings) clock.at_hit clock.at_stamp)
    write (λ st.
        put_challenge st
          (challenge_of settings ident channel (lib.six_digits number) clock.at_issue))
    delivered ← delivery sent
    give (
        answered (
          if settings.expose_debug_otp && not delivered
          then some (lib.six_digits number)
          else none))

  abbrev pub session_of : Settings → User → Option String → String → ℤ → AuthSession
  session_of settings user device_id token now = record {
    token_hash = token_hash_of lib token;
    user_id = user.id;
    device_id = device_id;
    expires_at = now +ℤ days settings.session_ttl_days;
  }

  -- The token, 256 random bits as text, is an argument.
  unfoldable pub mint_session : Settings → User → Option String → String → ℤ → Flow String
  mint_session settings user device_id token now = do
    write (λ st. create_session st (session_of settings user device_id token now))
    give (answered token)

  -- What `verify_otp` does after the code was accepted.
  unfoldable pub log_in :
      Settings → String → String → Option String → VerifyClock → String → String → Flow AuthResult
  log_in settings ident channel device_id clock fresh token = do
    write (λ st. clear_challenge st ident)
    write (λ st. reset st (fail_bucket ident))
    found ← look (λ st. find_user_by_identity st channel ident)
    user ← account channel ident fresh found
    write (link_if (truthy device_id) user)
    minted ← mint_session settings user device_id token clock.at_mint
    give (answered (record { token = minted; user = user }))

  -- The new account's identifier and the token are arguments.
  unfoldable pub verify_otp :
      Settings
      → String
      → String
      → String
      → Option String
      → VerifyClock
      → String
      → String
      → Flow AuthResult
  verify_otp settings identifier channel code device_id clock fresh token = do
    ident ← give (normalize identifier channel)
    failures ← ask (λ st. count st (fail_bucket ident) (window_of settings) clock.at_count)
    raise_if (leb_ℤ settings.otp_max_attempts (pos failures))
        (rate_limited "too many attempts; try again later")
    found ← look (λ st. get_challenge st ident)
    challenge ← give (current_challenge found clock.at_check)
    check_code settings ident
        (challenge.code_hash == code_hash_of lib settings.auth_secret ident (lib.strip code)) clock
    log_in settings ident channel device_id clock fresh token

  -- An expired session is deleted when it is asked for.
  unfoldable pub resolve_session : String → ℤ → AuthStore → Option User × AuthStore
  resolve_session token now st =
      let key = token_hash_of lib token in
      elim (get_session st key) [
        | none ↦ (none, st)
        | some session ↦
            if ltb_ℤ session.expires_at now
            then (none, delete_session st key)
            else (get_user st session.user_id, st)
      ]

  unfoldable pub logout : String → AuthStore → AuthStore
  logout token st = delete_session st (token_hash_of lib token)
