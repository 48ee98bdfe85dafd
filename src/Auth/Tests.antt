-- ===== src/Auth/Tests.antt =====
-- Runs of the flows with stand-ins for Python's libraries, and the theorems applied to them.
use Prim.Native.String.{◌++◌ as append}
use project_firestarter.Prelude.{
  String-Eq, ◌≡◌, ◌⊎◌, refl, arith, true, false, List, [], ◌∷◌, none, some, pos, ◌≤ℤ◌, ◌<ℤ◌, ◌+ℤ◌,
  ◌-ℤ◌, lookup, insert, pop,
}
use project_firestarter.Auth.Model.{User, OtpChallenge, Settings, Stdlib, code_hash_of}
use project_firestarter.Auth.Store.{
  AuthStore, empty_store, get_challenge, hits, live, hit, count, reset, put_challenge,
  clear_challenge, create_user, link_identity, link_device, create_session, find_user_by_identity,
}
use project_firestarter.Auth.Flows.{
  answered, raised, rate_limited, Failure, RequestClock, VerifyClock, normalize, request_otp,
  verify_otp, resolve_session, logout, account, log_in, mint_session, check_code, current_challenge,
}
use project_firestarter.Auth.Login.{WellKeyed}
use project_firestarter.Auth.Outcomes.{verify_outcome, Refused, Current, Wrong, Accepted, failures}
use project_firestarter.Auth.Requests.{
  request_tells_code, request_tells_no_account, request_outcome, request_result, requests,
  request_counted, told, issued,
}
use project_firestarter.Auth.Tokens.{resolve-logout}
use project_firestarter.Auth.Codes.{code_used_once}
use project_firestarter.Auth.Accounts.{resolve-verify_otp}
use project_firestarter.Auth.Within.{all_called_within, WithinBudget}
use project_firestarter.Auth.Sessions.{
  Call, requests_otp, verifies_otp, logs_out, called, all_called,
}

abbrev stand_in : Stdlib
stand_in = record {
  strip = λ s. s;
  lower = λ s. s;
  email_match = λ s. true;
  without_separators = λ s. s;
  phone_match = λ s. true;
  six_digits = λ n. "123456";
  hmac_hex = λ k m. append k m;
  sha256_hex = λ s. append "h" s;
}

abbrev two_guesses : Settings
two_guesses = record {
  auth_secret = "k";
  otp_ttl_min = pos 10;
  otp_window_min = pos 15;
  otp_max_requests = pos 2;
  otp_max_attempts = pos 2;
  session_ttl_days = pos 30;
  expose_debug_otp = true;
}

abbrev at_start : RequestClock
at_start = record { at_count = pos 1; at_hit = pos 2; at_stamp = pos 3; at_issue = pos 4 }

abbrev soon : VerifyClock
soon = record {
  at_count = pos 10;
  at_check = pos 11;
  at_hit = pos 12;
  at_stamp = pos 13;
  at_mint = pos 14;
}

abbrev asked : List Call
asked = requests_otp "a@b.c" "email" at_start 7 (some false) ∷ []

-- One code requested, one wrong guess, then the code.
abbrev guessed : List Call
guessed =
    requests_otp "a@b.c" "email" at_start 7 (some false)
    ∷ verifies_otp "a@b.c" "email" "000000" none soon "u1" "t1"
    ∷ []

abbrev account_a : User
account_a = record { id = "u1"; email = some "a@b.c"; phone = none; display_name = none }

empty_keyed : WellKeyed empty_store
unfolding lookup
empty_keyed k u h = cc

abbrev asked_store : AuthStore
asked_store = all_called stand_in two_guesses asked empty_store

abbrev guessed_store : AuthStore
guessed_store = all_called stand_in two_guesses guessed empty_store

wrong_then_right :
    (verify_otp stand_in two_guesses "a@b.c" "email" "123456"
      (some "d")
      soon
      "u1"
      "t1"
      guessed_store).0
    ≡ answered (record { token = "t1"; user = account_a })
unfolding all_called called request_otp verify_otp normalize count live hit put_challenge
    get_challenge current_challenge check_code log_in account mint_session create_user link_identity
    find_user_by_identity create_session reset clear_challenge hits lookup insert pop code_hash_of
    link_device ◌+ℤ◌ ◌-ℤ◌
wrong_then_right = refl

normal_a : normalize stand_in "a@b.c" "email" ≡ answered "a@b.c"
unfolding normalize
normal_a = refl

empty_within : WithinBudget stand_in two_guesses "a@b.c" empty_store
unfolding hits lookup
empty_within = (omega arith, omega arith)

all_called_within_example : WithinBudget stand_in two_guesses "a@b.c" guessed_store
all_called_within_example =
    all_called_within stand_in two_guesses "a@b.c" guessed empty_store empty_within

verify_outcome_example :
    Refused stand_in two_guesses "a@b.c" "email" "123456"
      (some "d")
      soon
      "u1"
      "t1"
      "a@b.c"
      guessed_store
    ⊎ ((pos (
            failures stand_in two_guesses "a@b.c" "email" "123456"
              (some "d")
              soon
              "u1"
              "t1"
              "a@b.c"
              guessed_store)
          <ℤ pos 2)
        × ((c : OtpChallenge) × Current stand_in two_guesses "a@b.c" "email" "123456"
              (some "d")
              soon
              "u1"
              "t1"
              "a@b.c"
              guessed_store
              c
            × (Wrong stand_in two_guesses "a@b.c" "email" "123456"
                  (some "d")
                  soon
                  "u1"
                  "t1"
                  "a@b.c"
                  guessed_store
                  c
                ⊎ Accepted stand_in two_guesses "a@b.c" "email" "123456"
                    (some "d")
                    soon
                    "u1"
                    "t1"
                    "a@b.c"
                    guessed_store
                    c)))
verify_outcome_example =
    verify_outcome stand_in two_guesses "a@b.c" "email" "123456" (some "d") soon "u1" "t1" "a@b.c"
      guessed_store normal_a

request_outcome_example :
    ((pos 2
        ≤ℤ pos (
            requests stand_in two_guesses "a@b.c" "email" at_start 7
              (some false)
              "a@b.c"
              asked_store))
      × (request_result stand_in two_guesses "a@b.c" "email" at_start 7 (some false) asked_store ≡ (
        raised (rate_limited "too many code requests; try again later"),
        request_counted stand_in two_guesses "a@b.c" "email" at_start 7
            (some false)
            "a@b.c"
            asked_store,
      )))
    ⊎ ((pos (
            requests stand_in two_guesses "a@b.c" "email" at_start 7
              (some false)
              "a@b.c"
              asked_store)
          <ℤ pos 2)
        × (request_result stand_in two_guesses "a@b.c" "email" at_start 7 (some false) asked_store
            ≡ (
              told stand_in two_guesses "a@b.c" "email" at_start 7
                  (some false)
                  "a@b.c"
                  asked_store
                  (some false),
              issued stand_in two_guesses "a@b.c" "email" at_start 7
                  (some false)
                  "a@b.c"
                  asked_store,
            )))
request_outcome_example =
    request_outcome stand_in two_guesses "a@b.c" "email" at_start 7 (some false) "a@b.c" asked_store
      normal_a

shown :
    (request_result stand_in two_guesses "a@b.c" "email" at_start 7 (some false) empty_store).0
    ≡ answered (some "123456")
unfolding all_called called request_otp verify_otp normalize count live hit put_challenge
    get_challenge current_challenge check_code log_in account mint_session create_user link_identity
    find_user_by_identity create_session reset clear_challenge hits lookup insert pop code_hash_of
    link_device ◌+ℤ◌ ◌-ℤ◌
shown = refl

request_tells_code_example :
    (two_guesses.expose_debug_otp ≡ true)
    × (some false ≡ some false)
    × ("123456" ≡ stand_in.six_digits 7)
request_tells_code_example =
    request_tells_code stand_in two_guesses "a@b.c" "email" at_start 7 (some false) empty_store
      "123456" shown

abbrev with_account : AuthStore
with_account = record empty_store { users = ("u1", account_a) ∷ [] }

request_tells_no_account_example :
    (request_result stand_in two_guesses "a@b.c" "email" at_start 7 (some false) empty_store).0
    ≡ (request_result stand_in two_guesses "a@b.c" "email" at_start 7 (some false) with_account).0
request_tells_no_account_example =
    request_tells_no_account stand_in two_guesses "a@b.c" "email" at_start 7 (some false)
      empty_store with_account refl

abbrev another_guess : List Call
another_guess = verifies_otp "a@b.c" "email" "000000" none soon "u1" "t2" ∷ logs_out "t1" ∷ []

code_used_once_example :
    (f : Failure) × ((verify_otp stand_in two_guesses "a@b.c" "email" "123456" none soon "u1" "t2" (
        all_called stand_in two_guesses another_guess
          (verify_otp stand_in two_guesses "a@b.c" "email" "123456"
            (some "d")
            soon
            "u1"
            "t1"
            guessed_store).1)).0
      ≡ raised f)
code_used_once_example =
    code_used_once stand_in two_guesses "a@b.c" another_guess guessed_store "a@b.c" "email" "123456"
      (some "d") soon "u1" "t1" "a@b.c" "email" "123456" none soon "u1" "t2" normal_a normal_a
      wrong_then_right (tt, (tt, tt))

resolve-verify_otp_example :
    (resolve_session stand_in "t1"
      (pos 1000)
      (verify_otp stand_in two_guesses "a@b.c" "email" "123456"
        (some "d")
        soon
        "u1"
        "t1"
        guessed_store).1).0
    ≡ some account_a
unfolding ◌+ℤ◌
resolve-verify_otp_example =
    resolve-verify_otp stand_in two_guesses guessed empty_store "a@b.c" "email" "123456" (some "d")
      soon "u1" "t1" (pos 1000) empty_keyed wrong_then_right (omega arith)

resolve-logout_example :
    (resolve_session stand_in "t1" (pos 1000) (logout stand_in "t1" guessed_store)).0 ≡ none
resolve-logout_example = resolve-logout stand_in "t1" (pos 1000) guessed_store
