-- ===== src/Auth/Outcomes.antt =====
-- `verify_otp` on every branch, for an identifier that normalises.
use project_firestarter.Prelude.{
  ℕ, String, String-Eq, ◌==◌, ◌≡◌, ◌≢◌, refl, arith, Bool-cases, Option, none, some, Option-cases,
  inl, inr, ◌⊎◌, pos, ◌≤ℤ◌, ◌<ℤ◌, leb_ℤ, ltb_ℤ, leb_ℤ_iff, leb_ℤ_false, ltb_ℤ_iff, ltb_ℤ_false,
  length,
}
use project_firestarter.Auth.Model.{OtpChallenge, AuthResult, Settings, Stdlib, code_hash_of}
use project_firestarter.Auth.Store.{AuthStore, get_challenge, kept_hits, hit, count, live}
use project_firestarter.Auth.Flows.{
  Answer, Failure, answered, raised, auth_error, rate_limited, VerifyClock, normalize, verify_otp,
  log_in, current_challenge, check_code, fail_bucket, window_of,
}

pub verify_invalid :
    (lib : Stdlib) (s : Settings) (identifier channel code : String) (device_id : Option String)
    (clock : VerifyClock) (fresh token : String) (st : AuthStore) {f : Failure}
    → normalize lib identifier channel ≡ raised f
    → verify_otp lib s identifier channel code device_id clock fresh token st ≡ (raised f, st)
unfolding verify_otp
verify_invalid lib s identifier channel code device_id clock fresh token st h = rw h refl

module _ (lib : Stdlib) (s : Settings) (identifier channel code : String)
    (device_id : Option String) (clock : VerifyClock) (fresh token ident : String)
    (st : AuthStore) where
  abbrev pub verify_counted : AuthStore
  verify_counted = (count st (fail_bucket ident) (window_of s) clock.at_count).1

  abbrev pub failures : ℕ
  failures = length (kept_hits st (fail_bucket ident) (window_of s) clock.at_count)

  abbrev pub verify_result : Answer AuthResult × AuthStore
  verify_result = verify_otp lib s identifier channel code device_id clock fresh token st

  abbrev pub failed_once_more : AuthStore
  failed_once_more =
      (hit verify_counted (fail_bucket ident) (window_of s) clock.at_hit clock.at_stamp).1

  -- The identifier's challenge, not expired.
  abbrev pub Current : OtpChallenge → Type 0
  Current c = (get_challenge st ident ≡ some c) × (clock.at_check ≤ℤ c.expires_at)

  -- There is no challenge, or it has expired.
  abbrev pub Lapsed : Type 0
  Lapsed =
      (get_challenge st ident ≡ none)
      ⊎ ((c : OtpChallenge) × (get_challenge st ident ≡ some c) × (c.expires_at <ℤ clock.at_check))

  abbrev pub Refused : Type 0
  Refused =
      ((s.otp_max_attempts ≤ℤ pos failures)
        × (verify_result
            ≡ (raised (rate_limited "too many attempts; try again later"), verify_counted)))
      ⊎ ((pos failures <ℤ s.otp_max_attempts)
          × Lapsed
          × (verify_result ≡ (raised (auth_error "code expired or not found"), verify_counted)))

  abbrev pub Wrong : OtpChallenge → Type 0
  Wrong c =
      (c.code_hash ≢ code_hash_of lib s.auth_secret ident (lib.strip code))
      × (verify_result ≡ (raised (auth_error "invalid code"), failed_once_more))

  abbrev pub Accepted : OtpChallenge → Type 0
  Accepted c =
      (c.code_hash ≡ code_hash_of lib s.auth_secret ident (lib.strip code))
      × (verify_result ≡ log_in lib s ident channel device_id clock fresh token verify_counted)

  -- For an identifier that normalises, a guess is refused unread over budget or without a current challenge; else it is compared, and
  -- counted if it is wrong.
  pub verify_outcome :
      normalize lib identifier channel ≡ answered ident
      → Refused
        ⊎ ((pos failures <ℤ s.otp_max_attempts)
            × ((c : OtpChallenge) × Current c × (Wrong c ⊎ Accepted c)))
  unfolding verify_otp count live get_challenge current_challenge check_code
  verify_outcome h = elim (Bool-cases (leb_ℤ s.otp_max_attempts (pos failures))) [
    | inl over ↦ inl (inl ((leb_ℤ_iff s.otp_max_attempts (pos failures)).0 over, rw (h, over) refl))
    | inr under ↦
        let below = leb_ℤ_false s.otp_max_attempts (pos failures) under in
        elim (Option-cases (get_challenge st ident)) [
          | inl e ↦ inl (inr (below, inl e, rw (h, under, e, current_challenge) refl))
          | inr (c, e) ↦ elim (Bool-cases (ltb_ℤ c.expires_at clock.at_check)) [
            | inl late ↦ inl (
                inr (
                  below,
                  inr (c, e, (ltb_ℤ_iff c.expires_at clock.at_check).0 late),
                  rw (h, under, e, late, current_challenge) refl,
                ))
            | inr early ↦ inr (
              below,
              (
                c,
                (e, ltb_ℤ_false c.expires_at clock.at_check early),
                elim (Bool-cases (c.code_hash == supplied)) [
                  | inl same ↦ inr (
                    (String-Eq.agrees c.code_hash supplied).0 same,
                    rw (h, under, e, early, same, current_challenge, check_code) refl,
                  )
                  | inr other ↦ inl (
                    (λ p. ground (arith, String-Eq.agrees c.code_hash supplied)),
                    rw (h, under, e, early, other, current_challenge, check_code) refl,
                  )
                ],
              ),
            )
          ]
        ]
  ]
    where
      supplied : String
      supplied = code_hash_of lib s.auth_secret ident (lib.strip code)
