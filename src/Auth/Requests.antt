-- ===== src/Auth/Requests.antt =====
-- `request_otp` on every branch, and what its answer can depend on.
use project_firestarter.Prelude.{
  ℕ, String, String-Eq, ◌≡◌, refl, arith, Bool, true, false, not, ◌&&◌, Bool-cases, List, Option,
  none, some, Option-cases, inl, inr, ◌⊎◌, ap, sym, ◌∙◌, Dict, ℤ, pos, ◌≤ℤ◌, ◌<ℤ◌, leb_ℤ, leb_ℤ_iff,
  leb_ℤ_false, length, if◌then◌else◌,
}
use project_firestarter.Auth.Model.{Settings, Stdlib}
use project_firestarter.Auth.Store.{AuthStore, put_challenge, kept_hits, hits, hit, count, live}
use project_firestarter.Auth.Flows.{
  Answer, Answer-cases, Failure, answered, raised, rate_limited, delivery_failed, RequestClock,
  normalize, request_otp, req_bucket, window_of, challenge_of,
}

module _ (lib : Stdlib) (s : Settings) (identifier channel : String) (clock : RequestClock)
    (number : ℕ) (sent : Option Bool) where
  abbrev pub request_result : AuthStore → Answer (Option String) × AuthStore
  request_result st = request_otp lib s identifier channel clock number sent st

  module _ (ident : String) (st : AuthStore) where
    abbrev pub request_counted : AuthStore
    request_counted = (count st (req_bucket ident) (window_of s) clock.at_count).1

    abbrev pub requests : ℕ
    requests = length (kept_hits st (req_bucket ident) (window_of s) clock.at_count)

    abbrev pub issued : AuthStore
    issued =
        put_challenge
          (hit request_counted (req_bucket ident) (window_of s) clock.at_hit clock.at_stamp).1
          (challenge_of lib s ident channel (lib.six_digits number) clock.at_issue)

    -- What the caller learns once the challenge is stored.
    abbrev pub told : Option Bool → Answer (Option String)
    told none = raised delivery_failed
    told (some delivered) =
        answered
          (if s.expose_debug_otp && not delivered then some (lib.six_digits number) else none)

    -- For an identifier that normalises, a request over the maximum is refused; below it, it is
    -- counted and its challenge stored.
    pub request_outcome :
        normalize lib identifier channel ≡ answered ident
        → ((s.otp_max_requests ≤ℤ pos requests)
            × (request_result st ≡ (
              raised (rate_limited "too many code requests; try again later"),
              request_counted,
            )))
          ⊎ ((pos requests <ℤ s.otp_max_requests) × (request_result st ≡ (told sent, issued)))
    unfolding request_otp count live
    request_outcome h = elim (Bool-cases (leb_ℤ s.otp_max_requests (pos requests))) [
      | inl over ↦ inl ((leb_ℤ_iff s.otp_max_requests (pos requests)).0 over, rw (h, over) refl)
      | inr under ↦ inr (leb_ℤ_false s.otp_max_requests (pos requests) under, answer h under sent)
    ]
      where
        answer :
            normalize lib identifier channel ≡ answered ident
            → leb_ℤ s.otp_max_requests (pos requests) ≡ false
            → (x : Option Bool)
            → request_otp lib s identifier channel clock number x st ≡ (told x, issued)
        answer h under none = rw (h, under) refl
        answer h under (some d) = rw (h, under) refl

  pub request_invalid :
      (st : AuthStore) {f : Failure}
      → normalize lib identifier channel ≡ raised f
      → request_result st ≡ (raised f, st)
  unfolding request_otp
  request_invalid st h = rw h refl

  -- The code is only told to the caller if the settings expose it and it was not delivered.
  pub request_tells_code :
      (st : AuthStore) (code : String)
      → (request_result st).0 ≡ answered (some code)
      → (s.expose_debug_otp ≡ true) × (sent ≡ some false) × (code ≡ lib.six_digits number)
  request_tells_code st code h = elim (Answer-cases (normalize lib identifier channel)) [
    | inl (f, e) ↦ absurd (ground (arith, request_invalid st e))
    | inr (ident, e) ↦ elim (request_outcome ident st e) [
      | inl (a, r) ↦ absurd (ground arith)
      | inr (a, r) ↦ elim (Option-cases sent) [
        | inl q ↦ absurd (ground arith)
        | inr (d, q) ↦ ground arith
      ]
    ]
  ]

  -- Two stores with the same counters answer a request alike: nothing is told of the accounts.
  pub request_tells_no_account :
      (st other : AuthStore)
      → st.counters ≡ other.counters
      → (request_result st).0 ≡ (request_result other).0
  unfolding hits
  request_tells_no_account st other h = elim (Answer-cases (normalize lib identifier channel)) [
    | inl (f, e) ↦
        ap (λ r. r.0) (request_invalid st e) ∙ sym (ap (λ r. r.0) (request_invalid other e))
    | inr (ident, e) ↦
        let q : requests ident st ≡ requests ident other = ap (λ c. length (recent ident c)) h in
        elim (request_outcome ident st e) [
          | inl (a, r) ↦ elim (request_outcome ident other e) [
            | inl (b, t) ↦ ap (λ r. r.0) r ∙ sym (ap (λ r. r.0) t)
            | inr (b, t) ↦ absurd (ground arith)
          ]
          | inr (a, r) ↦ elim (request_outcome ident other e) [
            | inl (b, t) ↦ absurd (ground arith)
            | inr (b, t) ↦ ap (λ r. r.0) r ∙ sym (ap (λ r. r.0) t)
          ]
        ]
  ]
    where
      recent : String → Dict String (List ℤ) → List ℤ
      recent ident c =
          kept_hits (record st { counters = c }) (req_bucket ident) (window_of s) clock.at_count
