-- ===== src/Auth/Within.antt =====
-- The counters of an identifier through sequences of flows, against the maxima of the settings.
use project_firestarter.Prelude.{
  ℕ, ◌≤◌, ◌<◌, String, String-Eq, ◌≡◌, ◌≢◌, refl, sym, ap, ◌∙◌, subst, arith, List, [], ◌∷◌, Option,
  none, some, inl, inr, ℤ, pos, pos_part, ◌<ℤ◌, length,
}
use project_firestarter.Auth.Model.{Settings, Stdlib, User, token_hash_of}
use project_firestarter.Auth.Store.{
  AuthStore, hits, hit, count, reset, kept_hits, put_challenge, create_session, link_device,
  link_identity, truthy, clear_challenge, delete_session,
}
use project_firestarter.Auth.Flows.{
  Answer-cases, VerifyClock, normalize, resolve_session, logout, log_in, req_bucket, fail_bucket,
  window_of, link_if,
}
use project_firestarter.Auth.Budget.{
  buckets_differ, hits-count, hits-hit, count-le, hit-le, reset-le,
}
use project_firestarter.Auth.Login.{log_in_outcome, with_session, Accounted}
use project_firestarter.Auth.Outcomes.{verify_outcome, verify_invalid}
use project_firestarter.Auth.Requests.{request_outcome, request_invalid, request_counted, issued}
use project_firestarter.Auth.Tokens.{resolve_outcome}
use project_firestarter.Auth.Sessions.{
  Call, requests_otp, verifies_otp, resolves_session, logs_out, called, all_called,
}

-- A hit on one bucket leaves the others.
hit_other :
    (st : AuthStore) (k j : String) (w now stamp : ℤ)
    → k ≢ j
    → hits (hit st k w now stamp).1 j ≡ hits st j
hit_other st k j w now stamp n = ground (arith, hits-hit st k j w now stamp, String-Eq.agrees k j)

count_self :
    (st : AuthStore) (k : String) (w now : ℤ) → hits (count st k w now).1 k ≡ kept_hits st k w now
count_self st k w now = ground (arith, hits-count st k k w now, String-Eq.agrees k k)

below : (n : ℕ) (m : ℤ) → pos n <ℤ m → n < pos_part m
below n m h = ground arith

module _ (lib : Stdlib) (s : Settings) (ident : String) where
  abbrev pub WithinBudget : AuthStore → Type 0
  WithinBudget st =
      (length (hits st (fail_bucket ident)) ≤ pos_part s.otp_max_attempts)
      × (length (hits st (req_bucket ident)) ≤ pos_part s.otp_max_requests)

  same_counters :
      (st other : AuthStore) → st.counters ≡ other.counters → WithinBudget st → WithinBudget other
  unfolding hits
  same_counters st other h w =
      let same : (k : String) → hits st k ≡ hits other k =
        λ k. ap (λ c. hits (record st { counters = c }) k) h in
      rw (← same (fail_bucket ident), ← same (req_bucket ident)) w

  count_within :
      (st : AuthStore) (k : String) (w now : ℤ)
      → WithinBudget st
      → WithinBudget (count st k w now).1
  count_within st k w now h =
      ground
        (arith, h, count-le st k (fail_bucket ident) w now, count-le st k (req_bucket ident) w now)

  -- A request below the maximum, and a wrong guess below the maximum.
  request_within :
      (st : AuthStore) (k : String) (w t now stamp : ℤ)
      → WithinBudget st
      → pos (length (kept_hits st (req_bucket k) w t)) <ℤ s.otp_max_requests
      → WithinBudget (hit (count st (req_bucket k) w t).1 (req_bucket k) w now stamp).1
  request_within st k w t now stamp h room =
      let st1 = (count st (req_bucket k) w t).1 in
      (
        rw
            (hit_other st1 (req_bucket k) (fail_bucket ident) w now stamp
              (λ e. buckets_differ ident k (sym e)))
            (count_within st (req_bucket k) w t h).0,
        hit-le st1 (req_bucket k) (req_bucket ident) w now stamp (pos_part s.otp_max_requests)
            (rw (count_self st (req_bucket k) w t) (below _ s.otp_max_requests room))
            (count_within st (req_bucket k) w t h).1,
      )

  failure_within :
      (st : AuthStore) (k : String) (w t now stamp : ℤ)
      → WithinBudget st
      → pos (length (kept_hits st (fail_bucket k) w t)) <ℤ s.otp_max_attempts
      → WithinBudget (hit (count st (fail_bucket k) w t).1 (fail_bucket k) w now stamp).1
  failure_within st k w t now stamp h room =
      let st1 = (count st (fail_bucket k) w t).1 in
      (
        hit-le st1 (fail_bucket k) (fail_bucket ident) w now stamp (pos_part s.otp_max_attempts)
            (rw (count_self st (fail_bucket k) w t) (below _ s.otp_max_attempts room))
            (count_within st (fail_bucket k) w t h).0,
        rw (hit_other st1 (fail_bucket k) (req_bucket ident) w now stamp (buckets_differ k ident))
            (count_within st (fail_bucket k) w t h).1,
      )

  reset_within : (st : AuthStore) (k : String) → WithinBudget st → WithinBudget (reset st k)
  reset_within st k h =
      ground (arith, h, reset-le st k (fail_bucket ident), reset-le st k (req_bucket ident))

  link_counters :
      (d : Option String) (u : User) (st : AuthStore) → (link_if d u st).counters ≡ st.counters
  unfolding link_device
  link_counters none u st = refl
  link_counters (some d) u st = refl

  session_counters :
      (k channel : String) (d : Option String) (clock : VerifyClock) (fresh token : String)
      (st : AuthStore) (u : User) (st1 : AuthStore)
      → Accounted lib s k channel d clock fresh token st u st1
      → (with_session lib s k channel d clock fresh token u st1).counters
        ≡ (reset st (fail_bucket k)).counters
  unfolding create_session link_device link_identity reset clear_challenge
  session_counters k channel d clock fresh token st u st1 (inl (a, b)) =
      link_counters (truthy d) u st1 ∙ ap (λ x. x.counters) b
  session_counters k channel d clock fresh token st u st1 (inr (a, b, e)) =
      link_counters (truthy d) u st1 ∙ ap (λ x. x.counters) e

  carried : {A : Type 0} {x y : A × AuthStore} → x ≡ y → WithinBudget y.1 → WithinBudget x.1
  carried p h = subst (λ r. WithinBudget r.1) (sym p) h

  -- A log-in clears the failures of its identifier and touches no other counter.
  login_within :
      (k channel : String) (d : Option String) (clock : VerifyClock) (fresh token : String)
      (st : AuthStore)
      → WithinBudget st
      → WithinBudget (log_in lib s k channel d clock fresh token st).1
  login_within k channel d clock fresh token st h =
      let (u, st1, found, r) = log_in_outcome lib s k channel d clock fresh token st in
      rw r (
        same_counters (reset st (fail_bucket k))
          (with_session lib s k channel d clock fresh token u st1)
          (sym (session_counters k channel d clock fresh token st u st1 found))
          (reset_within st (fail_bucket k) h))

  called_within : (c : Call) (st : AuthStore) → WithinBudget st → WithinBudget (called lib s c st)
  unfolding called put_challenge logout delete_session resolve_session
  called_within (requests_otp i c clock n sent) st h = elim (Answer-cases (normalize lib i c)) [
    | inl (f, e) ↦ carried (request_invalid lib s i c clock n sent st e) h
    | inr (k, e) ↦ elim (request_outcome lib s i c clock n sent k st e) [
      | inl (a, r) ↦ carried r (count_within st (req_bucket k) (window_of s) clock.at_count h)
      | inr (a, r) ↦ carried r (
          same_counters
            (hit (request_counted lib s i c clock n sent k st) (req_bucket k) (window_of s)
              clock.at_hit clock.at_stamp).1
            (issued lib s i c clock n sent k st) refl
            (request_within st k (window_of s) clock.at_count clock.at_hit clock.at_stamp h a))
    ]
  ]
  called_within (verifies_otp i c code d clock fresh token) st h =
      elim (Answer-cases (normalize lib i c)) [
        | inl (f, e) ↦ carried (verify_invalid lib s i c code d clock fresh token st e) h
        | inr (k, e) ↦
            let counted = count_within st (fail_bucket k) (window_of s) clock.at_count h in
            elim (verify_outcome lib s i c code d clock fresh token k st e) [
              | inl (inl (a, r)) ↦ carried r counted
              | inl (inr (a, b, r)) ↦ carried r counted
              | inr (room, (ch, now, inl (n, r))) ↦ carried r (
                  failure_within st k (window_of s) clock.at_count clock.at_hit clock.at_stamp h
                    room)
              | inr (room, (ch, now, inr (n, r))) ↦ carried r (
                  login_within k c d clock fresh token
                    (count st (fail_bucket k) (window_of s) clock.at_count).1 counted)
            ]
      ]
  called_within (resolves_session token now) st h = elim (resolve_outcome lib token now st) [
    | inl (e, r) ↦ carried r h
    | inr (session, e, inl (late, r)) ↦
        carried r (same_counters st (delete_session st (token_hash_of lib token)) refl h)
    | inr (session, e, inr (early, r)) ↦ carried r h
  ]
  called_within (logs_out token) st h = same_counters st (logout lib token st) refl h

  -- From a store within the budgets of an identifier, so from the empty one, any sequence of flows
  -- leads to a store within them: at most otp_max_attempts failures and otp_max_requests requests
  -- are kept.
  pub all_called_within :
      (cs : List Call) (st : AuthStore) → WithinBudget st → WithinBudget (all_called lib s cs st)
  unfolding all_called
  all_called_within [] st h = h
  all_called_within (c ∷ cs) st h = all_called_within cs (called lib s c st) (called_within c st h)
