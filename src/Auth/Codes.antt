-- ===== src/Auth/Codes.antt =====
-- The challenges of the store through sequences of flows.
use project_firestarter.Prelude.{
  String, String-Eq, ◌==◌, ◌≡◌, ◌≢◌, refl, sym, ap, subst, ◌∙◌, arith, false, List, [], ◌∷◌, Option,
  none, some, inl, inr, lookup, pop, lookup-insert, lookup-pop, lookup-pop_self,
}
use project_firestarter.Auth.Model.{User, AuthResult, Settings, Stdlib}
use project_firestarter.Auth.Store.{
  AuthStore, get_challenge, clear_challenge, count, live, hit, put_challenge, delete_session,
  create_session, link_device, link_identity, reset, truthy,
}
use project_firestarter.Auth.Flows.{
  answered, raised, rate_limited, auth_error, challenge_of, Failure, Answer-cases, VerifyClock,
  normalize, verify_otp, log_in, logout, link_if,
}
use project_firestarter.Auth.Login.{log_in_outcome}
use project_firestarter.Auth.Outcomes.{verify_outcome, verify_invalid, verify_counted}
use project_firestarter.Auth.Requests.{request_outcome, request_invalid}
use project_firestarter.Auth.Tokens.{resolve_outcome}
use project_firestarter.Auth.Sessions.{
  Call, requests_otp, verifies_otp, resolves_session, logs_out, called, all_called,
}

module _ (lib : Stdlib) (s : Settings) where
  link_challenges :
      (d : Option String) (u : User) (st : AuthStore) → (link_if d u st).challenges ≡ st.challenges
  unfolding link_device
  link_challenges none u st = refl
  link_challenges (some d) u st = refl

  -- A log-in removes the challenge of its identifier and no other.
  log_in_challenges :
      (k channel : String) (d : Option String) (clock : VerifyClock) (fresh token : String)
      (st : AuthStore)
      → (log_in lib s k channel d clock fresh token st).1.challenges ≡ pop st.challenges k
  unfolding create_session link_identity reset clear_challenge
  log_in_challenges k channel d clock fresh token st =
      let (u, st1, found, r) = log_in_outcome lib s k channel d clock fresh token st in
      ap (λ x. x.1.challenges) r ∙ link_challenges (truthy d) u st1 ∙ elim found [
        | inl (a, e) ↦ ap (λ x. x.challenges) e
        | inr (a, b, e) ↦ ap (λ x. x.challenges) e
      ]

  unchallenged :
      {A : Type 0} (k : String) {x y : A × AuthStore}
      → x ≡ y
      → get_challenge y.1 k ≡ none
      → get_challenge x.1 k ≡ none
  unchallenged k p h = subst (λ r. get_challenge r.1 k ≡ none) (sym p) h

  -- A code that was accepted leaves its identifier without a challenge.
  accepted_once :
      (i c code : String) (d : Option String) (clock : VerifyClock) (fresh token k : String)
      (st : AuthStore) {a : AuthResult}
      → normalize lib i c ≡ answered k
      → (verify_otp lib s i c code d clock fresh token st).0 ≡ answered a
      → get_challenge (verify_otp lib s i c code d clock fresh token st).1 k ≡ none
  unfolding get_challenge count live
  accepted_once i c code d clock fresh token k st e h =
      elim (verify_outcome lib s i c code d clock fresh token k st e) [
        | inl (inl (a, r)) ↦ absurd (ground arith)
        | inl (inr (a, b, r)) ↦ absurd (ground arith)
        | inr (room, (ch, now, inl (n, r))) ↦ absurd (ground arith)
        | inr (room, (ch, now, inr (n, r))) ↦ unchallenged k r (
            ap (λ x. lookup x k)
              (log_in_challenges k c d clock fresh token
                (verify_counted lib s i c code d clock fresh token k st))
            ∙ lookup-pop_self st.challenges k)
      ]

  -- The call requests no code for the identifier.
  abbrev pub NoRequest : String → Call → Type 0
  NoRequest k (requests_otp i c clock n sent) = normalize lib i c ≢ answered k
  NoRequest k call = Unit

  abbrev pub NoRequests : String → List Call → Type 0
  NoRequests k [] = Unit
  NoRequests k (c ∷ cs) = NoRequest k c × NoRequests k cs

  called_unchallenged :
      (k : String) (c : Call) (st : AuthStore)
      → NoRequest k c
      → get_challenge st k ≡ none
      → get_challenge (called lib s c st) k ≡ none
  unfolding called get_challenge count live hit put_challenge logout delete_session
  called_unchallenged k (requests_otp i c clock n sent) st q h =
      elim (Answer-cases (normalize lib i c)) [
        | inl (f, e) ↦ unchallenged k (request_invalid lib s i c clock n sent st e) h
        | inr (j, e) ↦ elim (request_outcome lib s i c clock n sent j st e) [
          | inl (a, r) ↦ unchallenged k r h
          | inr (a, r) ↦
              let other : (j == k) ≡ false =
                ground (arith, String-Eq.agrees j k, λ (p : j ≡ k). q (e ∙ ap answered p)) in
              unchallenged k r (
                lookup-insert st.challenges j k
                  (challenge_of lib s j c (lib.six_digits n) clock.at_issue)
                ∙ rw other h)
        ]
      ]
  called_unchallenged k (verifies_otp i c code d clock fresh token) st q h =
      elim (Answer-cases (normalize lib i c)) [
        | inl (f, e) ↦ unchallenged k (verify_invalid lib s i c code d clock fresh token st e) h
        | inr (j, e) ↦ elim (verify_outcome lib s i c code d clock fresh token j st e) [
          | inl (inl (a, r)) ↦ unchallenged k r h
          | inl (inr (a, b, r)) ↦ unchallenged k r h
          | inr (room, (ch, now, inl (n, r))) ↦ unchallenged k r h
          | inr (room, (ch, now, inr (n, r))) ↦ unchallenged k r (
              ap (λ x. lookup x k)
                (log_in_challenges j c d clock fresh token
                  (verify_counted lib s i c code d clock fresh token j st))
              ∙ lookup-pop st.challenges j k
              ∙ ground arith)
        ]
      ]
  called_unchallenged k (resolves_session token now) st q h =
      elim (resolve_outcome lib token now st) [
        | inl (e, r) ↦ unchallenged k r h
        | inr (session, e, inl (late, r)) ↦ unchallenged k r h
        | inr (session, e, inr (early, r)) ↦ unchallenged k r h
      ]
  called_unchallenged k (logs_out token) st q h = h

  -- An identifier without a challenge, as an accepted code leaves it, stays without one until a code
  -- is requested for it, and no guess is accepted meanwhile.
  no_request_no_log_in :
      (k : String) (cs : List Call) (st : AuthStore)
      → get_challenge st k ≡ none
      → NoRequests k cs
      → (i c code : String) (d : Option String) (clock : VerifyClock) (fresh token : String)
      → normalize lib i c ≡ answered k
      → (f : Failure) × ((verify_otp lib s i c code d clock fresh token (all_called lib s cs st)).0
          ≡ raised f)
  unfolding all_called
  no_request_no_log_in k [] st h q i c code d clock fresh token e =
      elim (verify_outcome lib s i c code d clock fresh token k st e) [
        | inl (inl (a, r)) ↦ (rate_limited "too many attempts; try again later", ap (λ x. x.0) r)
        | inl (inr (a, b, r)) ↦ (auth_error "code expired or not found", ap (λ x. x.0) r)
        | inr (room, (ch, (now, t), r)) ↦ absurd (ground arith)
      ]
  no_request_no_log_in k (call ∷ cs) st h (a, q) i c code d clock fresh token e =
      no_request_no_log_in k cs (called lib s call st) (called_unchallenged k call st a h) q i c
        code d clock fresh token e

  -- Once a code was accepted for an identifier, no guess is accepted for it, by any sequence of
  -- flows, until a code is requested for it again.
  pub code_used_once :
      (k : String) (cs : List Call) (st : AuthStore) {a : AuthResult} (i c code : String)
      (d : Option String) (clock : VerifyClock) (fresh token : String) (i' c' code' : String)
      (d' : Option String) (clock' : VerifyClock) (fresh' token' : String)
      → normalize lib i c ≡ answered k
      → normalize lib i' c' ≡ answered k
      → (verify_otp lib s i c code d clock fresh token st).0 ≡ answered a
      → NoRequests k cs
      → (f : Failure) × ((verify_otp lib s i' c' code' d' clock' fresh' token'
            (all_called lib s cs (verify_otp lib s i c code d clock fresh token st).1)).0
          ≡ raised f)
  code_used_once k cs st i c code d clock fresh token i' c' code' d' clock' fresh' token' e e' h q =
      no_request_no_log_in k cs (verify_otp lib s i c code d clock fresh token st).1
        (accepted_once i c code d clock fresh token k st e h) q i' c' code' d' clock' fresh' token'
        e'
