-- ===== src/Auth/Accounts.antt =====
-- The accounts of the store through sequences of flows, and the tokens that name them.
use project_firestarter.Prelude.{
  String, String-Eq, ◌≡◌, sym, ap, subst, ◌∙◌, arith, List, [], ◌∷◌, Option, none, some, inl, inr,
  ℤ, ◌+ℤ◌, ◌≤ℤ◌, insert, lookup-insert,
}
use project_firestarter.Auth.Model.{User, AuthResult, Settings, Stdlib, days}
use project_firestarter.Auth.Store.{
  AuthStore, clear_challenge, count, live, hit, put_challenge, delete_session, create_session,
  link_device, link_identity, reset, truthy,
}
use project_firestarter.Auth.Flows.{
  answered, Answer-cases, VerifyClock, normalize, verify_otp, log_in, resolve_session, logout,
  link_if,
}
use project_firestarter.Auth.Login.{log_in_outcome, new_user, WellKeyed}
use project_firestarter.Auth.Outcomes.{verify_outcome, verify_invalid, verify_counted}
use project_firestarter.Auth.Requests.{request_outcome, request_invalid}
use project_firestarter.Auth.Tokens.{resolve_outcome, resolve-log_in}
use project_firestarter.Auth.Sessions.{
  Call, requests_otp, verifies_otp, resolves_session, logs_out, called, all_called,
}

module _ (lib : Stdlib) (s : Settings) where
  keyed : {A : Type 0} {x y : A × AuthStore} → x ≡ y → WellKeyed y.1 → WellKeyed x.1
  keyed p h = subst (λ r. WellKeyed r.1) (sym p) h

  insert_keyed :
      (st : AuthStore) (u : User)
      → WellKeyed st
      → WellKeyed (record st { users = insert st.users u.id u })
  insert_keyed st u w k v h =
      ground (arith, lookup-insert st.users u.id k u, String-Eq.agrees u.id k, w k v)

  session_keyed :
      (d : Option String) (u : User) (st : AuthStore) → WellKeyed st → WellKeyed (link_if d u st)
  unfolding link_device
  session_keyed none u st w = w
  session_keyed (some x) u st w = w

  log_in_keyed :
      (k channel : String) (d : Option String) (clock : VerifyClock) (fresh token : String)
      (st : AuthStore)
      → WellKeyed st
      → WellKeyed (log_in lib s k channel d clock fresh token st).1
  unfolding create_session link_identity reset clear_challenge
  log_in_keyed k channel d clock fresh token st w =
      let (u, st1, found, r) = log_in_outcome lib s k channel d clock fresh token st in
      keyed r (
        session_keyed (truthy d) u st1 (elim found [
          | inl (a, e) ↦ subst WellKeyed (sym e) w
          | inr (a, b, e) ↦
              subst WellKeyed (sym e)
                (insert_keyed st (new_user lib s k channel d clock fresh token) w)
        ]))

  called-WellKeyed : (c : Call) (st : AuthStore) → WellKeyed st → WellKeyed (called lib s c st)
  unfolding called count live hit put_challenge logout delete_session
  called-WellKeyed (requests_otp i c clock n sent) st h = elim (Answer-cases (normalize lib i c)) [
    | inl (f, e) ↦ keyed (request_invalid lib s i c clock n sent st e) h
    | inr (j, e) ↦ elim (request_outcome lib s i c clock n sent j st e) [
      | inl (a, r) ↦ keyed r h
      | inr (a, r) ↦ keyed r h
    ]
  ]
  called-WellKeyed (verifies_otp i c code d clock fresh token) st h =
      elim (Answer-cases (normalize lib i c)) [
        | inl (f, e) ↦ keyed (verify_invalid lib s i c code d clock fresh token st e) h
        | inr (j, e) ↦ elim (verify_outcome lib s i c code d clock fresh token j st e) [
          | inl (inl (a, r)) ↦ keyed r h
          | inl (inr (a, b, r)) ↦ keyed r h
          | inr (room, (ch, now, inl (n, r))) ↦ keyed r h
          | inr (room, (ch, now, inr (n, r))) ↦ keyed r (
              log_in_keyed j c d clock fresh token
                (verify_counted lib s i c code d clock fresh token j st) h)
        ]
      ]
  called-WellKeyed (resolves_session token now) st h = elim (resolve_outcome lib token now st) [
    | inl (e, r) ↦ keyed r h
    | inr (session, e, inl (late, r)) ↦ keyed r h
    | inr (session, e, inr (early, r)) ↦ keyed r h
  ]
  called-WellKeyed (logs_out token) st h = h

  pub all_called-WellKeyed :
      (cs : List Call) (st : AuthStore) → WellKeyed st → WellKeyed (all_called lib s cs st)
  unfolding all_called
  all_called-WellKeyed [] st h = h
  all_called-WellKeyed (c ∷ cs) st h =
      all_called-WellKeyed cs (called lib s c st) (called-WellKeyed c st h)

  -- After any sequence of flows from a well-keyed store, a code that is accepted yields a token that
  -- resolves to the account returned with it, until the session expires.
  pub resolve-verify_otp :
      (cs : List Call) (start : AuthStore) (i c code : String) (d : Option String)
      (clock : VerifyClock) (fresh token : String) (now : ℤ) {a : AuthResult}
      → WellKeyed start
      → (verify_otp lib s i c code d clock fresh token (all_called lib s cs start)).0 ≡ answered a
      → now ≤ℤ clock.at_mint +ℤ days s.session_ttl_days
      → (resolve_session lib a.token now
          (verify_otp lib s i c code d clock fresh token (all_called lib s cs start)).1).0
        ≡ some a.user
  unfolding count live
  resolve-verify_otp cs start i c code d clock fresh token now {a} w h early =
      let st = all_called lib s cs start in
      elim (Answer-cases (normalize lib i c)) [
        | inl (f, e) ↦
            absurd (ground (arith, verify_invalid lib s i c code d clock fresh token st e))
        | inr (k, e) ↦ elim (verify_outcome lib s i c code d clock fresh token k st e) [
          | inl (inl (b, r)) ↦ absurd (ground arith)
          | inl (inr (b, t, r)) ↦ absurd (ground arith)
          | inr (room, (ch, t, inl (n, r))) ↦ absurd (ground arith)
          | inr (room, (ch, t, inr (n, r))) ↦
              let (u, st2, q, z) =
                resolve-log_in lib s k c d clock fresh token
                  (verify_counted lib s i c code d clock fresh token k st) now
                  (all_called-WellKeyed cs start w) early in
              let whole = r ∙ q in
              let same_token : token ≡ a.token = ground arith in
              let same_user : u ≡ a.user = ground arith in
              rw (whole, ← same_token, ← same_user) (ap (λ x. x.0) z)
        ]
      ]
