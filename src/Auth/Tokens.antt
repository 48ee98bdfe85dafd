-- ===== src/Auth/Tokens.antt =====
-- `resolve_session` on every branch, and tokens from log-in to log-out.
use project_firestarter.Prelude.{
  String, String-Eq, Pair-Eq, ◌≡◌, refl, sym, ap, subst, ◌∙◌, arith, Bool-cases, Option, none, some,
  Option-cases, inl, inr, ◌⊎◌, ℤ, ◌+ℤ◌, ◌≤ℤ◌, ◌<ℤ◌, ltb_ℤ, ltb_ℤ_iff, ltb_ℤ_false, lookup,
  lookup-insert_self, lookup-pop_self,
}
use project_firestarter.Auth.Model.{User, AuthSession, Settings, Stdlib, token_hash_of, days}
use project_firestarter.Auth.Store.{
  AuthStore, get_user, get_session, delete_session, create_session, link_device, link_identity,
  find_user_by_identity, truthy, reset, clear_challenge,
}
use project_firestarter.Auth.Flows.{answered, VerifyClock, log_in, resolve_session, logout}
use project_firestarter.Auth.Login.{
  log_in_outcome, with_session, cleared, Accounted, WellKeyed, new_user,
}

module _ (lib : Stdlib) (token : String) (now : ℤ) (st : AuthStore) where
  -- The account of a current session; an expired one is deleted.
  pub resolve_outcome :
      ((get_session st (token_hash_of lib token) ≡ none)
        × (resolve_session lib token now st ≡ (none, st)))
      ⊎ ((session : AuthSession) × (get_session st (token_hash_of lib token) ≡ some session)
          × (((session.expires_at <ℤ now)
                × (resolve_session lib token now st
                    ≡ (none, delete_session st (token_hash_of lib token))))
              ⊎ ((now ≤ℤ session.expires_at)
                  × (resolve_session lib token now st ≡ (get_user st session.user_id, st)))))
  unfolding resolve_session
  resolve_outcome = elim (Option-cases (get_session st (token_hash_of lib token))) [
    | inl e ↦ inl (e, rw (e, resolve_session) refl)
    | inr (found, e) ↦ elim (Bool-cases (ltb_ℤ found.expires_at now)) [
      | inl late ↦ inr (
        found,
        e,
        inl ((ltb_ℤ_iff found.expires_at now).0 late, rw (e, late, resolve_session) refl),
      )
      | inr early ↦ inr (
        found,
        e,
        inr (ltb_ℤ_false found.expires_at now early, rw (e, early, resolve_session) refl),
      )
    ]
  ]

-- A token resolves to nothing after its log-out, whenever it is asked for.
pub resolve-logout :
    (lib : Stdlib) (token : String) (now : ℤ) (st : AuthStore)
    → (resolve_session lib token now (logout lib token st)).0 ≡ none
unfolding logout delete_session get_session
resolve-logout lib token now st =
    let gone = lookup-pop_self st.sessions (token_hash_of lib token) in
    elim (resolve_outcome lib token now (logout lib token st)) [
      | inl (e, r) ↦ ap (λ x. x.0) r
      | inr (session, e, r) ↦ absurd (ground arith)
    ]

module _ (lib : Stdlib) (s : Settings) (ident channel : String) (d : Option String)
    (clock : VerifyClock) (fresh token : String) where
  -- The session that a log-in stores, and the account it names.
  session_users :
      (u : User) (st1 : AuthStore) (k : String)
      → get_user (with_session lib s ident channel d clock fresh token u st1) k ≡ get_user st1 k
  unfolding get_user create_session link_device
  session_users u st1 k = elim (Option-cases (truthy d)) [
    | inl e ↦ rw e refl
    | inr (x, e) ↦ rw e refl
  ]

  session_stored :
      (u : User) (st1 : AuthStore)
      → get_session
          (with_session lib s ident channel d clock fresh token u st1)
          (token_hash_of lib token)
        ≡ some (record {
          token_hash = token_hash_of lib token;
          user_id = u.id;
          device_id = d;
          expires_at = clock.at_mint +ℤ days s.session_ttl_days;
        })
  unfolding get_session create_session
  session_stored u st1 = lookup-insert_self _ (token_hash_of lib token) _

  found_user :
      (st : AuthStore) (provider subject : String) {u : User}
      → find_user_by_identity st provider subject ≡ some u
      → (k : String) × (lookup st.users k ≡ some u)
  unfolding find_user_by_identity
  found_user st provider subject h =
      elim (Option-cases (truthy (lookup st.identities (provider, subject)))) [
        | inl e ↦ absurd (ground arith)
        | inr (k, e) ↦ (k, rw (e, find_user_by_identity) at h)
      ]

  account_stored :
      (st : AuthStore) (u : User) (st1 : AuthStore)
      → WellKeyed st
      → Accounted lib s ident channel d clock fresh token st u st1
      → get_user st1 u.id ≡ some u
  unfolding find_user_by_identity get_user reset clear_challenge link_identity
  account_stored st u st1 w (inl (found, e)) =
      let (k, q) =
        found_user (cleared lib s ident ident d clock ident ident st) channel ident found in
      subst (λ x. get_user x u.id ≡ some u) (sym e)
        (subst (λ j. lookup st.users j ≡ some u) (sym (w k u q)) q)
  account_stored st u st1 w (inr (a, e, f)) =
      rw (e, f)
        (lookup-insert_self st.users fresh (new_user lib s ident channel d clock fresh token))

  -- Right after a log-in the token resolves to the account that it returned, until the session
  -- expires.
  pub resolve-log_in :
      (st : AuthStore) (now : ℤ)
      → WellKeyed st
      → now ≤ℤ clock.at_mint +ℤ days s.session_ttl_days
      → (u : User) × (st2 : AuthStore) × (log_in lib s ident channel d clock fresh token st
          ≡ (answered (record { token = token; user = u }), st2))
        × (resolve_session lib token now st2 ≡ (some u, st2))
  resolve-log_in st now w h =
      let (u, st1, found, r) = log_in_outcome lib s ident channel d clock fresh token st in
      let st2 = with_session lib s ident channel d clock fresh token u st1 in
      let stored = session_stored u st1 in
      let user = session_users u st1 u.id ∙ account_stored st u st1 w found in
      (
        u,
        st2,
        r,
        elim (resolve_outcome lib token now st2) [
          | inl (e, q) ↦ absurd (ground arith)
          | inr (session, e, inl (late, q)) ↦ absurd (ground arith)
          | inr (session, e, inr (early, q)) ↦
              let same : session.user_id ≡ u.id = ground arith in
              q ∙ ap (λ x. (x, st2)) (ap (get_user st2) same ∙ user)
        ],
      )
