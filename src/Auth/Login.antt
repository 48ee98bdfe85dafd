-- ===== src/Auth/Login.antt =====
-- `log_in`, the part of `verify_otp` that follows an accepted code, and the store it leaves.
use project_firestarter.Prelude.{
  String, String-Eq, Pair-Eq, ◌==◌, ◌≡◌, refl, Option, none, some, Option-cases, inl, inr, ◌⊎◌,
  lookup, insert,
}
use project_firestarter.Auth.Model.{User, AuthSession, Settings, Stdlib}
use project_firestarter.Auth.Store.{
  AuthStore, find_user_by_identity, truthy, reset, clear_challenge, create_user, link_identity,
  create_session,
}
use project_firestarter.Auth.Flows.{
  VerifyClock, answered, log_in, account, session_of, mint_session, fail_bucket, link_if, only_if,
}

-- Every account is stored under its own identifier.
abbrev pub WellKeyed : AuthStore → Type 0
WellKeyed st = (k : String) (u : User) → lookup st.users k ≡ some u → u.id ≡ k

module _ (lib : Stdlib) (settings : Settings) (ident channel : String) (device_id : Option String)
    (clock : VerifyClock) (fresh token : String) where
  abbrev pub session_for : User → AuthSession
  session_for u = session_of lib settings u device_id token clock.at_mint

  -- The store in which the account is looked up.
  abbrev pub cleared : AuthStore → AuthStore
  cleared st = reset (clear_challenge st ident) (fail_bucket ident)

  abbrev pub new_user : User
  new_user = record {
    id = fresh;
    email = only_if (channel == "email") ident;
    phone = only_if (channel == "phone") ident;
    display_name = none;
  }

  abbrev pub with_session : User → AuthStore → AuthStore
  with_session u st = create_session (link_if (truthy device_id) u st) (session_for u)

  abbrev pub with_user : AuthStore → AuthStore
  with_user st =
      link_identity (record st { users = insert st.users fresh new_user }) channel ident fresh

  -- The account's store before the session: found, or created.
  abbrev pub Accounted : AuthStore → User → AuthStore → Type 0
  Accounted st u st1 =
      ((find_user_by_identity (cleared st) channel ident ≡ some u) × (st1 ≡ cleared st))
      ⊎ ((find_user_by_identity (cleared st) channel ident ≡ none)
          × (u ≡ new_user)
          × (st1 ≡ with_user (cleared st)))

  pub log_in_outcome :
      (st : AuthStore)
      → (u : User) × (st1 : AuthStore) × Accounted st u st1
        × (log_in lib settings ident channel device_id clock fresh token st
            ≡ (answered (record { token = token; user = u }), with_session u st1))
  unfolding log_in account mint_session create_user
  log_in_outcome st = elim (Option-cases (find_user_by_identity (cleared st) channel ident)) [
    | inl e ↦ (new_user, with_user (cleared st), inr (e, refl, refl), rw e refl)
    | inr (u, e) ↦ (u, cleared st, inl (e, refl), rw e refl)
  ]
