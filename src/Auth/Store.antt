-- ===== src/Auth/Store.antt =====
-- auth/store.py: the in-memory store. A method is a function from the store to its result with
-- the new store; each reading of the clock is an argument.
use project_firestarter.Prelude.{
  ℕ, String, String-Eq, Pair-Eq, ◌==◌, List, [], ◌∷◌, ◌++◌, Option, none, some, map, ℤ, ◌-ℤ◌, leb_ℤ,
  length, select, Dict, lookup, insert, pop, if◌then◌else◌,
}
use project_firestarter.Auth.Model.{User, OtpChallenge, AuthSession, seconds}

-- `InMemoryAuthStore`
pub record AuthStore : Type 0 where
  pub users : Dict String User
  pub identities : Dict (String × String) String
  pub challenges : Dict String OtpChallenge
  pub sessions : Dict String AuthSession
  pub device_links : Dict String String
  pub counters : Dict String (List ℤ)

-- `__init__`
abbrev pub empty_store : AuthStore
empty_store = record {
  users = [];
  identities = [];
  challenges = [];
  sessions = [];
  device_links = [];
  counters = [];
}

unfoldable pub get_user : AuthStore → String → Option User
get_user st user_id = lookup st.users user_id

-- The new identifier, `uuid.uuid4()`, is the second argument.
unfoldable pub create_user :
    AuthStore → String → Option String → Option String → Option String → User × AuthStore
create_user st fresh email phone display_name =
    let user : User = record {
      id = fresh;
      email = email;
      phone = phone;
      display_name = display_name;
    } in
    (user, record st { users = insert st.users fresh user })

-- `if user_id` and `if device_id`: a text that is there and not empty.
abbrev pub truthy : Option String → Option String
truthy none = none
truthy (some s) = if s == "" then none else some s

unfoldable pub find_user_by_identity : AuthStore → String → String → Option User
unfolding get_user
find_user_by_identity st provider subject =
    elim (truthy (lookup st.identities (provider, subject))) [
      | none ↦ none
      | some user_id ↦ lookup st.users user_id
    ]

unfoldable pub link_identity : AuthStore → String → String → String → AuthStore
link_identity st provider subject user_id = record st {
  identities = insert st.identities (provider, subject) user_id;
}

unfoldable pub put_challenge : AuthStore → OtpChallenge → AuthStore
put_challenge st challenge = record st {
  challenges = insert st.challenges challenge.identifier challenge;
}

unfoldable pub get_challenge : AuthStore → String → Option OtpChallenge
get_challenge st identifier = lookup st.challenges identifier

unfoldable pub clear_challenge : AuthStore → String → AuthStore
clear_challenge st identifier = record st { challenges = pop st.challenges identifier }

unfoldable pub create_session : AuthStore → AuthSession → AuthStore
create_session st session = record st { sessions = insert st.sessions session.token_hash session }

unfoldable pub get_session : AuthStore → String → Option AuthSession
get_session st token_hash = lookup st.sessions token_hash

unfoldable pub delete_session : AuthStore → String → AuthStore
delete_session st token_hash = record st { sessions = pop st.sessions token_hash }

unfoldable pub link_device : AuthStore → String → String → AuthStore
link_device st device_id user_id = record st {
  device_links = insert st.device_links device_id user_id;
}

unfoldable pub user_for_device : AuthStore → String → Option String
user_for_device st device_id = lookup st.device_links device_id

unfoldable pub devices_for_user : AuthStore → String → List String
devices_for_user st user_id = map (λ l. l.0) (select (λ l. l.1 == user_id) st.device_links)

-- `self._counters.get(bucket, [])`
unfoldable pub hits : AuthStore → String → List ℤ
hits st bucket = elim (lookup st.counters bucket) [ none ↦ [] | some times ↦ times ]

abbrev pub kept_hits : AuthStore → String → ℤ → ℤ → List ℤ
kept_hits st bucket window_sec now =
    select (λ t. leb_ℤ (now -ℤ seconds window_sec) t) (hits st bucket)

-- `_live`: the hits in the window; the others are dropped from the store.
unfoldable pub live : AuthStore → String → ℤ → ℤ → List ℤ × AuthStore
live st bucket window_sec now =
    let kept = kept_hits st bucket window_sec now in
    (kept, record st { counters = insert st.counters bucket kept })

-- `hit`: the list that `_live` returns is the one in the store, so the append changes the store. The
-- clock is read in `_live` and for the new hit.
unfoldable pub hit : AuthStore → String → ℤ → ℤ → ℤ → ℕ × AuthStore
unfolding live
hit st bucket window_sec now stamp =
    let (kept, st1) = live st bucket window_sec now in
    let more = kept ++ (stamp ∷ []) in
    (length more, record st1 { counters = insert st1.counters bucket more })

unfoldable pub count : AuthStore → String → ℤ → ℤ → ℕ × AuthStore
unfolding live
count st bucket window_sec now =
    let (kept, st1) = live st bucket window_sec now in (length kept, st1)

unfoldable pub reset : AuthStore → String → AuthStore
reset st bucket = record st { counters = pop st.counters bucket }
