-- ===== src/Auth/Sessions.antt =====
-- Sequences of flows over one store, with the same settings. With the in-memory store a flow
-- suspends only while a code is delivered, after its last write, so the flows take effect one
-- after another.
use project_firestarter.Prelude.{ℕ, String, Bool, List, [], ◌∷◌, Option, ℤ}
use project_firestarter.Auth.Model.{Settings, Stdlib}
use project_firestarter.Auth.Store.{AuthStore}
use project_firestarter.Auth.Flows.{
  RequestClock, VerifyClock, request_otp, verify_otp, resolve_session, logout,
}

-- A call of one of the flows, with its arguments and what it reads from outside.
pub data Call : Type 0 where
  requests_otp : String → String → RequestClock → ℕ → Option Bool → Call
  verifies_otp : String → String → String → Option String → VerifyClock → String → String → Call
  resolves_session : String → ℤ → Call
  logs_out : String → Call

module _ (lib : Stdlib) (s : Settings) where
  -- The store after one call, and after a sequence.
  unfoldable pub called : Call → AuthStore → AuthStore
  called (requests_otp i c clock n sent) st = (request_otp lib s i c clock n sent st).1
  called (verifies_otp i c code d clock fresh token) st =
      (verify_otp lib s i c code d clock fresh token st).1
  called (resolves_session token now) st = (resolve_session lib token now st).1
  called (logs_out token) st = logout lib token st

  unfoldable pub all_called : List Call → AuthStore → AuthStore
  unfolding called
  all_called [] st = st
  all_called (c ∷ cs) st = all_called cs (called c st)
