-- ===== src/Browser/Ledger.antt =====
-- ledger.py: the idempotency ledger. A dictionary is an association list with one entry a key.
pub mod Laws
use project_firestarter.Prelude.{
  ℕ, String, Bool, true, false, List, [], ◌∷◌, Option, none, some, Result, ok, err, value_error,
  key_error, String-Eq, ◌==◌, if◌then◌else◌, not,
}
use project_firestarter.Browser.Kinds.{
  LedgerStatus, planned, confirmed, handed_off, succeeded, failed, indeterminate, LedgerStatus-Eq,
  DecisionCode, idempotency_collision, prior_outcome_indeterminate, action_replayed, code_value,
}

pub record LedgerRecord : Type 0 where
  pub proposal_id : String
  pub idempotency_key : String
  pub proposal_digest : String
  pub status : LedgerStatus
  pub attempt : ℕ

-- `_by_key`
abbrev pub Ledger : Type 0
Ledger = List (String × LedgerRecord)

-- `ActionLedger.get`
unfoldable pub get : Ledger → String → Option LedgerRecord
get [] k = none
get ((j, r) ∷ l) k = if j == k then some r else get l k

-- `self._by_key[key] = record`
unfoldable pub put : Ledger → String → LedgerRecord → Ledger
put [] k r = (k, r) ∷ []
put ((j, q) ∷ l) k r = if j == k then (j, r) ∷ l else (j, q) ∷ put l k r

-- A proposal as the ledger sees it: its identity, its key and its digest.
pub record Entry : Type 0 where
  pub proposal_id : String
  pub idempotency_key : String
  pub digest : String

-- What a record found under the proposal's key means.
unfoldable pub replay_code : LedgerRecord → String → DecisionCode
replay_code current digest =
    if not (current.proposal_digest == digest)
    then idempotency_collision
    else if current.status == indeterminate
    then prior_outcome_indeterminate
    else action_replayed

-- `ActionLedger.preflight`
unfoldable pub preflight : Ledger → Entry → Option DecisionCode
unfolding get replay_code
preflight l e = elim (get l e.idempotency_key) [
  | none ↦ none
  | some current ↦ some (replay_code current e.digest)
]

abbrev pub fresh_record : Entry → LedgerRecord
fresh_record e = record {
  proposal_id = e.proposal_id;
  idempotency_key = e.idempotency_key;
  proposal_digest = e.digest;
  status = planned;
  attempt = 1;
}

-- `ActionLedger.plan`
unfoldable pub plan : Ledger → Entry → Result LedgerRecord × Ledger
unfolding preflight put code_value
plan l e = elim (preflight l e) [
  | some refusal ↦ (err (value_error (code_value refusal)), l)
  | none ↦ (ok (fresh_record e), put l e.idempotency_key (fresh_record e))
]

-- The pairs of `allowed` in `ActionLedger.transition`.
unfoldable pub allowed : LedgerStatus → LedgerStatus → Bool
allowed planned confirmed = true
allowed planned handed_off = true
allowed confirmed handed_off = true
allowed handed_off succeeded = true
allowed handed_off failed = true
allowed handed_off indeterminate = true
allowed _ _ = false

unfoldable pub move :
    Ledger → String → LedgerRecord → LedgerStatus → LedgerStatus → Result LedgerRecord × Ledger
unfolding allowed put
move l k current expected target =
    if not (current.status == expected)
    then (err (value_error "invalid ledger transition"), l)
    else if not (allowed expected target)
    then (err (value_error "forbidden ledger transition"), l)
    else (ok (record current { status = target }), put l k (record current { status = target }))

-- `ActionLedger.transition`
unfoldable pub transition :
    Ledger → String → LedgerStatus → LedgerStatus → Result LedgerRecord × Ledger
unfolding get move
transition l k expected target = elim (get l k) [
  | none ↦ (err (key_error k), l)
  | some current ↦ move l k current expected target
]
