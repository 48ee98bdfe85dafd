-- ===== src/Browser/Ledger/Laws.antt =====
-- The dictionary laws of the ledger, and its three operations in terms of `get`.
use project_firestarter.Prelude.{
  String, ◌≡◌, refl, subst, arith, true, [], ◌∷◌, none, some, ok, err, value_error, String-Eq, ◌==◌,
  if◌then◌else◌,
}
use project_firestarter.Browser.Kinds.{LedgerStatus, LedgerStatus-Eq, code_value}
use project_firestarter.Browser.Ledger.{
  Ledger, LedgerRecord, Entry, get, put, preflight, plan, fresh_record, replay_code, allowed,
  transition,
}

pub get-put :
    (l : Ledger) (k j : String) (r : LedgerRecord)
    → get (put l k r) j ≡ (if k == j then some r else get l j)
unfolding get put
get-put [] k j r = refl
get-put ((i, q) ∷ l) k j r =
    ground
      (arith, String-Eq.agrees k j, String-Eq.agrees i k, String-Eq.agrees i j, get-put l k j r)

pub get-put_self : (l : Ledger) (k : String) (r : LedgerRecord) → get (put l k r) k ≡ some r
get-put_self l k r = rw (get-put l k k r, (String-Eq.agrees k k).1 refl) refl

pub preflight-none :
    (l : Ledger) (e : Entry) → preflight l e ≡ none → get l e.idempotency_key ≡ none
unfolding preflight
preflight-none l e h = ground arith

pub none-preflight :
    (l : Ledger) (e : Entry) → get l e.idempotency_key ≡ none → preflight l e ≡ none
unfolding preflight
none-preflight l e h = rw (h, preflight) refl

-- A second write under one key replaces the first.
pub put-put : (l : Ledger) (k : String) (q r : LedgerRecord) → put (put l k q) k r ≡ put l k r
unfolding put
put-put [] k q r = rw ((String-Eq.agrees k k).1 refl) refl
put-put ((i, p) ∷ l) k q r = ground (arith, put-put l k q r)

pub plan-fresh :
    (l : Ledger) (e : Entry)
    → get l e.idempotency_key ≡ none
    → plan l e ≡ (ok (fresh_record e), put l e.idempotency_key (fresh_record e))
unfolding plan preflight
plan-fresh l e h = rw (h, plan, preflight) refl

pub plan-recorded :
    (l : Ledger) (e : Entry) {r : LedgerRecord}
    → get l e.idempotency_key ≡ some r
    → plan l e ≡ (err (value_error (code_value (replay_code r e.digest))), l)
unfolding plan preflight
plan-recorded l e h = rw (h, plan, preflight) refl

-- A transition from the record's own status along an allowed pair.
pub transition-put :
    (l : Ledger) (k : String) (r : LedgerRecord) (a b : LedgerStatus)
    → r.status ≡ a
    → allowed a b ≡ true
    → transition (put l k r) k a b
      ≡ (ok (record r { status = b }), put l k (record r { status = b }))
unfolding transition
transition-put l k r a b p =
    subst
      (λ c.
        allowed c b ≡ true
        → transition (put l k r) k c b
          ≡ (ok (record r { status = b }), put l k (record r { status = b })))
      p
      (λ q.
        rw
          (
            transition,
            get-put_self l k r,
            (LedgerStatus-Eq.agrees r.status r.status).1 refl,
            q,
            put-put l k r (record r { status = b }),
          )
          refl)
