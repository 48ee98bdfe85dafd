-- ===== src/Browser/Policy/Settled.antt =====
-- Recorded outcomes through sessions of the gate.
use project_firestarter.Prelude.{
  String, ◌≡◌, ◌≢◌, ◌↔◌, if◌then◌else◌, ◌⊎◌, inl, inr, refl, ap, sym, subst, ◌∙◌, value_error,
  key_error, arith, true, List, [], ◌∷◌, none, some, ok, err, Error, ◌==◌, String-Eq, Bool-cases,
  Option-cases,
}
use project_firestarter.Browser.Kinds.{
  LedgerStatus, planned, confirmed, handed_off, succeeded, failed, indeterminate, LedgerStatus-Eq,
}
use project_firestarter.Browser.Json.{FloatOps}
use project_firestarter.Browser.Ledger.{Ledger, LedgerRecord, get, put, allowed, move, transition}
use project_firestarter.Browser.Ledger.Laws.{get-put}
use project_firestarter.Browser.Handoff.{Hashes}
use project_firestarter.Browser.Policy.Authorised.{evaluate_outcome}
use project_firestarter.Browser.Policy.Remote.{evaluate_citrix_outcome}
use project_firestarter.Browser.Policy.Once.{Event, evaluates, evaluates_citrix, reports, step}

abbrev pub IsSettled : LedgerStatus → Type 0
IsSettled s = (s ≡ succeeded) ⊎ (s ≡ failed) ⊎ (s ≡ indeterminate)

not_from_settled : (a b : LedgerStatus) → IsSettled a → allowed a b ≡ true → ⊥
unfolding allowed
not_from_settled a b h k = ground arith

-- The steps of an action's life: a plan may be confirmed or handed off at once, a confirmed action is
-- handed off, and what was handed off ends in one of three ways.
abbrev pub MayFollow : LedgerStatus → LedgerStatus → Type 0
MayFollow a b =
    ((a ≡ planned) × ((b ≡ confirmed) ⊎ (b ≡ handed_off)))
    ⊎ ((a ≡ confirmed) × (b ≡ handed_off))
    ⊎ ((a ≡ handed_off) × IsSettled b)

allowed-MayFollow : (a b : LedgerStatus) → (allowed a b ≡ true) ↔ MayFollow a b
unfolding allowed
allowed-MayFollow a b = ground arith

-- Why a transition of a record raises.
abbrev pub RefusedFrom : LedgerRecord → LedgerStatus → LedgerStatus → Error → Type 0
RefusedFrom r a b e =
    ((r.status ≢ a) × (e ≡ value_error "invalid ledger transition"))
    ⊎ ((r.status ≡ a) × (¬ MayFollow a b) × (e ≡ value_error "forbidden ledger transition"))

-- Why a transition raises.
abbrev pub Refused : Ledger → String → LedgerStatus → LedgerStatus → Error → Type 0
Refused l k a b e =
    ((get l k ≡ none) × (e ≡ key_error k))
    ⊎ ((r : LedgerRecord) × (get l k ≡ some r) × RefusedFrom r a b e)

move_cases :
    (l : Ledger) (k : String) (r : LedgerRecord) (a b : LedgerStatus)
    → ((r.status ≡ a)
        × (allowed a b ≡ true)
        × (move l k r a b ≡ (ok (record r { status = b }), put l k (record r { status = b }))))
      ⊎ ((e : Error) × (move l k r a b ≡ (err e, l)) × RefusedFrom r a b e)
unfolding move
move_cases l k r a b = elim (Bool-cases (r.status == a)) [
  | inr n ↦ inr (
    value_error "invalid ledger transition",
    rw n refl,
    inl ((λ p. ground (arith, LedgerStatus-Eq.agrees r.status a)), refl),
  )
  | inl p ↦
      let same = (LedgerStatus-Eq.agrees r.status a).0 p in
      elim (Bool-cases (allowed a b)) [
        | inr n ↦ inr (
          value_error "forbidden ledger transition",
          rw (p, n) refl,
          inr (same, (λ m. ground (arith, (allowed-MayFollow a b).1 m)), refl),
        )
        | inl q ↦ inl (same, q, rw (p, q) refl)
      ]
]

transition_cases :
    (l : Ledger) (k : String) (a b : LedgerStatus)
    → ((r : LedgerRecord) × (get l k ≡ some r)
        × (r.status ≡ a)
        × (allowed a b ≡ true)
        × (transition l k a b ≡ (ok (record r { status = b }), put l k (record r { status = b }))))
      ⊎ ((e : Error) × (transition l k a b ≡ (err e, l)) × Refused l k a b e)
unfolding transition
transition_cases l k a b = elim (Option-cases (get l k)) [
  | inl e ↦ inr (key_error k, rw (e, transition) refl, inl (e, refl))
  | inr (r, e) ↦ elim (move_cases l k r a b) [
    | inl (p, q, m) ↦ inl (r, e, p, q, rw (e, transition) m)
    | inr (x, m, why) ↦ inr (x, rw (e, transition) m, inr (r, e, why))
  ]
]

-- A transition finds a record under its key, in the status it expects, from which the target may
-- follow, and then that record has the target's status, no other key's record is touched and the
-- new record is the result; or it raises, for one of the three reasons and with its message, and the
-- ledger is as it was.
pub transition_outcome :
    (l : Ledger) (k : String) (a b : LedgerStatus) (other : String)
    → ((r : LedgerRecord) × (left : Ledger) × (get l k ≡ some r)
        × (r.status ≡ a)
        × MayFollow a b
        × (transition l k a b ≡ (ok (record r { status = b }), left))
        × (get left other ≡ (if k == other then some (record r { status = b }) else get l other)))
      ⊎ ((e : Error) × (transition l k a b ≡ (err e, l)) × Refused l k a b e)
transition_outcome l k a b other = elim (transition_cases l k a b) [
  | inl (r, e, p, q, t) ↦ inl (
    r,
    put l k (record r { status = b }),
    e,
    p,
    (allowed-MayFollow a b).0 q,
    t,
    get-put l k other (record r { status = b }),
  )
  | inr w ↦ inr w
]

moved_unsettled :
    (x r : LedgerRecord) (a b : LedgerStatus)
    → x ≡ r
    → x.status ≡ a
    → allowed a b ≡ true
    → IsSettled r.status
    → ⊥
moved_unsettled x r a b e p q s =
    not_from_settled a b (subst IsSettled (sym (ap (λ y. y.status) e) ∙ p) s) q

get-put_other :
    (l : Ledger) (j k : String) (q : LedgerRecord) {r : LedgerRecord}
    → j ≢ k
    → get l k ≡ some r
    → get (put l j q) k ≡ some r
get-put_other l j k q n h = ground (arith, get-put l j k q, String-Eq.agrees j k)

module _ {F : Type 0} (hashes : Hashes F) (ops : FloatOps F) where
  -- The ledger after a session.
  unfoldable pub final : List (Event F) → Ledger → Ledger
  unfolding step
  final [] l = l
  final (e ∷ es) l = final es (step hashes ops e l).1

  unrecorded-ne :
      (l : Ledger) (j k : String) {r : LedgerRecord} → get l j ≡ none → get l k ≡ some r → j ≢ k
  unrecorded-ne l j k h g e = cc (h, g, ap (get l) e)

  step_settled :
      (e : Event F) (l : Ledger) (k : String) (r : LedgerRecord)
      → get l k ≡ some r
      → IsSettled r.status
      → get (step hashes ops e l).1 k ≡ some r
  unfolding step
  step_settled (evaluates g p o now c) l k r h s =
      elim (evaluate_outcome hashes ops g p o now c l) [
        | inl (a, q) ↦ rw q (
            get-put_other l p.idempotency_key k _
              (unrecorded-ne l p.idempotency_key k a.permitted.unrecorded h) h)
        | inr (n, (code, q)) ↦ rw q h
      ]
  step_settled (evaluates_citrix g p o now c) l k r h s =
      elim (evaluate_citrix_outcome hashes g p o now c l) [
        | inl (a, q) ↦ rw q (
            get-put_other l p.idempotency_key k _
              (unrecorded-ne l p.idempotency_key k a.permitted.unrecorded h) h)
        | inr (n, (code, q)) ↦ rw q h
      ]
  step_settled (reports j a b) l k r h s = elim (transition_cases l j a b) [
    | inr (e, q, why) ↦ rw q h
    | inl (x, f, p, q, t) ↦
        rw t
          (get-put_other l j k _ (λ e. moved_unsettled x r a b (cc (f, h, ap (get l) e)) p q s) h)
  ]

  -- Once a key's outcome is recorded as succeeded, failed or indeterminate, its record stays as it
  -- is through any session.
  pub settled_forever :
      (es : List (Event F)) (l : Ledger) (k : String) (r : LedgerRecord)
      → get l k ≡ some r
      → IsSettled r.status
      → get (final es l) k ≡ some r
  unfolding final
  settled_forever [] l k r h s = h
  settled_forever (e ∷ es) l k r h s =
      settled_forever es (step hashes ops e l).1 k r (step_settled e l k r h s) s
