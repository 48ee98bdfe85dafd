-- ===== src/Browser/Policy/Once.antt =====
-- Sessions of the gate: any sequence of evaluations, of either kind, and of outcome reports.
use project_firestarter.Prelude.{
  ℕ, suc, ◌≤◌, String, ◌≡◌, ◌⊎◌, inl, inr, refl, arith, Bool, true, false, List, [], ◌∷◌, Option,
  none, some, ℤ, Result, ok, err, ◌==◌, String-Eq, if◌then◌else◌, Bool-cases, Option-cases,
}
use project_firestarter.Browser.Kinds.{
  LedgerStatus, LedgerStatus-Eq, authorized_handoff, ConfirmationTier, DecisionCode,
}
use project_firestarter.Browser.Json.{FloatOps}
use project_firestarter.Browser.Grant.{CapabilityGrant}
use project_firestarter.Browser.Observation.{SemanticObservation, CitrixObservation}
use project_firestarter.Browser.Proposal.{ActionProposal, Confirmation}
use project_firestarter.Browser.Ledger.{Ledger, LedgerRecord, get, put, transition}
use project_firestarter.Browser.Ledger.Laws.{get-put}
use project_firestarter.Browser.Handoff.{Hashes, handoff_of}
use project_firestarter.Browser.Policy.Preflight.{required_tier}
use project_firestarter.Browser.Policy.Observe.{signals}
use project_firestarter.Browser.Policy.Evaluate.{
  Decision, decision, refusal, evaluate, evaluate_citrix,
}
use project_firestarter.Browser.Policy.Authorize.{handoff_for, handed_record}
use project_firestarter.Browser.Policy.Authorised.{evaluate_outcome}
use project_firestarter.Browser.Policy.Remote.{evaluate_citrix_outcome}

-- What a product may do with the gate and its ledger, in any order.
pub data Event (F : Type 0) : Type 0 where
  evaluates :
      CapabilityGrant → ActionProposal F → SemanticObservation F → ℤ → Option Confirmation → Event F
  evaluates_citrix :
      CapabilityGrant → ActionProposal F → CitrixObservation → ℤ → Option Confirmation → Event F
  reports : String → LedgerStatus → LedgerStatus → Event F

-- Whether the ledger has a record under the key.
abbrev pub recorded : Ledger → String → Bool
recorded l k = elim (get l k) [ none ↦ false | some r ↦ true ]

-- The decision is a handoff for the key.
abbrev pub hands_off : {F : Type 0} → String → Result (Option (Decision F)) → Bool
hands_off k (ok (some d)) = elim d.handoff [ none ↦ false | some h ↦ h.idempotency_key == k ]
hands_off k _ = false

abbrev pub decided :
    {F : Type 0} → Result (Decision F) × Ledger → Result (Option (Decision F)) × Ledger
decided (ok d, l) = (ok (some d), l)
decided (err e, l) = (err e, l)

abbrev pub undecided :
    {F : Type 0} → Result LedgerRecord × Ledger → Result (Option (Decision F)) × Ledger
undecided (ok r, l) = (ok none, l)
undecided (err e, l) = (err e, l)

recorded-put :
    (l : Ledger) (k j : String) (r : LedgerRecord)
    → recorded l j ≡ true
    → recorded (put l k r) j ≡ true
recorded-put l k j r h = ground (arith, get-put l k j r)

-- A transition forgets no record, whether it succeeds or raises.
recorded-transition :
    (l : Ledger) (k j : String) (a b : LedgerStatus)
    → recorded l j ≡ true
    → recorded (transition l k a b).1 j ≡ true
unfolding transition
recorded-transition l k j a b h = elim (Option-cases (get l k)) [
  | inl e ↦ rw (e, transition) h
  | inr (r, e) ↦ ground (arith, recorded-put l k j (record r { status = b }))
]

module _ {F : Type 0} (hashes : Hashes F) (ops : FloatOps F) where
  unfoldable pub step : Event F → Ledger → Result (Option (Decision F)) × Ledger
  step (evaluates g p o now c) l = decided (evaluate hashes ops g p o now c l)
  step (evaluates_citrix g p o now c) l = decided (evaluate_citrix hashes g p o now c l)
  step (reports k a b) l = undecided (transition l k a b)

  -- How many handoffs a session gives for the key.
  unfoldable pub handoffs : String → List (Event F) → Ledger → ℕ
  unfolding step
  handoffs k [] l = 0
  handoffs k (e ∷ es) l =
      let rest = handoffs k es (step e l).1 in if hands_off k (step e l).0 then suc rest else rest

  -- One event: it hands off a key that was not recorded and now is, or it hands nothing off and
  -- forgets no record.
  abbrev Effect : String → Ledger → Result (Option (Decision F)) × Ledger → Type 0
  Effect k l (r, l') =
      ((hands_off k r ≡ true) × (recorded l k ≡ false) × (recorded l' k ≡ true))
      ⊎ ((hands_off k r ≡ false) × (recorded l k ≡ true → recorded l' k ≡ true))

  handed-Effect :
      (k : String) (g : CapabilityGrant) (p : ActionProposal F) (tier : ConfirmationTier) (now : ℤ)
      (l : Ledger)
      → get l p.idempotency_key ≡ none
      → Effect k l (
          decided (
            ok (decision p authorized_handoff tier true (some (handoff_for hashes g p tier now))),
            put l p.idempotency_key (handed_record hashes p),
          ))
  unfolding decision handoff_of
  handed-Effect k g p tier now l h = elim (Bool-cases (p.idempotency_key == k)) [
    | inl e ↦
        let same = (String-Eq.agrees p.idempotency_key k).0 e in
        inl (
          e,
          rw (← same) (rw (h, recorded) refl),
          ground (arith, get-put l p.idempotency_key k (handed_record hashes p)),
        )
    | inr n ↦ inr (n, recorded-put l p.idempotency_key k (handed_record hashes p))
  ]

  refused-Effect :
      (k : String) (p : ActionProposal F) (code : DecisionCode) (tier : ConfirmationTier)
      (l : Ledger)
      → Effect k l (decided (ok (refusal p code tier), l))
  unfolding decision
  refused-Effect k p code tier l = inr (refl, λ h. h)

  report-Effect :
      (k : String) (l : Ledger) (x : Result LedgerRecord × Ledger)
      → (recorded l k ≡ true → recorded x.1 k ≡ true)
      → Effect k l (undecided x)
  report-Effect k l (ok r, l') h = inr (refl, h)
  report-Effect k l (err e, l') h = inr (refl, h)

  step-Effect : (k : String) (e : Event F) (l : Ledger) → Effect k l (step e l)
  unfolding step
  step-Effect k (evaluates g p o now c) l = elim (evaluate_outcome hashes ops g p o now c l) [
    | inl (a, q) ↦
        rw q (handed-Effect k g p (required_tier p (signals o)) now l a.permitted.unrecorded)
    | inr (n, (code, q)) ↦ rw q (refused-Effect k p code (required_tier p (signals o)) l)
  ]
  step-Effect k (evaluates_citrix g p o now c) l =
      elim (evaluate_citrix_outcome hashes g p o now c l) [
        | inl (a, q) ↦
            rw q (handed-Effect k g p (required_tier p false) now l a.permitted.unrecorded)
        | inr (n, (code, q)) ↦ rw q (refused-Effect k p code (required_tier p false) l)
      ]
  step-Effect k (reports j a b) l =
      report-Effect k l (transition l j a b) (recorded-transition l j k a b)

  -- Once a key is recorded, no later event hands it off.
  pub recorded_no_handoff :
      (k : String) (es : List (Event F)) (l : Ledger) → recorded l k ≡ true → handoffs k es l ≡ 0
  unfolding handoffs
  recorded_no_handoff k [] l h = refl
  recorded_no_handoff k (e ∷ es) l h = elim (step-Effect k e l) [
    | inl (a, b, c) ↦ cc
    | inr (a, b) ↦ rw a (recorded_no_handoff k es (step e l).1 (b h))
  ]

  -- In any session, from any ledger, a key is handed off at most once.
  pub handoffs-le-one : (k : String) (es : List (Event F)) (l : Ledger) → handoffs k es l ≤ 1
  unfolding handoffs
  handoffs-le-one k [] l = omega arith
  handoffs-le-one k (e ∷ es) l = elim (step-Effect k e l) [
    | inl (a, b, c) ↦ rw (a, recorded_no_handoff k es (step e l).1 c) (omega arith)
    | inr (a, b) ↦ rw a (handoffs-le-one k es (step e l).1)
  ]
