-- ===== src/Browser/Policy/Evaluate.antt =====
-- `_authorize_handoff`, `evaluate` and `evaluate_citrix` of policy.py.
use project_firestarter.Prelude.{
  String, Bool, true, false, Option, none, some, ℤ, pos, ◌+ℤ◌, min_ℤ, String-Eq, ℤ_Eq, List-Eq,
  Result, ok, err, value_error, key_error, type_error, overflow_error, Error,
}
use project_firestarter.Browser.Kinds.{
  AdapterKind, AdapterKind-Eq, ActionKind-Eq, EffectClass-Eq, ConfirmationTier, unconfirmed,
  LedgerStatus, planned, confirmed, handed_off, DecisionCode, authorized_handoff, code_of,
}
use project_firestarter.Browser.Json.{FloatOps}
use project_firestarter.Browser.Binding.{DocumentBinding-Eq}
use project_firestarter.Browser.Grant.{ActionTarget-Eq, CapabilityGrant}
use project_firestarter.Browser.Observation.{SemanticObservation, CitrixObservation}
use project_firestarter.Browser.Proposal.{ActionProposal, Confirmation}
use project_firestarter.Browser.Ledger.{Ledger, LedgerRecord, plan, transition}
use project_firestarter.Browser.Handoff.{Handoff, Hashes, future_executor_handoff}
use project_firestarter.Browser.Policy.Preflight.{required_tier, common_preflight, entry_of, orelse}
use project_firestarter.Browser.Policy.Observe.{signals, observe_code, citrix_code}

pub record Decision (F : Type 0) : Type 0 where
  pub allowed : Bool
  pub code : DecisionCode
  pub required_confirmation : ConfirmationTier
  pub adapter : AdapterKind
  pub proposal_id : String
  pub handoff : Option (Handoff F)

module _ {F : Type 0} where
  -- `_decision`
  unfoldable pub decision :
      ActionProposal F → DecisionCode → ConfirmationTier → Bool → Option (Handoff F) → Decision F
  decision p code tier allowed handoff = record {
    allowed = allowed;
    code = code;
    required_confirmation = tier;
    adapter = p.adapter;
    proposal_id = p.proposal_id;
    handoff = handoff;
  }

  abbrev pub refusal : ActionProposal F → DecisionCode → ConfirmationTier → Decision F
  refusal p code tier = decision p code tier false none

-- A method of the policy: it may raise, and what it wrote to the ledger before stays written.
abbrev pub Exec : Type 0 → Type 0
Exec A = Ledger → Result A × Ledger

abbrev pub continue : {A B : Type 0} → Result A × Ledger → (A → Exec B) → Result B × Ledger
continue (ok a, l) f = f a l
continue (err e, l) f = (err e, l)

infixl 5 ◌>>=◌ ◌>>◌
abbrev pub ◌>>=◌ : {A B : Type 0} → Exec A → (A → Exec B) → Exec B
◌>>=◌ m f l = continue (m l) f

abbrev pub ◌>>◌ : {A B : Type 0} → Exec A → Exec B → Exec B
m >> k = m >>= λ _. k

abbrev pub lift : {A : Type 0} → Result A → Exec A
lift r l = (r, l)

-- `self.ledger.transition(key, expected, target)`
abbrev pub change : String → LedgerStatus → LedgerStatus → Exec LedgerRecord
change key expected target l = transition l key expected target

-- `if tier is not ConfirmationTier.NONE:` the confirmed step; the status that the handoff expects.
unfoldable pub confirm_step : String → ConfirmationTier → Exec LedgerStatus
confirm_step key unconfirmed l = (ok planned, l)
confirm_step key tier l = (do change key planned confirmed; lift (ok confirmed)) l

module _ {F : Type 0} (hashes : Hashes F) where
  open hashes use {json_hex}

  -- After `plan`: the transitions and the handoff.
  unfoldable pub hand_off :
      CapabilityGrant → ActionProposal F → ConfirmationTier → ℤ → Exec (Decision F)
  hand_off g p tier now = do
    expected ← confirm_step p.idempotency_key tier
    change p.idempotency_key expected handed_off
    handoff ← lift (
        future_executor_handoff hashes p g.grant_id g.expires_at_tick tier now
          (min_ℤ (min_ℤ p.expires_at_tick g.expires_at_tick) (now +ℤ pos 60)))
    lift (ok (decision p authorized_handoff tier true (some handoff)))

  -- `except ValueError as error`: the decision whose code is the error's text.
  unfoldable pub plan_refused : ActionProposal F → ConfirmationTier → Error → Result (Decision F)
  plan_refused p tier (value_error message) = elim (code_of message) [
    | ok code ↦ ok (refusal p code tier)
    | err e ↦ err e
  ]
  plan_refused p tier (key_error k) = err (key_error k)
  plan_refused p tier (type_error k) = err (type_error k)
  plan_refused p tier (overflow_error k) = err (overflow_error k)

  unfoldable pub after_plan :
      CapabilityGrant
      → ActionProposal F
      → ConfirmationTier
      → ℤ
      → Result LedgerRecord × Ledger
      → Result (Decision F) × Ledger
  after_plan g p tier now (err e, l) = (plan_refused p tier e, l)
  after_plan g p tier now (ok r, l) = hand_off g p tier now l

  -- `_authorize_handoff`
  unfoldable pub authorize_handoff :
      CapabilityGrant → ActionProposal F → ConfirmationTier → ℤ → Exec (Decision F)
  unfolding after_plan
  authorize_handoff g p tier now l = after_plan g p tier now (plan l (entry_of json_hex p))

  -- `if refusal is not None: return refusal`, or the handoff.
  unfoldable pub decide :
      CapabilityGrant
      → ActionProposal F
      → ConfirmationTier
      → ℤ
      → Option DecisionCode
      → Exec (Decision F)
  decide g p tier now (some code) l = (ok (refusal p code tier), l)
  decide g p tier now none l = authorize_handoff g p tier now l

  -- `evaluate`
  unfoldable pub evaluate :
      FloatOps F
      → CapabilityGrant
      → ActionProposal F
      → SemanticObservation F
      → ℤ
      → Option Confirmation
      → Exec (Decision F)
  evaluate ops g p o now c l =
      let tier = required_tier p (signals o) in
      decide g p tier now
        (orelse (common_preflight json_hex g p now l)
          (observe_code json_hex ops g p o now c tier (signals o)))
        l

  -- `evaluate_citrix`
  unfoldable pub evaluate_citrix :
      CapabilityGrant
      → ActionProposal F
      → CitrixObservation
      → ℤ
      → Option Confirmation
      → Exec (Decision F)
  evaluate_citrix g p o now c l =
      let tier = required_tier p false in
      decide g p tier now
        (orelse (common_preflight json_hex g p now l)
          (citrix_code json_hex p o now c tier p.adapter p.target))
        l
