-- ===== src/Browser/Policy/Confirm.antt =====
-- `_confirmation_valid` of policy.py.
use project_firestarter.Prelude.{
  String, Bool, ◌||◌, not, Option, none, some, ℤ, leb_ℤ, ltb, ◌==◌, String-Eq, ℤ_Eq, List-Eq,
  if◌then◌else◌,
}
use project_firestarter.Browser.Kinds.{
  AdapterKind-Eq, ActionKind-Eq, EffectClass-Eq, ConfirmationTier, unconfirmed, rank, DecisionCode,
  confirmation_required, confirmation_stale,
}
use project_firestarter.Browser.Json.{Json}
use project_firestarter.Browser.Binding.{DocumentBinding-Eq}
use project_firestarter.Browser.Grant.{ActionTarget-Eq}
use project_firestarter.Browser.Proposal.{ActionProposal, Confirmation, proposal_digest}

module _ {F : Type 0} where
  -- A confirmation that does not belong to this proposal at this time.
  unfoldable pub confirmation_differs :
      (Json F → String) → ActionProposal F → Confirmation → ℤ → Bool
  confirmation_differs json_hex p c now =
      leb_ℤ c.expires_at_tick now
      || not (c.proposal_id == p.proposal_id)
      || not (c.proposal_digest == proposal_digest json_hex p)
      || not (c.payload_digest == p.payload_digest)
      || not (c.document_id == p.binding.document_id)
      || not (c.document_generation == p.binding.document_generation)
      || not (c.surface_generation == p.binding.surface_generation)

  unfoldable pub given_confirmation :
      (Json F → String)
      → ActionProposal F
      → Option Confirmation
      → ConfirmationTier
      → ℤ
      → Option DecisionCode
  given_confirmation json_hex p none tier now = some confirmation_required
  given_confirmation json_hex p (some c) tier now =
      if ltb (rank c.tier) (rank tier)
      then some confirmation_required
      else if confirmation_differs json_hex p c now
      then some confirmation_stale
      else none

  -- `_confirmation_valid`
  unfoldable pub confirmation_valid :
      (Json F → String)
      → ActionProposal F
      → Option Confirmation
      → ConfirmationTier
      → ℤ
      → Option DecisionCode
  confirmation_valid json_hex p c unconfirmed now = none
  confirmation_valid json_hex p c tier now = given_confirmation json_hex p c tier now
