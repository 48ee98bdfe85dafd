-- ===== src/Browser/Policy/Observe.antt =====
-- What `evaluate` and `evaluate_citrix` of policy.py check after the preflight, as codes.
use mathlib.Core.Option
use project_firestarter.Browser.Targets.{RelativeTargetContract}
use project_firestarter.Prelude.{
  String, Bool, true, ◌&&◌, ◌||◌, not, Option, none, some, ℤ, ◌==◌, String-Eq, ℤ_Eq, List-Eq,
  if◌then◌else◌,
}
use project_firestarter.Browser.Kinds.{
  AdapterKind, semantic_dom, relative_xy, citrix_remote, AdapterKind-Eq, ActionKind-Eq,
  EffectClass-Eq, ConfirmationTier, DecisionCode, intent_unsupported, adapter_not_allowed,
  stale_handle, document_changed, frame_changed, semantic_required, geometry_not_allowed,
  precondition_failed, confirmation_required, confirmation_stale, prompt_injection_review,
}
use project_firestarter.Browser.Json.{Json, FloatOps}
use project_firestarter.Browser.Binding.{DocumentBinding, DocumentBinding-Eq}
use project_firestarter.Browser.Targets.{Target, semantic, relative, remote}
use project_firestarter.Browser.Grant.{ActionTarget-Eq, CapabilityGrant, is_empty}
use project_firestarter.Browser.Observation.{
  ElementCandidate, SemanticObservation, CitrixObservation,
}
use project_firestarter.Browser.Proposal.{ActionProposal, Confirmation}
use project_firestarter.Browser.Adapters.{
  semantic_locator, relative_locator, resolve_semantic, validate_geometry, validate_citrix,
}
use project_firestarter.Browser.Policy.Tables.{is_focus_action}
use project_firestarter.Browser.Policy.Preflight.{orelse}
use project_firestarter.Browser.Policy.Confirm.{confirmation_valid}

-- A missing confirmation is reported as a review if the page tried to instruct the agent.
unfoldable pub reviewed : Bool → DecisionCode → DecisionCode
reviewed true confirmation_required = prompt_injection_review
reviewed _ code = code

module _ {F : Type 0} where
  -- `proposal.binding != observation.binding`: which change is reported.
  unfoldable pub stale_code :
      ActionProposal F → DocumentBinding → Option Confirmation → DecisionCode
  stale_code p seen (some c) = confirmation_stale
  stale_code p seen none =
      if not (p.binding.document_id == seen.document_id)
      then document_changed
      else if not (p.binding.frame_ids == seen.frame_ids)
          || not (p.binding.frame_document_ids == seen.frame_document_ids)
          || not (p.binding.frame_generations == seen.frame_generations)
      then frame_changed
      else stale_handle

  abbrev pub signals : SemanticObservation F → Bool
  signals o = not (is_empty o.prompt_injection_signal_ids)

  -- `if semantic_code is not DecisionCode.SEMANTIC_REQUIRED or candidate is None`, and what follows.
  unfoldable pub relative_code :
      FloatOps F
      → CapabilityGrant
      → RelativeTargetContract F
      → Option (ElementCandidate F)
      → Option DecisionCode
      → Option DecisionCode
  relative_code ops g t candidate none = some geometry_not_allowed
  relative_code ops g t (some c) (some semantic_required) =
      if not g.allow_geometry_fallback then some geometry_not_allowed else validate_geometry ops c t
  relative_code ops g t candidate (some code) = some code

  -- `resolve_semantic`, if the target is semantic or relative, and the branch on the adapter.
  unfoldable pub adapter_code :
      FloatOps F
      → CapabilityGrant
      → DocumentBinding
      → SemanticObservation F
      → AdapterKind
      → Target F
      → Option DecisionCode
  adapter_code ops g b o semantic_dom (semantic t) = (resolve_semantic (semantic_locator t) b o).1
  adapter_code ops g b o semantic_dom target = some intent_unsupported
  adapter_code ops g b o relative_xy (relative t) =
      let (candidate, code) = resolve_semantic (relative_locator t) b o in
      relative_code ops g t candidate code
  adapter_code ops g b o relative_xy target = some intent_unsupported
  adapter_code ops g b o citrix_remote target = some adapter_not_allowed

module _ {F : Type 0} (json_hex : Json F → String) where
  -- The checks of `evaluate` after the preflight.
  unfoldable pub observe_code :
      FloatOps F
      → CapabilityGrant
      → ActionProposal F
      → SemanticObservation F
      → ℤ
      → Option Confirmation
      → ConfirmationTier
      → Bool
      → Option DecisionCode
  observe_code ops g p o now c tier signaled =
      if not (p.binding == o.binding)
      then some (stale_code p o.binding c)
      else if is_focus_action p.action && not o.focus_confirmed
      then some precondition_failed
      else orelse (adapter_code ops g p.binding o p.adapter p.target)
          (Option.map (reviewed signaled) (confirmation_valid json_hex p c tier now))

  -- The checks of `evaluate_citrix` after the preflight.
  unfoldable pub citrix_code :
      ActionProposal F
      → CitrixObservation
      → ℤ
      → Option Confirmation
      → ConfirmationTier
      → AdapterKind
      → Target F
      → Option DecisionCode
  citrix_code p o now c tier citrix_remote (remote t) =
      orelse (validate_citrix o t) (confirmation_valid json_hex p c tier now)
  citrix_code p o now c tier citrix_remote target = some intent_unsupported
  citrix_code p o now c tier adapter target = some adapter_not_allowed
