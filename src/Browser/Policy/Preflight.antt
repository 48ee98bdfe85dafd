-- ===== src/Browser/Policy/Preflight.antt =====
-- `_required_tier` and `_common_preflight` of policy.py, as the code of the refusal.
use project_firestarter.Prelude.{
  String, Bool, false, ◌||◌, not, List, Option, none, some, ℤ, leb_ℤ, ltb, any, length, member,
  subset, to_set, ◌==◌, String-Eq, ℤ_Eq, List-Eq, if◌then◌else◌,
}
use project_firestarter.Browser.Kinds.{
  AdapterKind-Eq, ActionKind-Eq, EffectClass, edit_draft, external_submit, destructive,
  EffectClass-Eq, ConfirmationTier, action_bound, max_tier, DecisionCode, intent_unsupported,
  adapter_not_allowed, effect_not_allowed, target_not_allowed, origin_not_allowed,
  frame_not_allowed, cross_origin_frame_blocked, precondition_failed, postcondition_required,
  reversal_required,
}
use project_firestarter.Browser.Json.{Json}
use project_firestarter.Browser.Binding.{DocumentBinding-Eq}
use project_firestarter.Browser.Targets.{kind, contract_digest}
use project_firestarter.Browser.Grant.{ActionTarget, ActionTarget-Eq, CapabilityGrant}
use project_firestarter.Browser.Proposal.{ActionProposal, proposal_digest}
use project_firestarter.Browser.Ledger.{Ledger, Entry, preflight}
use project_firestarter.Browser.Policy.Tables.{
  action_effect, required_postcondition, effect_confirmation, reversals, optional_in, is_none,
  is_reversible, is_irreversible, is_citrix, required_preconditions,
}

-- Second: the chain of origins.
unfoldable pub origin_code : CapabilityGrant → List String → Option DecisionCode
origin_code g chain =
    if any (λ o. not (member o g.allowed_origin_ids)) chain
    then some origin_not_allowed
    else if not (member chain g.allowed_frame_origin_chains)
    then some
        (if ltb 1 (length (to_set chain)) then cross_origin_frame_blocked else frame_not_allowed)
    else none

abbrev pub orelse : Option DecisionCode → Option DecisionCode → Option DecisionCode
orelse (some code) rest = some code
orelse none rest = rest

module _ {F : Type 0} where
  -- `_required_tier`
  unfoldable pub required_tier : ActionProposal F → Bool → ConfirmationTier
  unfolding effect_confirmation
  required_tier p signaled =
      let base = effect_confirmation p.effect in
      let bound = if is_citrix p.adapter then max_tier base action_bound else base in
      if signaled then max_tier bound action_bound else bound

  -- The tests of `_common_preflight` in their order, in three groups. First: time, task and what
  -- the grant allows.
  unfoldable pub scope_code :
      (Json F → String) → CapabilityGrant → ActionProposal F → ℤ → Option DecisionCode
  unfolding action_effect kind contract_digest
  scope_code json_hex g p now =
      if leb_ℤ g.expires_at_tick now || leb_ℤ p.expires_at_tick now
      then some precondition_failed
      else if not (p.task_id == g.task_id)
      then some precondition_failed
      else if not (member p.adapter g.allowed_adapters)
      then some adapter_not_allowed
      else if not (member p.effect g.allowed_effects)
      then some effect_not_allowed
      else if not (action_effect p.action == p.effect)
      then some intent_unsupported
      else if not (member wanted g.allowed_action_targets)
      then some target_not_allowed
      else none
    where
      wanted : ActionTarget
      wanted = record {
        adapter = p.adapter;
        action = p.action;
        effect = p.effect;
        target_kind = kind p.target;
        target_digest = contract_digest json_hex p.target;
      }

  -- A draft edit declares how it is reversed; a submission or a destructive effect declares that
  -- it is not.
  unfoldable pub reversal_missing : ActionProposal F → EffectClass → Bool
  unfolding reversals
  reversal_missing p edit_draft =
      not (is_reversible p.reversibility)
      || not (optional_in p.reversal_action (reversals p.action))
      || is_none p.reversal_payload_digest
  reversal_missing p external_submit =
      not (is_irreversible p.reversibility)
      || not (is_none p.reversal_action)
      || not (is_none p.reversal_payload_digest)
  reversal_missing p destructive =
      not (is_irreversible p.reversibility)
      || not (is_none p.reversal_action)
      || not (is_none p.reversal_payload_digest)
  reversal_missing p _ = false

  -- Third: declared conditions and reversal.
  unfoldable pub condition_code : ActionProposal F → Option DecisionCode
  unfolding required_preconditions required_postcondition reversal_missing
  condition_code p =
      if not (subset (required_preconditions p.action) p.preconditions)
      then some precondition_failed
      else if not (member (required_postcondition p.effect) p.postconditions)
      then some postcondition_required
      else if reversal_missing p p.effect
      then some reversal_required
      else none

  abbrev pub entry_of : (Json F → String) → ActionProposal F → Entry
  entry_of json_hex p = record {
    proposal_id = p.proposal_id;
    idempotency_key = p.idempotency_key;
    digest = proposal_digest json_hex p;
  }

  -- `_common_preflight`: the code of its refusal, if it refuses.
  unfoldable pub common_preflight :
      (Json F → String) → CapabilityGrant → ActionProposal F → ℤ → Ledger → Option DecisionCode
  unfolding scope_code origin_code condition_code preflight
  common_preflight json_hex g p now ledger = orelse (scope_code json_hex g p now) (
      orelse (origin_code g p.binding.origin_ids)
        (orelse (condition_code p) (preflight ledger (entry_of json_hex p))))
