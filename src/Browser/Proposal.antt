-- ===== src/Browser/Proposal.antt =====
-- `ActionProposal` and `Confirmation` of contracts.py.
use project_firestarter.Prelude.{
  sorted, String, Bool, ◌||◌, not, List, [], ◌∷◌, Option, none, some, ℤ, ltb, length, subset,
  String-Eq, Result, refuse_if, ◌>>◌,
}
use project_firestarter.Browser.Kinds.{
  AdapterKind, ActionKind, EffectClass, ConfirmationTier, Reversibility, adapter_value,
  action_value, effect_value, reversibility_value,
}
use project_firestarter.Browser.Ids.{require_id, safe_digest}
use project_firestarter.Browser.Json.{
  Json, str, int, arr, obj, end, field, strings, ints, optional_str, canonical_digest,
}
use project_firestarter.Browser.Binding.{DocumentBinding, negative}
use project_firestarter.Browser.Targets.{Target, target_dict}

pub record ActionProposal (F : Type 0) : Type 0 where
  pub proposal_id : String
  pub idempotency_key : String
  pub task_id : String
  pub action : ActionKind
  pub effect : EffectClass
  pub adapter : AdapterKind
  pub binding : DocumentBinding
  pub target : Target F
  pub payload_digest : String
  pub preconditions : List String
  pub postconditions : List String
  pub reversibility : Reversibility
  pub reversal_action : Option ActionKind
  pub reversal_payload_digest : Option String
  pub expires_at_tick : ℤ

pub record Confirmation : Type 0 where
  pub confirmation_id : String
  pub proposal_id : String
  pub proposal_digest : String
  pub payload_digest : String
  pub document_id : String
  pub document_generation : ℤ
  pub surface_generation : ℤ
  pub tier : ConfirmationTier
  pub expires_at_tick : ℤ

abbrev pub allowed_preconditions : List String
allowed_preconditions =
    "task-bound" ∷ "document-current" ∷ "frame-current" ∷ "origin-allowed" ∷ "target-unique"
    ∷ "target-actionable" ∷ "payload-bound" ∷ "focus-current" ∷ "geometry-current"
    ∷ "remote-session-current" ∷ "confirmation-current" ∷ "reversal-ready" ∷ []

abbrev pub allowed_postconditions : List String
allowed_postconditions =
    "state-observed" ∷ "navigation-reconciled" ∷ "draft-reconciled" ∷ "external-effect-reconciled"
    ∷ "destructive-effect-reconciled" ∷ []

abbrev pub bad_optional_digest : Option String → Bool
bad_optional_digest none = Bool.false
bad_optional_digest (some d) = not (safe_digest d)

-- `Confirmation.__post_init__`
unfoldable pub confirmation_init : Confirmation → Result (Unit {0})
confirmation_init c = do
  require_id c.confirmation_id "confirmation_id"
  require_id c.proposal_id "proposal_id"
  require_id c.document_id "document_id"
  refuse_if (not (safe_digest c.proposal_digest)) "proposal_digest must be a sha256 digest"
  refuse_if (not (safe_digest c.payload_digest)) "payload_digest must be a sha256 digest"
  refuse_if
      (negative c.document_generation
        || negative c.surface_generation
        || negative c.expires_at_tick)
      "confirmation generations and expiry must be non-negative"

-- `self.reversal_action.value if self.reversal_action is not None else None`
abbrev pub optional_action : Option ActionKind → Option String
optional_action none = none
optional_action (some a) = some (action_value a)

module _ {F : Type 0} where
  -- `ActionProposal.__post_init__`
  unfoldable pub proposal_init : ActionProposal F → Result (Unit {0})
  proposal_init p = do
    require_id p.proposal_id "proposal_id"
    require_id p.idempotency_key "idempotency_key"
    require_id p.task_id "task_id"
    refuse_if (not (safe_digest p.payload_digest)) "payload_digest must be a sha256 digest"
    refuse_if (bad_optional_digest p.reversal_payload_digest)
        "reversal_payload_digest must be a sha256 digest"
    refuse_if (negative p.expires_at_tick) "expires_at_tick must be non-negative"
    refuse_if (not (subset p.preconditions allowed_preconditions)) "unknown precondition"
    refuse_if (not (subset p.postconditions allowed_postconditions)) "unknown postcondition"
    refuse_if (ltb 16 (length p.preconditions) || ltb 8 (length p.postconditions))
        "condition set exceeds policy bound"

  -- The dictionary `binding` of `proposal_digest`.
  unfoldable pub binding_dict : DocumentBinding → Json F
  unfolding ints strings
  binding_dict b = obj (
      field "tabId" (int b.tab_id) (
        field "documentId" (str b.document_id) (
          field "frameIds" (arr (ints b.frame_ids)) (
            field "originIds" (arr (strings b.origin_ids)) (
              field "frameDocumentIds" (arr (strings b.frame_document_ids)) (
                field "frameGenerations" (arr (ints b.frame_generations)) (
                  field "documentGeneration" (int b.document_generation) (
                    field "surfaceGeneration" (int b.surface_generation)
                      (field "adapterVersion" (str b.adapter_version) end)))))))))

  -- The dictionary `canonical` of `proposal_digest`.
  unfoldable pub canonical_dict : ActionProposal F → Json F
  unfolding binding_dict target_dict optional_str strings sorted
  canonical_dict p = obj (
      field "taskId" (str p.task_id) (
        field "action" (str (action_value p.action)) (
          field "effect" (str (effect_value p.effect)) (
            field "adapter" (str (adapter_value p.adapter)) (
              field "binding" (binding_dict p.binding) (
                field "target" (target_dict p.target) (
                  field "payloadDigest" (str p.payload_digest) (
                    field "preconditions" (arr (strings (sorted p.preconditions))) (
                      field "postconditions" (arr (strings (sorted p.postconditions))) (
                        field "reversibility" (str (reversibility_value p.reversibility)) (
                          field "reversalAction" (optional_str (optional_action p.reversal_action))
                            (field "reversalPayloadDigest" (optional_str p.reversal_payload_digest)
                              (field "expiresAtTick" (int p.expires_at_tick) end)))))))))))))

  -- The property `proposal_digest`.
  unfoldable pub proposal_digest : (Json F → String) → ActionProposal F → String
  unfolding canonical_dict canonical_digest
  proposal_digest sha256_hex p = canonical_digest sha256_hex (canonical_dict p)

  -- `to_contract_dict`, with the dictionary `binding` of its own.
  unfoldable pub proposal_contract_dict : (Json F → String) → ActionProposal F → Json F
  unfolding binding_dict target_dict optional_str strings sorted proposal_digest
  proposal_contract_dict sha256_hex p = obj (
      field "schemaVersion" (str "1.0") (
        field "proposalId" (str p.proposal_id) (
          field "idempotencyKey" (str p.idempotency_key) (
            field "taskId" (str p.task_id) (
              field "action" (str (action_value p.action)) (
                field "effect" (str (effect_value p.effect)) (
                  field "adapter" (str (adapter_value p.adapter)) (
                    field "binding" (binding_dict p.binding) (
                      field "target" (target_dict p.target) (
                        field "payloadDigest" (str p.payload_digest) (
                          field "preconditions" (arr (strings (sorted p.preconditions))) (
                            field "postconditions" (arr (strings (sorted p.postconditions))) (
                              field "reversibility" (str (reversibility_value p.reversibility)) (
                                field "reversalAction"
                                  (optional_str (optional_action p.reversal_action))
                                  (field "reversalPayloadDigest"
                                    (optional_str p.reversal_payload_digest)
                                    (field "expiresAtTick" (int p.expires_at_tick) (
                                      field "proposalDigest" (str (proposal_digest sha256_hex p))
                                        end)))))))))))))))))
