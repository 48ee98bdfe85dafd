-- ===== src/Browser/Kinds.antt =====
-- The enumerations of contracts.py, with the `value` of each member.
use project_firestarter.Prelude.{
  ℕ, String, ◌≡◌, List, [], ◌∷◌, refl, String-Eq, ◌==◌, Result, ok, err, value_error, Eq, decision,
  decision_iff, ltb, if◌then◌else◌,
}

pub data AdapterKind : Type 0 where
  semantic_dom relative_xy citrix_remote : AdapterKind

pub data ActionKind : Type 0 where
  observe focus activate set_value clear_value choose navigate external_send submit delete
        grant_permission upload :
      ActionKind

pub data EffectClass : Type 0 where
  observes navigates edit_draft external_submit destructive : EffectClass

pub data ConfirmationTier : Type 0 where
  unconfirmed user_intent action_bound owner_external : ConfirmationTier

pub data Reversibility : Type 0 where
  read_only reversible compensating irreversible : Reversibility

pub data LedgerStatus : Type 0 where
  planned confirmed handed_off succeeded failed indeterminate : LedgerStatus

pub data DecisionCode : Type 0 where
  authorized_handoff executor_not_configured intent_unsupported adapter_not_allowed
        effect_not_allowed target_not_allowed origin_not_allowed frame_not_allowed
        cross_origin_frame_blocked stale_handle document_changed frame_changed target_not_found
        target_ambiguous target_hidden target_disabled target_unstable target_obscured
        shadow_root_closed semantic_required geometry_not_allowed geometry_untrained geometry_drift
        remote_session_changed remote_frame_stale precondition_failed postcondition_required
        confirmation_required confirmation_stale reversal_required action_replayed
        idempotency_collision prior_outcome_indeterminate prompt_injection_review
        private_data_disallowed handoff_denied :
      DecisionCode

unfoldable pub AdapterKind-discrete : Discrete AdapterKind
AdapterKind-discrete = hlevel

unfoldable pub ActionKind-discrete : Discrete ActionKind
ActionKind-discrete = hlevel

unfoldable pub EffectClass-discrete : Discrete EffectClass
EffectClass-discrete = hlevel

unfoldable pub LedgerStatus-discrete : Discrete LedgerStatus
LedgerStatus-discrete = hlevel

instance abbrev pub AdapterKind-Eq : Eq AdapterKind
AdapterKind-Eq = record {
  test = decision AdapterKind-discrete;
  agrees = decision_iff AdapterKind-discrete;
}

instance abbrev pub ActionKind-Eq : Eq ActionKind
ActionKind-Eq = record {
  test = decision ActionKind-discrete;
  agrees = decision_iff ActionKind-discrete;
}

instance abbrev pub EffectClass-Eq : Eq EffectClass
EffectClass-Eq = record {
  test = decision EffectClass-discrete;
  agrees = decision_iff EffectClass-discrete;
}

instance abbrev pub LedgerStatus-Eq : Eq LedgerStatus
LedgerStatus-Eq = record {
  test = decision LedgerStatus-discrete;
  agrees = decision_iff LedgerStatus-discrete;
}

-- `int(tier)`
abbrev pub rank : ConfirmationTier → ℕ
rank unconfirmed = 0
rank user_intent = 1
rank action_bound = 2
rank owner_external = 3

-- `max(tier, other)` of two members of an `int` enumeration.
abbrev pub max_tier : ConfirmationTier → ConfirmationTier → ConfirmationTier
max_tier a b = if ltb (rank a) (rank b) then b else a

unfoldable pub adapter_value : AdapterKind → String
adapter_value semantic_dom = "semantic-dom"
adapter_value relative_xy = "relative-xy"
adapter_value citrix_remote = "citrix-remote"

unfoldable pub action_value : ActionKind → String
action_value observe = "observe"
action_value focus = "focus"
action_value activate = "activate"
action_value set_value = "set-value"
action_value clear_value = "clear-value"
action_value choose = "select"
action_value navigate = "navigate"
action_value external_send = "external-send"
action_value submit = "submit"
action_value delete = "delete"
action_value grant_permission = "grant-permission"
action_value upload = "upload"

unfoldable pub effect_value : EffectClass → String
effect_value observes = "observe"
effect_value navigates = "navigate"
effect_value edit_draft = "edit-draft"
effect_value external_submit = "external-submit"
effect_value destructive = "destructive"

unfoldable pub reversibility_value : Reversibility → String
reversibility_value read_only = "read-only"
reversibility_value reversible = "reversible"
reversibility_value compensating = "compensating"
reversibility_value irreversible = "irreversible"

unfoldable pub code_value : DecisionCode → String
code_value authorized_handoff = "authorized-handoff"
code_value executor_not_configured = "executor-not-configured"
code_value intent_unsupported = "intent-unsupported"
code_value adapter_not_allowed = "adapter-not-allowed"
code_value effect_not_allowed = "effect-not-allowed"
code_value target_not_allowed = "target-not-allowed"
code_value origin_not_allowed = "origin-not-allowed"
code_value frame_not_allowed = "frame-not-allowed"
code_value cross_origin_frame_blocked = "cross-origin-frame-blocked"
code_value stale_handle = "stale-handle"
code_value document_changed = "document-changed"
code_value frame_changed = "frame-changed"
code_value target_not_found = "target-not-found"
code_value target_ambiguous = "target-ambiguous"
code_value target_hidden = "target-hidden"
code_value target_disabled = "target-disabled"
code_value target_unstable = "target-unstable"
code_value target_obscured = "target-obscured"
code_value shadow_root_closed = "shadow-root-closed"
code_value semantic_required = "semantic-required"
code_value geometry_not_allowed = "geometry-not-allowed"
code_value geometry_untrained = "geometry-untrained"
code_value geometry_drift = "geometry-drift"
code_value remote_session_changed = "remote-session-changed"
code_value remote_frame_stale = "remote-frame-stale"
code_value precondition_failed = "precondition-failed"
code_value postcondition_required = "postcondition-required"
code_value confirmation_required = "confirmation-required"
code_value confirmation_stale = "confirmation-stale"
code_value reversal_required = "reversal-required"
code_value action_replayed = "action-replayed"
code_value idempotency_collision = "idempotency-collision"
code_value prior_outcome_indeterminate = "prior-outcome-indeterminate"
code_value prompt_injection_review = "prompt-injection-review"
code_value private_data_disallowed = "private-data-disallowed"
code_value handoff_denied = "handoff-denied"

abbrev all_codes : List DecisionCode
all_codes =
    authorized_handoff ∷ executor_not_configured ∷ intent_unsupported ∷ adapter_not_allowed
    ∷ effect_not_allowed ∷ target_not_allowed ∷ origin_not_allowed ∷ frame_not_allowed
    ∷ cross_origin_frame_blocked ∷ stale_handle ∷ document_changed ∷ frame_changed
    ∷ target_not_found ∷ target_ambiguous ∷ target_hidden ∷ target_disabled ∷ target_unstable
    ∷ target_obscured ∷ shadow_root_closed ∷ semantic_required ∷ geometry_not_allowed
    ∷ geometry_untrained ∷ geometry_drift ∷ remote_session_changed ∷ remote_frame_stale
    ∷ precondition_failed ∷ postcondition_required ∷ confirmation_required ∷ confirmation_stale
    ∷ reversal_required ∷ action_replayed ∷ idempotency_collision ∷ prior_outcome_indeterminate
    ∷ prompt_injection_review ∷ private_data_disallowed ∷ handoff_denied ∷ []

find_code : String → List DecisionCode → Result DecisionCode
unfolding code_value
find_code value [] = err (value_error "not a valid DecisionCode")
find_code value (c ∷ cs) = if code_value c == value then ok c else find_code value cs

-- `DecisionCode(value)`
unfoldable pub code_of : String → Result DecisionCode
unfolding find_code
code_of value = find_code value all_codes

-- `DecisionCode(code.value)` is `code`: no two members share a value.
pub code_of-code_value : (c : DecisionCode) → code_of (code_value c) ≡ ok c
unfolding code_of code_value
code_of-code_value authorized_handoff = refl
code_of-code_value _ = refl
