-- ===== src/Browser/Policy/Tables.antt =====
-- The constant tables of policy.py.
use project_firestarter.Prelude.{
  String, Bool, true, false, List, [], ◌∷◌, ◌++◌, Option, none, some, member, String-Eq, ℤ_Eq,
  List-Eq, if◌then◌else◌,
}
use project_firestarter.Browser.Kinds.{
  AdapterKind, citrix_remote, AdapterKind-Eq, ActionKind, observe, focus, activate, set_value,
  clear_value, choose, navigate, external_send, submit, delete, grant_permission, upload,
  ActionKind-Eq, EffectClass, observes, navigates, edit_draft, external_submit, destructive,
  EffectClass-Eq, ConfirmationTier, unconfirmed, user_intent, action_bound, owner_external,
  Reversibility, reversible, irreversible,
}
use project_firestarter.Browser.Binding.{DocumentBinding-Eq}
use project_firestarter.Browser.Grant.{ActionTarget-Eq}

-- ACTION_EFFECTS, which has every action.
unfoldable pub action_effect : ActionKind → EffectClass
action_effect observe = observes
action_effect focus = observes
action_effect activate = navigates
action_effect navigate = navigates
action_effect set_value = edit_draft
action_effect clear_value = edit_draft
action_effect choose = edit_draft
action_effect external_send = external_submit
action_effect submit = external_submit
action_effect upload = external_submit
action_effect delete = destructive
action_effect grant_permission = destructive

-- BASE_PRECONDITIONS
abbrev pub base_preconditions : List String
base_preconditions =
    "task-bound" ∷ "document-current" ∷ "frame-current" ∷ "origin-allowed" ∷ "target-unique"
    ∷ "target-actionable" ∷ "payload-bound" ∷ []

-- `action in FOCUS_ACTIONS`
unfoldable pub is_focus_action : ActionKind → Bool
is_focus_action set_value = true
is_focus_action clear_value = true
is_focus_action choose = true
is_focus_action external_send = true
is_focus_action submit = true
is_focus_action upload = true
is_focus_action _ = false

-- REQUIRED_POSTCONDITION
unfoldable pub required_postcondition : EffectClass → String
required_postcondition observes = "state-observed"
required_postcondition navigates = "navigation-reconciled"
required_postcondition edit_draft = "draft-reconciled"
required_postcondition external_submit = "external-effect-reconciled"
required_postcondition destructive = "destructive-effect-reconciled"

-- EFFECT_CONFIRMATION
unfoldable pub effect_confirmation : EffectClass → ConfirmationTier
effect_confirmation observes = unconfirmed
effect_confirmation navigates = user_intent
effect_confirmation edit_draft = action_bound
effect_confirmation external_submit = owner_external
effect_confirmation destructive = owner_external

-- The table of reversal actions in `_common_preflight`.
unfoldable pub reversals : ActionKind → List ActionKind
reversals set_value = set_value ∷ clear_value ∷ []
reversals clear_value = set_value ∷ []
reversals choose = choose ∷ []
reversals _ = []

-- `action in actions` for an optional action.
abbrev pub optional_in : Option ActionKind → List ActionKind → Bool
optional_in none actions = false
optional_in (some a) actions = member a actions

abbrev pub is_none {ℓ} : {A : Type ℓ} → Option A → Bool
is_none none = true
is_none (some a) = false

abbrev pub is_reversible : Reversibility → Bool
is_reversible reversible = true
is_reversible _ = false

abbrev pub is_irreversible : Reversibility → Bool
is_irreversible irreversible = true
is_irreversible _ = false

abbrev pub is_citrix : AdapterKind → Bool
is_citrix citrix_remote = true
is_citrix _ = false

unfoldable pub required_preconditions : ActionKind → List String
unfolding is_focus_action
required_preconditions a =
    if is_focus_action a then base_preconditions ++ "focus-current" ∷ [] else base_preconditions
