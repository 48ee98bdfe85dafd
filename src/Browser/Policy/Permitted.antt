-- ===== src/Browser/Policy/Permitted.antt =====
-- What `_common_preflight` lets through, stated without its tests.
use project_firestarter.Prelude.{
  String, ◌≡◌, ◌↔◌, refl, arith, true, false, not, ◌||◌, List, Option, none, some, ℤ, ◌<ℤ◌,
  leb_ℤ_false, leb_ℤ-false_of_lt, All, In, member, member-In, In-member, subset_iff,
  none_outside_iff, String-Eq, List-Eq, subset, any,
}
use project_firestarter.Browser.Kinds.{
  AdapterKind-Eq, ActionKind, ActionKind-Eq, EffectClass, EffectClass-Eq, observes, navigates,
  edit_draft, external_submit, destructive, Reversibility, reversible, irreversible, DecisionCode,
}
use project_firestarter.Browser.Json.{Json}
use project_firestarter.Browser.Targets.{kind, contract_digest}
use project_firestarter.Browser.Grant.{ActionTarget, ActionTarget-Eq, CapabilityGrant}
use project_firestarter.Browser.Proposal.{ActionProposal}
use project_firestarter.Browser.Ledger.{Ledger, get}
use project_firestarter.Browser.Ledger.Laws.{preflight-none, none-preflight}
use project_firestarter.Browser.Policy.Tables.{
  action_effect, required_preconditions, required_postcondition, reversals, optional_in, is_none,
  is_reversible, is_irreversible,
}
use project_firestarter.Browser.Policy.Preflight.{
  scope_code, origin_code, condition_code, reversal_missing, common_preflight, orelse, entry_of,
}

-- How a proposal of each effect declares that it can be undone.
pub record OriginsAllowed (g : CapabilityGrant) (chain : List String) : Type 0 where
  pub each_origin : All (λ o. In o g.allowed_origin_ids) chain
  pub whole_chain : In chain g.allowed_frame_origin_chains

origin_iff :
    (g : CapabilityGrant) (chain : List String)
    → (origin_code g chain ≡ none) ↔ OriginsAllowed g chain
unfolding origin_code
origin_iff g chain = (
  λ h.
      let parts : (any (λ o. not (member o g.allowed_origin_ids)) chain ≡ false)
          × (member chain g.allowed_frame_origin_chains ≡ true) =
        ground arith in
      record {
        each_origin = (none_outside_iff chain g.allowed_origin_ids).0 parts.0;
        whole_chain = member-In chain g.allowed_frame_origin_chains parts.1;
      },
  λ h.
      rw ((none_outside_iff chain g.allowed_origin_ids).1 h.each_origin, In-member h.whole_chain)
        refl,
)

pub orelse-none : (a b : Option DecisionCode) → orelse a b ≡ none → (a ≡ none) × (b ≡ none)
orelse-none none b h = (refl, h)
orelse-none (some c) b h = cc

-- The three declarations of an irreversible effect, and of a reversible one, by their values.
final_iff :
    (r : Reversibility) (a : Option ActionKind) (d : Option String)
    → ((not (is_irreversible r) || not (is_none a) || not (is_none d)) ≡ false)
      ↔ ((r ≡ irreversible) × (a ≡ none) × (d ≡ none))
final_iff r a d = (λ h. ground arith, λ h. ground arith)

undoable_fwd :
    (r : Reversibility) (a : Option ActionKind) (d : Option String) (allowed : List ActionKind)
    → (not (is_reversible r) || not (optional_in a allowed) || is_none d) ≡ false
    → (r ≡ reversible)
      × ((x : ActionKind) × (a ≡ some x) × In x allowed)
      × ((y : String) × (d ≡ some y))
undoable_fwd r none d allowed h = absurd (ground arith)
undoable_fwd r (some x) none allowed h = absurd (ground arith)
undoable_fwd r (some x) (some y) allowed h =
    (ground arith, (x, refl, member-In x allowed (ground arith)), (y, refl))

undoable_bwd :
    (r : Reversibility) (a : Option ActionKind) (d : Option String) (allowed : List ActionKind)
    (x : ActionKind) (y : String)
    → r ≡ reversible
    → a ≡ some x
    → In x allowed
    → d ≡ some y
    → (not (is_reversible r) || not (optional_in a allowed) || is_none d) ≡ false
undoable_bwd r a d allowed x y hr ha hx hd = rw (hr, ha, hd, In-member hx) refl

module _ {F : Type 0} where
  abbrev pub Undoable : ActionProposal F → Type 0
  Undoable p =
      (p.reversibility ≡ reversible)
      × ((a : ActionKind) × (p.reversal_action ≡ some a) × In a (reversals p.action))
      × ((d : String) × (p.reversal_payload_digest ≡ some d))

  abbrev pub Final : ActionProposal F → Type 0
  Final p =
      (p.reversibility ≡ irreversible)
      × (p.reversal_action ≡ none)
      × (p.reversal_payload_digest ≡ none)

  abbrev pub ReversalDeclared : ActionProposal F → EffectClass → Type 0
  ReversalDeclared p observes = Unit
  ReversalDeclared p navigates = Unit
  ReversalDeclared p edit_draft = Undoable p
  ReversalDeclared p external_submit = Final p
  ReversalDeclared p destructive = Final p

  -- The pair of action and target that the grant has to list.
  abbrev pub wanted : (Json F → String) → ActionProposal F → ActionTarget
  wanted json_hex p = record {
    adapter = p.adapter;
    action = p.action;
    effect = p.effect;
    target_kind = kind p.target;
    target_digest = contract_digest json_hex p.target;
  }

  pub record InScope (json_hex : Json F → String) (g : CapabilityGrant) (p : ActionProposal F)
      (now : ℤ) : Type 0 where
    pub grant_current : now <ℤ g.expires_at_tick
    pub proposal_current : now <ℤ p.expires_at_tick
    pub same_task : p.task_id ≡ g.task_id
    pub adapter_allowed : In p.adapter g.allowed_adapters
    pub effect_allowed : In p.effect g.allowed_effects
    pub effect_of_action : action_effect p.action ≡ p.effect
    pub target_allowed : In (wanted json_hex p) g.allowed_action_targets

  scope_iff :
      (json_hex : Json F → String) (g : CapabilityGrant) (p : ActionProposal F) (now : ℤ)
      → (scope_code json_hex g p now ≡ none) ↔ InScope json_hex g p now
  unfolding scope_code
  scope_iff json_hex g p now = (
    λ h. ground (
      arith,
      leb_ℤ_false g.expires_at_tick now,
      leb_ℤ_false p.expires_at_tick now,
      String-Eq.agrees p.task_id g.task_id,
      member-In p.adapter g.allowed_adapters,
      member-In p.effect g.allowed_effects,
      EffectClass-Eq.agrees (action_effect p.action) p.effect,
      member-In (wanted json_hex p) g.allowed_action_targets,
    ),
    λ h.
        rw
          (
            leb_ℤ-false_of_lt now g.expires_at_tick h.grant_current,
            leb_ℤ-false_of_lt now p.expires_at_tick h.proposal_current,
            (String-Eq.agrees p.task_id g.task_id).1 h.same_task,
            In-member h.adapter_allowed,
            In-member h.effect_allowed,
            (EffectClass-Eq.agrees (action_effect p.action) p.effect).1 h.effect_of_action,
            In-member h.target_allowed,
          )
          refl,
  )

  pub record ConditionsDeclared (p : ActionProposal F) : Type 0 where
    pub preconditions : All (λ c. In c p.preconditions) (required_preconditions p.action)
    pub postcondition : In (required_postcondition p.effect) p.postconditions
    pub reversal : ReversalDeclared p p.effect

  reversal_iff :
      (p : ActionProposal F) (e : EffectClass)
      → (reversal_missing p e ≡ false) ↔ ReversalDeclared p e
  unfolding reversal_missing
  reversal_iff p observes = (λ h. tt, λ h. refl)
  reversal_iff p navigates = (λ h. tt, λ h. refl)
  reversal_iff p edit_draft = (
    undoable_fwd p.reversibility p.reversal_action p.reversal_payload_digest (reversals p.action),
    λ h.
        undoable_bwd p.reversibility p.reversal_action p.reversal_payload_digest
          (reversals p.action) h.1.0 h.2.0 h.0 h.1.1 h.1.2 h.2.1,
  )
  reversal_iff p external_submit =
      final_iff p.reversibility p.reversal_action p.reversal_payload_digest
  reversal_iff p destructive = final_iff p.reversibility p.reversal_action p.reversal_payload_digest

  condition_iff : (p : ActionProposal F) → (condition_code p ≡ none) ↔ ConditionsDeclared p
  unfolding condition_code
  condition_iff p = (
    λ h.
        let parts : (subset (required_preconditions p.action) p.preconditions ≡ true)
            × (member (required_postcondition p.effect) p.postconditions ≡ true)
            × (reversal_missing p p.effect ≡ false) =
          ground arith in
        record {
          preconditions = (subset_iff (required_preconditions p.action) p.preconditions).0 parts.0;
          postcondition = member-In (required_postcondition p.effect) p.postconditions parts.1;
          reversal = (reversal_iff p p.effect).0 parts.2;
        },
    λ h.
        rw
          (
            (subset_iff (required_preconditions p.action) p.preconditions).1 h.preconditions,
            In-member h.postcondition,
            (reversal_iff p p.effect).1 h.reversal,
          )
          refl,
  )

  -- What has to hold of a proposal before anything is observed.
  pub record Permitted (json_hex : Json F → String) (g : CapabilityGrant) (p : ActionProposal F)
      (now : ℤ) (l : Ledger) : Type 0 where
    pub scope : InScope json_hex g p now
    pub origins : OriginsAllowed g p.binding.origin_ids
    pub conditions : ConditionsDeclared p
    pub unrecorded : get l p.idempotency_key ≡ none

  -- The preflight refuses nothing exactly when the proposal is permitted: in scope of an unexpired
  -- grant, on allowed origins, with its conditions and reversal declared, under an unused key.
  pub common_preflight_iff :
      (json_hex : Json F → String) (g : CapabilityGrant) (p : ActionProposal F) (now : ℤ)
      (l : Ledger)
      → (common_preflight json_hex g p now l ≡ none) ↔ Permitted json_hex g p now l
  unfolding common_preflight
  common_preflight_iff json_hex g p now l = (
    λ h.
        let (a, r) = orelse-none (scope_code json_hex g p now) _ h in
        let (b, r') = orelse-none (origin_code g p.binding.origin_ids) _ r in
        let (c, d) = orelse-none (condition_code p) _ r' in
        record {
          scope = (scope_iff json_hex g p now).0 a;
          origins = (origin_iff g p.binding.origin_ids).0 b;
          conditions = (condition_iff p).0 c;
          unrecorded = preflight-none l (entry_of json_hex p) d;
        },
    λ h.
        rw
          (
            (scope_iff json_hex g p now).1 h.scope,
            (origin_iff g p.binding.origin_ids).1 h.origins,
            (condition_iff p).1 h.conditions,
            none-preflight l (entry_of json_hex p) h.unrecorded,
          )
          refl,
  )
