-- ===== src/Browser/Policy/Authorised.antt =====
-- `evaluate`: what it authorises, what it returns and what it writes.
use mathlib.Core.Option
use project_firestarter.Prelude.{
  ◌≡◌, ◌↔◌, ◌⊎◌, inl, inr, refl, arith, Bool, true, false, not, ◌&&◌, Option, none, some, ℤ, ok,
  ◌==◌, Option-cases,
}
use project_firestarter.Browser.Kinds.{
  AdapterKind, semantic_dom, relative_xy, citrix_remote, DecisionCode, semantic_required,
  authorized_handoff, ConfirmationTier,
}
use project_firestarter.Browser.Json.{FloatOps}
use project_firestarter.Browser.Binding.{DocumentBinding, DocumentBinding-Eq, binding_eq_iff}
use project_firestarter.Browser.Targets.{Target, semantic, relative, RelativeTargetContract}
use project_firestarter.Browser.Grant.{CapabilityGrant}
use project_firestarter.Browser.Observation.{ElementCandidate, SemanticObservation}
use project_firestarter.Browser.Proposal.{ActionProposal, Confirmation}
use project_firestarter.Browser.Ledger.{Ledger, put}
use project_firestarter.Browser.Adapters.{
  semantic_locator, relative_locator, resolve_semantic, validate_geometry,
}
use project_firestarter.Browser.Adapters.Candidate.{Located, Actionable}
use project_firestarter.Browser.Adapters.Semantic.{resolve_ready_iff, resolve_opaque_iff}
use project_firestarter.Browser.Handoff.{Hashes}
use project_firestarter.Browser.Policy.Tables.{is_focus_action}
use project_firestarter.Browser.Policy.Preflight.{required_tier, common_preflight, orelse}
use project_firestarter.Browser.Policy.Permitted.{Permitted, common_preflight_iff, orelse-none}
use project_firestarter.Browser.Policy.Confirm.{confirmation_valid}
use project_firestarter.Browser.Policy.Confirmed.{Confirmed, confirmation_valid_iff}
use project_firestarter.Browser.Policy.Evaluate.{decision, refusal, decide, evaluate}
use project_firestarter.Browser.Policy.Observe.{
  relative_code, adapter_code, reviewed, observe_code, signals,
}
use project_firestarter.Browser.Policy.Authorize.{handoff_for, handed_record, authorize-fresh}

module _ {F : Type 0} (ops : FloatOps F) where
  -- The observation supports the target: by accessible semantics, or, where the grant allows it
  -- and there are none, by a trained region of the viewport.
  abbrev pub Grounded :
      CapabilityGrant → DocumentBinding → SemanticObservation F → AdapterKind → Target F → Type 0
  Grounded g b o semantic_dom (semantic t) =
      (c : ElementCandidate F) × Located (semantic_locator t) b o c
      × (c.semantic_available ≡ true)
      × Actionable c
  Grounded g b o semantic_dom target = ⊥
  Grounded g b o relative_xy (relative t) =
      (c : ElementCandidate F) × Located (relative_locator t) b o c
      × (c.semantic_available ≡ false)
      × (g.allow_geometry_fallback ≡ true)
      × (validate_geometry ops c t ≡ none)
  Grounded g b o relative_xy target = ⊥
  Grounded g b o citrix_remote target = ⊥

module _ {F : Type 0} (ops : FloatOps F) where
  relative_sound :
      (g : CapabilityGrant) (t : RelativeTargetContract F) (candidate : Option (ElementCandidate F))
      (code : Option DecisionCode)
      → relative_code ops g t candidate code ≡ none
      → (c : ElementCandidate F) × (candidate ≡ some c)
        × (code ≡ some semantic_required)
        × (g.allow_geometry_fallback ≡ true)
        × (validate_geometry ops c t ≡ none)
  unfolding relative_code
  relative_sound g t candidate none h = cc
  relative_sound g t none (some semantic_required) h = cc
  relative_sound g t none (some code) h = cc
  relative_sound g t (some c) (some semantic_required) h =
      (c, refl, refl, ground arith, ground arith)
  relative_sound g t (some c) (some code) h = cc

  relative_complete :
      (g : CapabilityGrant) (t : RelativeTargetContract F) (c : ElementCandidate F)
      → g.allow_geometry_fallback ≡ true
      → validate_geometry ops c t ≡ none
      → relative_code ops g t (some c) (some semantic_required) ≡ none
  unfolding relative_code
  relative_complete g t c a h = ground arith

  adapter_code_iff :
      (g : CapabilityGrant) (b : DocumentBinding) (o : SemanticObservation F) (a : AdapterKind)
      (target : Target F)
      → (adapter_code ops g b o a target ≡ none) ↔ Grounded ops g b o a target
  unfolding adapter_code
  adapter_code_iff g b o semantic_dom (semantic t) = resolve_ready_iff (semantic_locator t) b o
  adapter_code_iff g b o relative_xy (relative t) = (
    λ h.
        let (c, e, k, allowed, passes) =
          relative_sound g t (resolve_semantic (relative_locator t) b o).0
            (resolve_semantic (relative_locator t) b o).1 h in
        let (located, hidden) =
          (resolve_opaque_iff (relative_locator t) b o c).0 (λ i. (e i, k i)) in
        (c, located, hidden, allowed, passes),
    λ w.
        rw ((resolve_opaque_iff (relative_locator t) b o w.0).1 (w.1, w.2))
          (relative_complete g t w.0 w.3 w.4),
  )
  adapter_code_iff g b o citrix_remote target = (λ h. cc, λ h. absurd h)
  adapter_code_iff g b o _ _ = (λ h. cc, λ h. absurd h)

module _ {F : Type 0} (hashes : Hashes F) (ops : FloatOps F) where
  open hashes use {json_hex}

  -- What `evaluate` asks for in all.
  pub record Authorised (g : CapabilityGrant) (p : ActionProposal F) (o : SemanticObservation F)
      (now : ℤ) (given : Option Confirmation) (l : Ledger) : Type 0 where
    pub permitted : Permitted json_hex g p now l
    pub same_binding : p.binding ≡ o.binding
    pub focused : is_focus_action p.action ≡ true → o.focus_confirmed ≡ true
    pub grounded : Grounded ops g p.binding o p.adapter p.target
    pub confirmed : Confirmed json_hex p now (required_tier p (signals o)) given

  map-none :
      (f : DecisionCode → DecisionCode) (x : Option DecisionCode) → Option.map f x ≡ none → x ≡ none
  map-none f none h = refl
  map-none f (some c) h = cc

  observe_sound :
      (g : CapabilityGrant) (p : ActionProposal F) (o : SemanticObservation F) (now : ℤ)
      (given : Option Confirmation) (tier : ConfirmationTier) (signaled : Bool)
      → observe_code json_hex ops g p o now given tier signaled ≡ none
      → (p.binding ≡ o.binding)
        × (is_focus_action p.action ≡ true → o.focus_confirmed ≡ true)
        × Grounded ops g p.binding o p.adapter p.target
        × Confirmed json_hex p now tier given
  unfolding observe_code
  observe_sound g p o now given tier signaled h =
      let parts : ((p.binding == o.binding) ≡ true)
          × (is_focus_action p.action ≡ true → o.focus_confirmed ≡ true)
          × (orelse (adapter_code ops g p.binding o p.adapter p.target)
                (Option.map (reviewed signaled) (confirmation_valid json_hex p given tier now))
              ≡ none) =
        (ground arith, λ f. ground arith, ground arith) in
      let (a, b) = orelse-none (adapter_code ops g p.binding o p.adapter p.target) _ parts.2 in
      (
        (binding_eq_iff p.binding o.binding).0 parts.0,
        parts.1,
        (adapter_code_iff ops g p.binding o p.adapter p.target).0 a,
        (confirmation_valid_iff json_hex p now tier given).0 (map-none (reviewed signaled) _ b),
      )

  focus_passes : (needs has : Bool) → (needs ≡ true → has ≡ true) → (needs && not has) ≡ false
  focus_passes false has h = refl
  focus_passes true has h = rw (h refl) refl

  observe_complete :
      (g : CapabilityGrant) (p : ActionProposal F) (o : SemanticObservation F) (now : ℤ)
      (given : Option Confirmation) (tier : ConfirmationTier) (signaled : Bool)
      → p.binding ≡ o.binding
      → (is_focus_action p.action ≡ true → o.focus_confirmed ≡ true)
      → Grounded ops g p.binding o p.adapter p.target
      → Confirmed json_hex p now tier given
      → observe_code json_hex ops g p o now given tier signaled ≡ none
  unfolding observe_code
  observe_complete g p o now given tier signaled e f w c =
      rw
        (
          (binding_eq_iff p.binding o.binding).1 e,
          focus_passes (is_focus_action p.action) o.focus_confirmed f,
          (adapter_code_iff ops g p.binding o p.adapter p.target).1 w,
          (confirmation_valid_iff json_hex p now tier given).1 c,
        )
        refl

  module _ (g : CapabilityGrant) (p : ActionProposal F) (o : SemanticObservation F) (now : ℤ)
      (given : Option Confirmation) (l : Ledger) where
    abbrev pub outcome_code : Option DecisionCode
    outcome_code =
        orelse (common_preflight json_hex g p now l)
          (observe_code json_hex ops g p o now given (required_tier p (signals o)) (signals o))

    code_iff : (outcome_code ≡ none) ↔ Authorised g p o now given l
    code_iff = (
      λ h.
          let (a, b) = orelse-none (common_preflight json_hex g p now l) _ h in
          let (e, f, w, c) =
            observe_sound g p o now given (required_tier p (signals o)) (signals o) b in
          record {
            permitted = (common_preflight_iff json_hex g p now l).0 a;
            same_binding = e;
            focused = f;
            grounded = w;
            confirmed = c;
          },
      λ h.
          rw
            (
              (common_preflight_iff json_hex g p now l).1 h.permitted,
              observe_complete g p o now given (required_tier p (signals o)) (signals o)
                  h.same_binding h.focused h.grounded h.confirmed,
            )
            refl,
    )

    -- `evaluate` never raises. An authorised proposal is handed off, and its key is recorded as
    -- handed off; any other is refused with a code, and the ledger is left as it was.
    pub evaluate_outcome :
        (Authorised g p o now given l
          × (evaluate hashes ops g p o now given l ≡ (
            ok (
                decision p authorized_handoff
                  (required_tier p (signals o))
                  true
                  (some (handoff_for hashes g p (required_tier p (signals o)) now))),
            put l p.idempotency_key (handed_record hashes p),
          )))
        ⊎ (¬ (Authorised g p o now given l)
            × ((code : DecisionCode) × (evaluate hashes ops g p o now given l
                  ≡ (ok (refusal p code (required_tier p (signals o))), l))))
    unfolding evaluate decide
    evaluate_outcome = elim (Option-cases outcome_code) [
      | inl e ↦
          let a = code_iff.0 e in
          inl (
            a,
            rw e (
                authorize-fresh hashes g p (required_tier p (signals o)) now l
                  a.permitted.scope.proposal_current a.permitted.scope.grant_current
                  a.permitted.unrecorded),
          )
      | inr (code, e) ↦ inr (λ a. cc (e, code_iff.1 a), (code, rw e refl))
    ]
