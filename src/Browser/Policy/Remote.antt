-- ===== src/Browser/Policy/Remote.antt =====
-- `evaluate_citrix`: what it authorises, what it returns and what it writes.
use project_firestarter.Prelude.{
  ◌≡◌, ◌↔◌, ◌⊎◌, inl, inr, refl, true, false, Option, none, some, ℤ, ok, Option-cases,
}
use project_firestarter.Browser.Kinds.{
  AdapterKind, citrix_remote, DecisionCode, authorized_handoff, ConfirmationTier,
}
use project_firestarter.Browser.Targets.{Target, remote}
use project_firestarter.Browser.Grant.{CapabilityGrant}
use project_firestarter.Browser.Observation.{CitrixObservation}
use project_firestarter.Browser.Proposal.{ActionProposal, Confirmation}
use project_firestarter.Browser.Ledger.{Ledger, put}
use project_firestarter.Browser.Adapters.{validate_citrix}
use project_firestarter.Browser.Adapters.Remote.{RemoteCurrent, validate_citrix_iff}
use project_firestarter.Browser.Handoff.{Hashes}
use project_firestarter.Browser.Policy.Preflight.{required_tier, common_preflight, orelse}
use project_firestarter.Browser.Policy.Permitted.{Permitted, common_preflight_iff, orelse-none}
use project_firestarter.Browser.Policy.Confirmed.{Confirmed, confirmation_valid_iff}
use project_firestarter.Browser.Policy.Observe.{citrix_code}
use project_firestarter.Browser.Policy.Evaluate.{decision, refusal, decide, evaluate_citrix}
use project_firestarter.Browser.Policy.Authorize.{handoff_for, handed_record, authorize-fresh}

-- Only a remote target under the Citrix adapter, with a current remote surface.
abbrev pub RemoteGrounded : {F : Type 0} → CitrixObservation → AdapterKind → Target F → Type 0
RemoteGrounded o citrix_remote (remote t) = RemoteCurrent o t
RemoteGrounded o _ _ = ⊥

module _ {F : Type 0} (hashes : Hashes F) where
  open hashes use {json_hex}

  citrix_code_iff :
      (p : ActionProposal F) (o : CitrixObservation) (now : ℤ) (given : Option Confirmation)
      (tier : ConfirmationTier) (a : AdapterKind) (target : Target F)
      → (citrix_code json_hex p o now given tier a target ≡ none)
        ↔ (RemoteGrounded o a target × Confirmed json_hex p now tier given)
  unfolding citrix_code
  citrix_code_iff p o now given tier citrix_remote (remote t) = (
    λ h.
        let (a, b) = orelse-none (validate_citrix o t) _ h in
        ((validate_citrix_iff o t).0 a, (confirmation_valid_iff json_hex p now tier given).0 b),
    λ w.
        rw
          (
            (validate_citrix_iff o t).1 w.0,
            (confirmation_valid_iff json_hex p now tier given).1 w.1,
          )
          refl,
  )
  citrix_code_iff p o now given tier _ _ = (λ h. cc, λ w. absurd w.0)

  -- What `evaluate_citrix` asks for in all.
  pub record RemoteAuthorised (g : CapabilityGrant) (p : ActionProposal F) (o : CitrixObservation)
      (now : ℤ) (given : Option Confirmation) (l : Ledger) : Type 0 where
    pub permitted : Permitted json_hex g p now l
    pub grounded : RemoteGrounded o p.adapter p.target
    pub confirmed : Confirmed json_hex p now (required_tier p false) given

  module _ (g : CapabilityGrant) (p : ActionProposal F) (o : CitrixObservation) (now : ℤ)
      (given : Option Confirmation) (l : Ledger) where
    abbrev outcome_code : Option DecisionCode
    outcome_code =
        orelse (common_preflight json_hex g p now l)
          (citrix_code json_hex p o now given (required_tier p false) p.adapter p.target)

    code_iff : (outcome_code ≡ none) ↔ RemoteAuthorised g p o now given l
    code_iff = (
      λ h.
          let (a, b) = orelse-none (common_preflight json_hex g p now l) _ h in
          let (w, c) =
            (citrix_code_iff p o now given (required_tier p false) p.adapter p.target).0 b in
          record {
            permitted = (common_preflight_iff json_hex g p now l).0 a;
            grounded = w;
            confirmed = c;
          },
      λ h.
          rw
            (
              (common_preflight_iff json_hex g p now l).1 h.permitted,
              (citrix_code_iff p o now given (required_tier p false) p.adapter p.target).1
                  (h.grounded, h.confirmed),
            )
            refl,
    )

    -- `evaluate_citrix` never raises. An authorised proposal is handed off, and its key is recorded
    -- as handed off; any other is refused with a code, and the ledger is left as it was.
    pub evaluate_citrix_outcome :
        (RemoteAuthorised g p o now given l
          × (evaluate_citrix hashes g p o now given l ≡ (
            ok (
                decision p authorized_handoff
                  (required_tier p false)
                  true
                  (some (handoff_for hashes g p (required_tier p false) now))),
            put l p.idempotency_key (handed_record hashes p),
          )))
        ⊎ (¬ (RemoteAuthorised g p o now given l)
            × ((code : DecisionCode) × (evaluate_citrix hashes g p o now given l
                  ≡ (ok (refusal p code (required_tier p false)), l))))
    unfolding evaluate_citrix decide
    evaluate_citrix_outcome = elim (Option-cases outcome_code) [
      | inl e ↦
          let a = code_iff.0 e in
          inl (
            a,
            rw e (
                authorize-fresh hashes g p (required_tier p false) now l
                  a.permitted.scope.proposal_current a.permitted.scope.grant_current
                  a.permitted.unrecorded),
          )
      | inr (code, e) ↦ inr (λ a. cc (e, code_iff.1 a), (code, rw e refl))
    ]
