-- ===== src/Browser/Policy/Guarantees.antt =====
-- What an allowed decision of `evaluate` guarantees.
use project_firestarter.Prelude.{
  String, ◌≡◌, ◌⊎◌, inl, inr, refl, ap, arith, Bool, true, false, Option, some, ℤ, pos, ◌+ℤ◌, ◌<ℤ◌,
  ◌≤ℤ◌, ◌≤◌, ok,
}
use project_firestarter.Browser.Kinds.{
  EffectClass, external_submit, destructive, ConfirmationTier, action_bound, owner_external, rank,
  authorized_handoff,
}
use project_firestarter.Browser.Json.{Json, FloatOps}
use project_firestarter.Browser.Grant.{CapabilityGrant}
use project_firestarter.Browser.Observation.{SemanticObservation}
use project_firestarter.Browser.Proposal.{ActionProposal, Confirmation, proposal_digest}
use project_firestarter.Browser.Ledger.{Ledger}
use project_firestarter.Browser.Handoff.{Hashes, Handoff, handoff_of}
use project_firestarter.Browser.Policy.Tables.{effect_confirmation}
use project_firestarter.Browser.Policy.Preflight.{required_tier}
use project_firestarter.Browser.Policy.Observe.{signals}
use project_firestarter.Browser.Policy.Evaluate.{Decision, decision, evaluate}
use project_firestarter.Browser.Policy.Authorize.{handoff_for, handoff_expiry_bounds}
use project_firestarter.Browser.Policy.Confirmed.{Confirms, Confirmed}
use project_firestarter.Browser.Policy.Authorised.{Authorised, evaluate_outcome}

-- The tier asked for is at least the effect's own.
effect-le-required_tier :
    {F : Type 0} (p : ActionProposal F) (signaled : Bool)
    → rank (effect_confirmation p.effect) ≤ rank (required_tier p signaled)
unfolding required_tier
effect-le-required_tier p signaled = ground arith

-- A page that signals instructions raises the tier to an action-bound confirmation.
signaled_tier : {F : Type 0} (p : ActionProposal F) → 2 ≤ rank (required_tier p true)
unfolding required_tier
signaled_tier p = ground arith

asked_confirmation :
    {F : Type 0} (json_hex : Json F → String) (p : ActionProposal F) (now : ℤ)
    (given : Option Confirmation) (tier : ConfirmationTier)
    → 1 ≤ rank tier
    → Confirmed json_hex p now tier given
    → (c : Confirmation) × (given ≡ some c) × Confirms json_hex p now tier c
asked_confirmation json_hex p now given tier r (inl e) = absurd (ground arith)
asked_confirmation json_hex p now given tier r (inr w) = w

-- The effects that leave the product or cannot be undone.
abbrev pub IsOwnerEffect : EffectClass → Type 0
IsOwnerEffect e = (e ≡ external_submit) ⊎ (e ≡ destructive)

owner_effect_tier :
    {F : Type 0} (p : ActionProposal F) (signaled : Bool)
    → IsOwnerEffect p.effect
    → 3 ≤ rank (required_tier p signaled)
unfolding effect_confirmation
owner_effect_tier p signaled h = ground (arith, effect-le-required_tier p signaled)

owner_rank : (t : ConfirmationTier) → 3 ≤ rank t → t ≡ owner_external
owner_rank t h = ground arith

module _ {F : Type 0} (hashes : Hashes F) (ops : FloatOps F) (g : CapabilityGrant)
    (p : ActionProposal F) (o : SemanticObservation F) (now : ℤ) (given : Option Confirmation)
    (l : Ledger) {d : Decision F} where
  open hashes use {json_hex}

  -- An allowed decision comes from an authorised proposal, and is its handoff.
  allowed-Authorised :
      (evaluate hashes ops g p o now given l).0 ≡ ok d
      → d.allowed ≡ true
      → Authorised hashes ops g p o now given l
        × (d
            ≡ decision p authorized_handoff
                (required_tier p (signals o))
                true
                (some (handoff_for hashes g p (required_tier p (signals o)) now)))
  unfolding decision
  allowed-Authorised h a = elim (evaluate_outcome hashes ops g p o now given l) [
    | inl (w, q) ↦ (w, cc (h, ap (λ x. x.0) q))
    | inr (n, (code, q)) ↦ absurd (cc (h, ap (λ x. x.0) q, a))
  ]

  -- An external submission or a destructive action is only allowed with a confirmation, in time,
  -- of exactly this proposal, payload and document, at the owner's tier.
  pub owner_effect_confirmed :
      (evaluate hashes ops g p o now given l).0 ≡ ok d
      → d.allowed ≡ true
      → IsOwnerEffect p.effect
      → (c : Confirmation) × (given ≡ some c)
        × (c.tier ≡ owner_external)
        × Confirms json_hex p now owner_external c
  owner_effect_confirmed h a e =
      let tier = required_tier p (signals o) in
      let high = owner_effect_tier p (signals o) e in
      let (c, q, w) =
        asked_confirmation json_hex p now given tier (omega (arith, high))
          (allowed-Authorised h a).0.confirmed in
      let enough : 3 ≤ rank c.tier = omega (arith, high, w.high_enough) in
      (
        c,
        q,
        owner_rank c.tier enough,
        record {
          high_enough = enough;
          in_time = w.in_time;
          same_proposal = w.same_proposal;
          same_digest = w.same_digest;
          same_payload = w.same_payload;
          same_document = w.same_document;
          same_generation = w.same_generation;
          same_surface = w.same_surface;
        },
      )

  -- While the page signals instructions to the agent, nothing is allowed without a confirmation, in
  -- time, of exactly this proposal, payload and document, at the action-bound tier or the owner's.
  pub signaled_confirmed :
      (evaluate hashes ops g p o now given l).0 ≡ ok d
      → d.allowed ≡ true
      → signals o ≡ true
      → (c : Confirmation) × (given ≡ some c) × Confirms json_hex p now action_bound c
  signaled_confirmed h a e =
      let tier = required_tier p (signals o) in
      let high : 2 ≤ rank tier = rw e (signaled_tier p) in
      let (c, q, w) =
        asked_confirmation json_hex p now given tier (omega (arith, high))
          (allowed-Authorised h a).0.confirmed in
      (
        c,
        q,
        record {
          high_enough = omega (arith, high, w.high_enough);
          in_time = w.in_time;
          same_proposal = w.same_proposal;
          same_digest = w.same_digest;
          same_payload = w.same_payload;
          same_document = w.same_document;
          same_generation = w.same_generation;
          same_surface = w.same_surface;
        },
      )

  -- The handoff of an allowed decision carries the proposal's digest and the required tier, is
  -- issued now, ends after now and within 60 ticks, and outlives neither proposal nor grant.
  pub handoff_window :
      (evaluate hashes ops g p o now given l).0 ≡ ok d
      → d.allowed ≡ true
      → (h : Handoff F) × (d.handoff ≡ some h)
        × (h.proposal_digest ≡ proposal_digest json_hex p)
        × (h.confirmation_tier ≡ required_tier p (signals o))
        × (h.executor_configured ≡ false)
        × (h.issued_at_tick ≡ now)
        × (now <ℤ h.expires_at_tick)
        × (h.expires_at_tick ≤ℤ now +ℤ pos 60)
        × (h.expires_at_tick ≤ℤ p.expires_at_tick)
        × (h.expires_at_tick ≤ℤ g.expires_at_tick)
  unfolding decision handoff_of
  handoff_window h a =
      let (w, q) = allowed-Authorised h a in
      let bounds =
        handoff_expiry_bounds p.expires_at_tick g.expires_at_tick now
          w.permitted.scope.proposal_current w.permitted.scope.grant_current in
      (
        handoff_for hashes g p (required_tier p (signals o)) now,
        ap (λ (x : Decision F). x.handoff) q,
        refl,
        refl,
        refl,
        refl,
        bounds.0,
        bounds.3,
        bounds.1,
        bounds.2,
      )
