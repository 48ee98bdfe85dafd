-- ===== src/Browser/Policy/Confirmed.antt =====
-- What `_confirmation_valid` accepts, stated without its tests, and the tier that it asks for.
use project_firestarter.Prelude.{
  ℕ, String, ◌≡◌, ◌↔◌, ◌⊎◌, inl, inr, refl, arith, Bool, true, false, not, ◌||◌, Option, none, some,
  ℤ, ◌<ℤ◌, ◌≤◌, leb_ℤ, leb_ℤ_false, leb_ℤ-false_of_lt, int_eq_iff, ◌==◌, String-Eq, ℤ_Eq, ltb,
}
use project_firestarter.Browser.Kinds.{
  ConfirmationTier, unconfirmed, user_intent, action_bound, owner_external, rank,
}
use project_firestarter.Browser.Json.{Json}
use project_firestarter.Browser.Proposal.{ActionProposal, Confirmation, proposal_digest}
use project_firestarter.Browser.Policy.Confirm.{
  confirmation_differs, given_confirmation, confirmation_valid,
}

-- A `<` test that fails.
ltb-false : (a b : ℕ) → (ltb a b ≡ false) ↔ (b ≤ a)
ltb-false a b = (λ h. ground arith, λ h. ground arith)

seven :
    (a b c d e f g : Bool)
    → (a || not b || not c || not d || not e || not f || not g) ≡ false
    → (a ≡ false) × (b ≡ true) × (c ≡ true) × (d ≡ true) × (e ≡ true) × (f ≡ true) × (g ≡ true)
seven a b c d e f g h = ground arith

module _ {F : Type 0} (json_hex : Json F → String) (p : ActionProposal F) (now : ℤ) where
  -- A confirmation of at least the tier, in time, of this very proposal, payload and document.
  pub record Confirms (tier : ConfirmationTier) (c : Confirmation) : Type 0 where
    pub high_enough : rank tier ≤ rank c.tier
    pub in_time : now <ℤ c.expires_at_tick
    pub same_proposal : c.proposal_id ≡ p.proposal_id
    pub same_digest : c.proposal_digest ≡ proposal_digest json_hex p
    pub same_payload : c.payload_digest ≡ p.payload_digest
    pub same_document : c.document_id ≡ p.binding.document_id
    pub same_generation : c.document_generation ≡ p.binding.document_generation
    pub same_surface : c.surface_generation ≡ p.binding.surface_generation

  -- No confirmation is asked for, or one is given that confirms.
  abbrev pub Confirmed : ConfirmationTier → Option Confirmation → Type 0
  Confirmed tier given =
      (tier ≡ unconfirmed) ⊎ ((c : Confirmation) × (given ≡ some c) × Confirms tier c)

  given_sound :
      (tier : ConfirmationTier) (c : Confirmation)
      → given_confirmation json_hex p (some c) tier now ≡ none
      → Confirms tier c
  unfolding given_confirmation confirmation_differs
  given_sound tier c h =
      let low : ltb (rank c.tier) (rank tier) ≡ false = ground arith in
      let differs : confirmation_differs json_hex p c now ≡ false = ground arith in
      let parts =
        seven (leb_ℤ c.expires_at_tick now) (c.proposal_id == p.proposal_id)
          (c.proposal_digest == proposal_digest json_hex p) (c.payload_digest == p.payload_digest)
          (c.document_id == p.binding.document_id)
          (c.document_generation == p.binding.document_generation)
          (c.surface_generation == p.binding.surface_generation) differs in
      record {
        high_enough = (ltb-false (rank c.tier) (rank tier)).0 low;
        in_time = leb_ℤ_false c.expires_at_tick now parts.0;
        same_proposal = (String-Eq.agrees c.proposal_id p.proposal_id).0 parts.1;
        same_digest = (String-Eq.agrees c.proposal_digest (proposal_digest json_hex p)).0 parts.2;
        same_payload = (String-Eq.agrees c.payload_digest p.payload_digest).0 parts.3;
        same_document = (String-Eq.agrees c.document_id p.binding.document_id).0 parts.4;
        same_generation =
            (int_eq_iff c.document_generation p.binding.document_generation).0 parts.5;
        same_surface = (int_eq_iff c.surface_generation p.binding.surface_generation).0 parts.6;
      }

  given_complete :
      (tier : ConfirmationTier) (c : Confirmation)
      → Confirms tier c
      → given_confirmation json_hex p (some c) tier now ≡ none
  unfolding given_confirmation confirmation_differs
  given_complete tier c h =
      rw
        (
          (ltb-false (rank c.tier) (rank tier)).1 h.high_enough,
          leb_ℤ-false_of_lt now c.expires_at_tick h.in_time,
          (String-Eq.agrees c.proposal_id p.proposal_id).1 h.same_proposal,
          (String-Eq.agrees c.proposal_digest (proposal_digest json_hex p)).1 h.same_digest,
          (String-Eq.agrees c.payload_digest p.payload_digest).1 h.same_payload,
          (String-Eq.agrees c.document_id p.binding.document_id).1 h.same_document,
          (int_eq_iff c.document_generation p.binding.document_generation).1 h.same_generation,
          (int_eq_iff c.surface_generation p.binding.surface_generation).1 h.same_surface,
        )
        refl

  asked :
      (tier : ConfirmationTier) (given : Option Confirmation)
      → given_confirmation json_hex p given tier now ≡ none
      → (c : Confirmation) × (given ≡ some c) × Confirms tier c
  unfolding given_confirmation
  asked tier none h = cc
  asked tier (some c) h = (c, refl, given_sound tier c h)

  answered :
      (tier : ConfirmationTier) (given : Option Confirmation)
      → ((c : Confirmation) × (given ≡ some c) × Confirms tier c)
      → given_confirmation json_hex p given tier now ≡ none
  answered tier given w = rw w.1 (given_complete tier w.0 w.2)

  needed :
      (tier : ConfirmationTier) (given : Option Confirmation)
      → ¬ (tier ≡ unconfirmed)
      → Confirmed tier given
      → given_confirmation json_hex p given tier now ≡ none
  needed tier given n (inl e) = absurd (n e)
  needed tier given n (inr w) = answered tier given w

  -- The confirmation check passes exactly when no confirmation is needed or the one given confirms.
  pub confirmation_valid_iff :
      (tier : ConfirmationTier) (given : Option Confirmation)
      → (confirmation_valid json_hex p given tier now ≡ none) ↔ Confirmed tier given
  unfolding confirmation_valid
  confirmation_valid_iff unconfirmed given = (λ h. inl refl, λ h. refl)
  confirmation_valid_iff user_intent given =
      (λ h. inr (asked user_intent given h), needed user_intent given (λ e. cc))
  confirmation_valid_iff action_bound given =
      (λ h. inr (asked action_bound given h), needed action_bound given (λ e. cc))
  confirmation_valid_iff owner_external given =
      (λ h. inr (asked owner_external given h), needed owner_external given (λ e. cc))
