-- ===== src/Browser/Policy/Authorize.antt =====
-- `_authorize_handoff` of policy.py, for a fresh key and for a recorded one.
use project_firestarter.Prelude.{
  ◌≡◌, refl, arith, true, none, some, ℤ, pos, ◌+ℤ◌, ◌<ℤ◌, ◌≤ℤ◌, min_ℤ, leb_ℤ-false_of_lt,
  ltb_ℤ_irrefl, +ℤ_parts, ok,
}
use project_firestarter.Browser.Kinds.{
  ConfirmationTier, unconfirmed, planned, confirmed, handed_off, authorized_handoff,
  code_of-code_value,
}
use project_firestarter.Browser.Grant.{CapabilityGrant}
use project_firestarter.Browser.Proposal.{ActionProposal, proposal_digest}
use project_firestarter.Browser.Ledger.{
  Ledger, LedgerRecord, get, put, fresh_record, replay_code, allowed,
}
use project_firestarter.Browser.Ledger.Laws.{plan-fresh, plan-recorded, transition-put}
use project_firestarter.Browser.Handoff.{Handoff, Hashes, handoff_of, future_executor_handoff}
use project_firestarter.Browser.Policy.Preflight.{entry_of}
use project_firestarter.Browser.Policy.Evaluate.{
  decision, refusal, confirm_step, hand_off, plan_refused, after_plan, authorize_handoff,
}

-- `min(proposal.expires_at_tick, grant.expires_at_tick, now_tick + 60)`
abbrev pub handoff_expiry : ℤ → ℤ → ℤ → ℤ
handoff_expiry p g now = min_ℤ (min_ℤ p g) (now +ℤ pos 60)

pub handoff_expiry_bounds :
    (p g now : ℤ)
    → now <ℤ p
    → now <ℤ g
    → (now <ℤ handoff_expiry p g now)
      × (handoff_expiry p g now ≤ℤ p)
      × (handoff_expiry p g now ≤ℤ g)
      × (handoff_expiry p g now ≤ℤ now +ℤ pos 60)
handoff_expiry_bounds p g now hp hg = ground (arith, +ℤ_parts now (pos 60))

module _ {F : Type 0} (hashes : Hashes F) where
  open hashes use {json_hex}

  abbrev pub handoff_for : CapabilityGrant → ActionProposal F → ConfirmationTier → ℤ → Handoff F
  handoff_for g p tier now =
      handoff_of hashes p g.grant_id tier now
        (handoff_expiry p.expires_at_tick g.expires_at_tick now)

  -- The record that an authorised handoff leaves.
  abbrev pub handed_record : ActionProposal F → LedgerRecord
  handed_record p = record (fresh_record (entry_of json_hex p)) { status = handed_off }

  abbrev confirmed_record : ActionProposal F → LedgerRecord
  confirmed_record p = record (fresh_record (entry_of json_hex p)) { status = confirmed }

  handoff-ok :
      (g : CapabilityGrant) (p : ActionProposal F) (tier : ConfirmationTier) (now : ℤ)
      → now <ℤ p.expires_at_tick
      → now <ℤ g.expires_at_tick
      → future_executor_handoff hashes p g.grant_id g.expires_at_tick tier now
          (handoff_expiry p.expires_at_tick g.expires_at_tick now)
        ≡ ok (handoff_for g p tier now)
  unfolding future_executor_handoff
  handoff-ok g p tier now hp hg =
      rw (leb_ℤ-false_of_lt now _ (handoff_expiry_bounds _ _ now hp hg).0, future_executor_handoff)
        (rw ltb_ℤ_irrefl refl)

  pub authorize-fresh :
      (g : CapabilityGrant) (p : ActionProposal F) (tier : ConfirmationTier) (now : ℤ) (l : Ledger)
      → now <ℤ p.expires_at_tick
      → now <ℤ g.expires_at_tick
      → get l p.idempotency_key ≡ none
      → authorize_handoff hashes g p tier now l ≡ (
        ok (decision p authorized_handoff tier true (some (handoff_for g p tier now))),
        put l p.idempotency_key (handed_record p),
      )
  unfolding authorize_handoff hand_off confirm_step allowed
  authorize-fresh g p unconfirmed now l hp hg h =
      rw
        (
          plan-fresh l (entry_of json_hex p) h,
          transition-put l p.idempotency_key (fresh_record (entry_of json_hex p)) planned handed_off
              refl refl,
          handoff-ok g p unconfirmed now hp hg,
        )
        refl
  authorize-fresh g p tier now l hp hg h =
      rw
        (
          plan-fresh l (entry_of json_hex p) h,
          transition-put l p.idempotency_key (fresh_record (entry_of json_hex p)) planned confirmed
              refl refl,
          transition-put l p.idempotency_key (confirmed_record p) confirmed handed_off refl refl,
          handoff-ok g p tier now hp hg,
        )
        refl

  pub authorize-recorded :
      (g : CapabilityGrant) (p : ActionProposal F) (tier : ConfirmationTier) (now : ℤ) (l : Ledger)
      {r : LedgerRecord}
      → get l p.idempotency_key ≡ some r
      → authorize_handoff hashes g p tier now l
        ≡ (ok (refusal p (replay_code r (proposal_digest json_hex p)) tier), l)
  unfolding authorize_handoff plan_refused
  authorize-recorded g p tier now l {r} h =
      rw
        (
          plan-recorded l (entry_of json_hex p) h,
          after_plan,
          plan_refused,
          code_of-code_value (replay_code r (proposal_digest json_hex p)),
        )
        refl
