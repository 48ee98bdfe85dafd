-- ===== src/Browser/Handoff.antt =====
-- `future_executor_handoff` of evidence.py. The dictionary that it returns is a record; keys with
-- the constants "1.0", "future-executor-handoff" and "0.1.0" are left out.
use Prim.Native.String.{◌++◌ as append}
use project_firestarter.Prelude.{
  sorted, String, Bool, false, List, Option, none, some, ℤ, pos, ◌+ℤ◌, ltb_ℤ, leb_ℤ, min_ℤ, Result,
  ok, err, value_error, if◌then◌else◌,
}
use project_firestarter.Browser.Kinds.{
  AdapterKind, ActionKind, EffectClass, ConfirmationTier, Reversibility,
}
use project_firestarter.Browser.Json.{Json}
use project_firestarter.Browser.Binding.{DocumentBinding}
use project_firestarter.Browser.Targets.{
  RelativeTargetContract, RemoteTargetContract, Target, relative, remote, kind, target_contract_id,
  contract_digest,
}
use project_firestarter.Browser.Proposal.{ActionProposal, proposal_digest}

pub record Handoff (F : Type 0) : Type 0 where
  pub proposal_id : String
  pub idempotency_key : String
  pub handoff_nonce : String
  pub proposal_digest : String
  pub payload_digest : String
  pub grant_id : String
  pub task_id : String
  pub adapter : AdapterKind
  pub action : ActionKind
  pub effect : EffectClass
  pub target_kind : String
  pub target_contract_id : String
  pub target_contract_digest : String
  -- the keys "relative…" and the remote keys: `None` where the target is of another kind
  pub relative_target : Option (RelativeTargetContract F)
  pub remote_target : Option RemoteTargetContract
  pub binding : DocumentBinding
  pub preconditions : List String
  pub postconditions : List String
  pub confirmation_tier : ConfirmationTier
  pub reversibility : Reversibility
  pub reversal_action : Option ActionKind
  pub reversal_payload_digest : Option String
  pub issued_at_tick : ℤ
  pub expires_at_tick : ℤ
  pub executor_configured : Bool

module _ {F : Type 0} where
  unfoldable pub relative_part : Target F → Option (RelativeTargetContract F)
  relative_part (relative t) = some t
  relative_part _ = none

  unfoldable pub remote_part : Target F → Option RemoteTargetContract
  remote_part (remote t) = some t
  remote_part _ = none

-- What the nonce hashes: key, proposal digest, grant, issue and expiry, joined by colons.
pub record NonceInput : Type 0 where
  pub idempotency_key : String
  pub proposal_digest : String
  pub grant_id : String
  pub issued_at_tick : ℤ
  pub expires_at_tick : ℤ

-- SHA-256 over a canonical encoding and over the nonce's text are given.
pub record Hashes (F : Type 0) : Type 0 where
  pub json_hex : Json F → String
  pub nonce_hex : NonceInput → String

module _ {F : Type 0} (hashes : Hashes F) where
  open hashes use {json_hex, nonce_hex}

  abbrev pub nonce : ActionProposal F → String → ℤ → ℤ → String
  nonce p grant_id issued expires = append "sha256:" (
      nonce_hex (record {
        idempotency_key = p.idempotency_key;
        proposal_digest = proposal_digest json_hex p;
        grant_id = grant_id;
        issued_at_tick = issued;
        expires_at_tick = expires;
      }))

  unfoldable pub handoff_of : ActionProposal F → String → ConfirmationTier → ℤ → ℤ → Handoff F
  unfolding sorted relative_part remote_part kind target_contract_id
  handoff_of p grant_id tier issued expires = record {
    proposal_id = p.proposal_id;
    idempotency_key = p.idempotency_key;
    handoff_nonce = nonce p grant_id issued expires;
    proposal_digest = proposal_digest json_hex p;
    payload_digest = p.payload_digest;
    grant_id = grant_id;
    task_id = p.task_id;
    adapter = p.adapter;
    action = p.action;
    effect = p.effect;
    target_kind = kind p.target;
    target_contract_id = target_contract_id p.target;
    target_contract_digest = contract_digest json_hex p.target;
    relative_target = relative_part p.target;
    remote_target = remote_part p.target;
    binding = p.binding;
    preconditions = sorted p.preconditions;
    postconditions = sorted p.postconditions;
    confirmation_tier = tier;
    reversibility = p.reversibility;
    reversal_action = p.reversal_action;
    reversal_payload_digest = p.reversal_payload_digest;
    issued_at_tick = issued;
    expires_at_tick = expires;
    executor_configured = false;
  }

  -- `future_executor_handoff`
  unfoldable pub future_executor_handoff :
      ActionProposal F → String → ℤ → ConfirmationTier → ℤ → ℤ → Result (Handoff F)
  unfolding handoff_of
  future_executor_handoff p grant_id grant_expires tier issued expires =
      if leb_ℤ expires issued
      then err (value_error "handoff expiry must be after issuance")
      else if ltb_ℤ (min_ℤ (min_ℤ p.expires_at_tick grant_expires) (issued +ℤ pos 60)) expires
      then err (value_error "handoff must be short-lived and grant/proposal-bounded")
      else ok (handoff_of p grant_id tier issued expires)
