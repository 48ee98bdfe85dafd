-- ===== src/Browser/Tests.antt =====
-- Sample grants, proposals and observations, and the theorems applied to them. Ratios are
-- thousandths, and the digests are stand-ins.
use project_firestarter.Prelude.{
  ◌==◌, if◌then◌else◌, ℤ_Eq, String-Eq, List-Eq, length, all, member, ℕ, ◌+◌, String, ◌≡◌, ◌⊎◌, inl,
  refl, ◌↔◌, ◌≤ℤ◌, ◌<ℤ◌, Error, err, true, false, List, [], ◌∷◌, Option, none, some, pos, ◌+ℤ◌, leb,
  nat_eq, ok, ◌≤◌,
}
use project_firestarter.Browser.Kinds.{
  action_bound, semantic_dom, submit, external_submit, irreversible, owner_external, planned,
  handed_off, succeeded, authorized_handoff, AdapterKind-discrete, ActionKind-discrete,
  EffectClass-discrete, LedgerStatus-discrete, DecisionCode, semantic_required,
}
use project_firestarter.Browser.Json.{FloatOps}
use project_firestarter.Browser.Binding.{DocumentBinding, binding_init}
use project_firestarter.Browser.Binding.Shape.{Rooted, accepted_shape}
use project_firestarter.Browser.Targets.{
  RelativeTargetContract, RemoteTargetContract, TargetContract, semantic, contract_digest,
}
use project_firestarter.Browser.Grant.{
  CapabilityGrant, grant_init, is_empty, chains_init, chain_items_init, action_targets_init,
}
use project_firestarter.Browser.Grant.Chains.{allowed_chain}
use project_firestarter.Browser.Ids.{
  require_id, require_ids, safe_id, safe_digest, is_alnum, is_id_char, is_hex, safe_id_codes,
  strip_prefix,
}
use project_firestarter.Browser.Observation.{
  CitrixObservation, GeometryObservation, ElementCandidate, SemanticObservation,
}
use project_firestarter.Browser.Proposal.{ActionProposal, Confirmation, proposal_digest}
use project_firestarter.Browser.Ledger.{
  Ledger, LedgerRecord, get, put, preflight, plan, allowed, move, transition,
}
use project_firestarter.Browser.Adapters.{
  same_binding, semantic_locator, matches, resolve_candidate, resolve_matches, resolve_semantic,
  validate_geometry, validate_citrix,
}
use project_firestarter.Browser.Handoff.{Handoff, Hashes, future_executor_handoff}
use project_firestarter.Browser.Policy.Preflight.{
  required_tier, scope_code, origin_code, condition_code, common_preflight,
}
use project_firestarter.Browser.Policy.Confirm.{
  confirmation_differs, given_confirmation, confirmation_valid,
}
use project_firestarter.Browser.Policy.Observe.{signals, adapter_code, observe_code}
use project_firestarter.Browser.Policy.Evaluate.{
  Decision, decision, refusal, evaluate_citrix, confirm_step, hand_off, after_plan,
  authorize_handoff, decide, evaluate,
}
use project_firestarter.Browser.Policy.Authorize.{handoff_for, handed_record}
use project_firestarter.Browser.Adapters.Candidate.{Located, Actionable}
use project_firestarter.Browser.Adapters.Semantic.{resolve_ready_iff, resolve_opaque_iff}
use project_firestarter.Browser.Adapters.Geometry.{SameRegion, validate_geometry_iff}
use project_firestarter.Browser.Adapters.Remote.{RemoteCurrent, validate_citrix_iff}
use project_firestarter.Browser.Policy.Permitted.{Permitted, common_preflight_iff}
use project_firestarter.Browser.Policy.Confirmed.{Confirms, Confirmed, confirmation_valid_iff}
use project_firestarter.Browser.Policy.Authorised.{Authorised, evaluate_outcome}
use project_firestarter.Browser.Policy.Remote.{RemoteAuthorised, evaluate_citrix_outcome}
use project_firestarter.Browser.Policy.Once.{Event, evaluates, reports, handoffs, handoffs-le-one}
use project_firestarter.Browser.Policy.Settled.{
  MayFollow, Refused, final, settled_forever, transition_outcome,
}
use project_firestarter.Browser.Policy.Guarantees.{
  owner_effect_confirmed, signaled_confirmed, handoff_window,
}

abbrev thousandths : FloatOps ℕ
thousandths = record {
  float_le = leb;
  float_eq = nat_eq;
  float_add = λ a b. a + b;
  float_zero = 0;
  float_one = 1000;
}

abbrev zeros : String
zeros = "0000000000000000000000000000000000000000000000000000000000000000"

abbrev sha256_zeros : String
sha256_zeros = "sha256:0000000000000000000000000000000000000000000000000000000000000000"

abbrev stand_in : Hashes ℕ
stand_in = record { json_hex = λ v. zeros; nonce_hex = λ n. zeros }

abbrev page : DocumentBinding
page = record {
  tab_id = pos 7;
  document_id = "doc-1";
  frame_ids = pos 0 ∷ [];
  origin_ids = "origin-a" ∷ [];
  frame_document_ids = "doc-1" ∷ [];
  frame_generations = pos 3 ∷ [];
  document_generation = pos 3;
  surface_generation = pos 5;
  adapter_version = "dom-1";
}

abbrev send_button : TargetContract
send_button = record {
  contract_id = "send";
  role = "button";
  accessible_name_token = "send-token";
  container_contract_id = "form";
}

abbrev send : ActionProposal ℕ
send = record {
  proposal_id = "p-1";
  idempotency_key = "key-1";
  task_id = "task-1";
  action = submit;
  effect = external_submit;
  adapter = semantic_dom;
  binding = page;
  target = semantic send_button;
  payload_digest = sha256_zeros;
  preconditions =
      "task-bound" ∷ "document-current" ∷ "frame-current" ∷ "origin-allowed" ∷ "target-unique"
      ∷ "target-actionable" ∷ "payload-bound" ∷ "focus-current" ∷ [];
  postconditions = "external-effect-reconciled" ∷ [];
  reversibility = irreversible;
  reversal_action = none;
  reversal_payload_digest = none;
  expires_at_tick = pos 200;
}

abbrev grant : CapabilityGrant
grant = record {
  grant_id = "g-1";
  task_id = "task-1";
  allowed_origin_ids = "origin-a" ∷ [];
  allowed_frame_origin_chains = ("origin-a" ∷ []) ∷ [];
  allowed_adapters = semantic_dom ∷ [];
  allowed_effects = external_submit ∷ [];
  allowed_action_targets =
      record {
        adapter = semantic_dom;
        action = submit;
        effect = external_submit;
        target_kind = "semantic";
        target_digest = sha256_zeros;
      }
      ∷ [];
  expires_at_tick = pos 130;
  allow_geometry_fallback = false;
}

abbrev button : ElementCandidate ℕ
button = record {
  node_id = "node-1";
  contract_id = "send";
  role = "button";
  accessible_name_token = "send-token";
  container_contract_id = "form";
  binding = page;
  attached = true;
  visible = true;
  enabled = true;
  inert = false;
  stable = true;
  obscured = false;
  semantic_available = true;
  shadow_root = "none";
  geometry = none;
}

abbrev seen : SemanticObservation ℕ
seen = record {
  observation_id = "obs-1";
  binding = page;
  candidates = button ∷ [];
  focus_confirmed = true;
  prompt_injection_signal_ids = "signal-1" ∷ [];
}

abbrev consent : Confirmation
consent = record {
  confirmation_id = "c-1";
  proposal_id = "p-1";
  proposal_digest = sha256_zeros;
  payload_digest = sha256_zeros;
  document_id = "doc-1";
  document_generation = pos 3;
  surface_generation = pos 5;
  tier = owner_external;
  expires_at_tick = pos 150;
}

abbrev handed : Decision ℕ
handed =
    decision send authorized_handoff owner_external true
      (some (handoff_for stand_in grant send owner_external (pos 100)))

handed_allowed : handed.allowed ≡ true
unfolding decision
handed_allowed = refl

send_runs :
    (evaluate stand_in thousandths grant send seen (pos 100) (some consent) []).0 ≡ ok handed
unfolding evaluate decide observe_code adapter_code resolve_semantic resolve_matches
    resolve_candidate same_binding matches semantic_locator confirmation_valid given_confirmation
    confirmation_differs common_preflight scope_code origin_code condition_code preflight get put
    plan allowed move transition authorize_handoff after_plan hand_off confirm_step
    future_executor_handoff required_tier contract_digest proposal_digest ◌+ℤ◌ AdapterKind-discrete
    ActionKind-discrete EffectClass-discrete LedgerStatus-discrete decision
send_runs = refl

grant_accepted : grant_init grant ≡ ok tt
unfolding grant_init require_id require_ids safe_id safe_id_codes is_alnum is_id_char chains_init
    chain_items_init action_targets_init safe_digest strip_prefix is_hex
grant_accepted = refl

page_accepted : binding_init page ≡ ok tt
unfolding binding_init require_id require_ids safe_id safe_id_codes is_alnum is_id_char
page_accepted = refl

accepted_shape_example : Rooted page
accepted_shape_example = accepted_shape page page_accepted

allowed_chain_example :
    (is_empty grant.allowed_origin_ids ≡ false)
    × (length grant.allowed_origin_ids ≤ 8)
    × (all (λ o. member o grant.allowed_origin_ids) grant.allowed_origin_ids ≡ true)
allowed_chain_example = allowed_chain grant grant.allowed_origin_ids grant_accepted refl

evaluate_outcome_example :
    (Authorised stand_in thousandths grant send seen (pos 100) none []
      × (evaluate stand_in thousandths grant send seen (pos 100) none [] ≡ (
        ok (
            decision send authorized_handoff (required_tier send (signals seen)) true (
              some
                (handoff_for stand_in grant send (required_tier send (signals seen)) (pos 100)))),
        put [] send.idempotency_key (handed_record stand_in send),
      )))
    ⊎ (¬ (Authorised stand_in thousandths grant send seen (pos 100) none [])
        × ((code : DecisionCode) × (evaluate stand_in thousandths grant send seen (pos 100) none []
              ≡ (ok (refusal send code (required_tier send (signals seen))), []))))
evaluate_outcome_example = evaluate_outcome stand_in thousandths grant send seen (pos 100) none []

abbrev session : List (Event ℕ)
session =
    evaluates grant send seen (pos 100) (some consent)
    ∷ reports "key-1" handed_off succeeded
    ∷ evaluates grant send seen (pos 101) (some consent)
    ∷ []

handoffs-le-one_example : handoffs stand_in thousandths "key-1" session [] ≤ 1
handoffs-le-one_example = handoffs-le-one stand_in thousandths "key-1" session []

owner_effect_confirmed_example :
    (c : Confirmation) × (◌≡◌ {A = Option Confirmation} (some consent) (some c))
    × (c.tier ≡ owner_external)
    × Confirms (λ v. zeros) send (pos 100) owner_external c
owner_effect_confirmed_example =
    owner_effect_confirmed stand_in thousandths grant send seen (pos 100) (some consent) []
      {d = handed} send_runs handed_allowed (inl refl)

common_preflight_iff_example :
    (common_preflight (λ v. zeros) grant send (pos 100) [] ≡ none)
    ↔ Permitted (λ v. zeros) grant send (pos 100) []
common_preflight_iff_example = common_preflight_iff (λ v. zeros) grant send (pos 100) []

handoff_window_example :
    (h : Handoff ℕ) × (handed.handoff ≡ some h)
    × (h.proposal_digest ≡ proposal_digest (λ v. zeros) send)
    × (h.confirmation_tier ≡ required_tier send (signals seen))
    × (h.executor_configured ≡ false)
    × (h.issued_at_tick ≡ pos 100)
    × (pos 100 <ℤ h.expires_at_tick)
    × (h.expires_at_tick ≤ℤ pos 100 +ℤ pos 60)
    × (h.expires_at_tick ≤ℤ pos 200)
    × (h.expires_at_tick ≤ℤ pos 130)
handoff_window_example =
    handoff_window stand_in thousandths grant send seen (pos 100) (some consent) [] {d = handed}
      send_runs handed_allowed

signaled_confirmed_example :
    (c : Confirmation) × (◌≡◌ {A = Option Confirmation} (some consent) (some c))
    × Confirms (λ v. zeros) send (pos 100) action_bound c
signaled_confirmed_example =
    signaled_confirmed stand_in thousandths grant send seen (pos 100) (some consent) [] {d = handed}
      send_runs handed_allowed refl

abbrev region : RemoteTargetContract
region = record {
  region_contract_id = "region";
  local_window_id = "window-1";
  remote_session_epoch = "epoch-1";
  control_epoch = "control-1";
  trained_region_id = "trained-1";
  geometry_generation = pos 2;
}

abbrev screen : CitrixObservation
screen = record {
  observation_id = "obs-2";
  local_window_id = "window-1";
  remote_session_epoch = "epoch-1";
  control_epoch = "control-1";
  trained_region_id = some "trained-1";
  frame_sequence = pos 9;
  current_frame_sequence = pos 9;
  geometry_generation = pos 2;
  expected_geometry_generation = pos 2;
  focus_confirmed = true;
  frozen = false;
}

evaluate_citrix_outcome_example :
    (RemoteAuthorised stand_in grant send screen (pos 100) none []
      × (evaluate_citrix stand_in grant send screen (pos 100) none [] ≡ (
        ok (
            decision send authorized_handoff
              (required_tier send false)
              true
              (some (handoff_for stand_in grant send (required_tier send false) (pos 100)))),
        put [] send.idempotency_key (handed_record stand_in send),
      )))
    ⊎ (¬ (RemoteAuthorised stand_in grant send screen (pos 100) none [])
        × ((code : DecisionCode) × (evaluate_citrix stand_in grant send screen (pos 100) none []
              ≡ (ok (refusal send code (required_tier send false)), []))))
evaluate_citrix_outcome_example =
    evaluate_citrix_outcome stand_in grant send screen (pos 100) none []

abbrev done : LedgerRecord
done = record {
  proposal_id = "p-1";
  idempotency_key = "key-1";
  proposal_digest = sha256_zeros;
  status = succeeded;
  attempt = 1;
}

abbrev one_done : Ledger
one_done = ("key-1", done) ∷ []

done_found : get one_done "key-1" ≡ some done
unfolding get
done_found = refl

settled_forever_example : get (final stand_in thousandths session one_done) "key-1" ≡ some done
settled_forever_example =
    settled_forever stand_in thousandths session one_done "key-1" done done_found (inl refl)

transition_outcome_example :
    ((r : LedgerRecord) × (left : Ledger) × (get one_done "key-1" ≡ some r)
      × (r.status ≡ succeeded)
      × MayFollow succeeded planned
      × (transition one_done "key-1" succeeded planned ≡ (ok (record r { status = planned }), left))
      × (get left "key-2" ≡ (
          if ◌==◌ {A = String} "key-1" "key-2"
          then some (record r { status = planned })
          else get one_done "key-2")))
    ⊎ ((e : Error) × (transition one_done "key-1" succeeded planned ≡ (err e, one_done))
        × Refused one_done "key-1" succeeded planned e)
transition_outcome_example = transition_outcome one_done "key-1" succeeded planned "key-2"

resolve_ready_iff_example :
    ((resolve_semantic (semantic_locator send_button) page seen).1 ≡ none) ↔ (
      (c : ElementCandidate ℕ) × Located (semantic_locator send_button) page seen c
      × (c.semantic_available ≡ true)
      × Actionable c)
resolve_ready_iff_example = resolve_ready_iff (semantic_locator send_button) page seen

resolve_opaque_iff_example :
    (resolve_semantic (semantic_locator send_button) page seen
      ≡ (some button, some semantic_required))
    ↔ (Located (semantic_locator send_button) page seen button
        × (button.semantic_available ≡ false))
resolve_opaque_iff_example = resolve_opaque_iff (semantic_locator send_button) page seen button

abbrev trained : RelativeTargetContract ℕ
trained = record {
  contract_id = "send";
  role = "button";
  accessible_name_token = "send-token";
  container_contract_id = "form";
  trained_regime_id = "regime-1";
  x_ratio = 100;
  y_ratio = 200;
  width_ratio = 50;
  height_ratio = 25;
  viewport_generation = pos 1;
  layout_generation = pos 1;
  transform_generation = pos 1;
}

validate_geometry_iff_example : (validate_geometry thousandths button trained ≡ none) ↔ (
    (g : GeometryObservation ℕ) × (button.geometry ≡ some g)
    × (button.semantic_available ≡ false)
    × SameRegion thousandths g trained
    × (g.hit_contract_id ≡ some "send")
    × Actionable button)
validate_geometry_iff_example = validate_geometry_iff thousandths button trained

validate_citrix_iff_example : (validate_citrix screen region ≡ none) ↔ RemoteCurrent screen region
validate_citrix_iff_example = validate_citrix_iff screen region

confirmation_valid_iff_example :
    (confirmation_valid (λ v. zeros) send (some consent) owner_external (pos 100) ≡ none)
    ↔ Confirmed (λ v. zeros) send (pos 100) owner_external (some consent)
confirmation_valid_iff_example =
    confirmation_valid_iff (λ v. zeros) send (pos 100) owner_external (some consent)
