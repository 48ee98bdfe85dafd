-- ===== src/Browser/Grant.antt =====
-- `CapabilityGrant` of contracts.py. A `frozenset` is a list in which no element comes twice.
pub mod Chains
use project_firestarter.Prelude.{
  ℕ, String, ◌≡◌, ◌↔◌, refl, arith, ℤ, pos, ltb_ℤ, Bool, true, false, ◌&&◌, ◌||◌, not, List, [],
  ◌∷◌, ltb, length, member, Eq, ◌==◌, String-Eq, Result, ok, refuse_if, ◌>>◌, subst,
}
use project_firestarter.Browser.Ids.{require_id, require_ids, safe_digest}
use project_firestarter.Browser.Kinds.{
  AdapterKind, ActionKind, EffectClass, AdapterKind-Eq, ActionKind-Eq, EffectClass-Eq,
}

-- One element of `allowed_action_targets`.
pub record ActionTarget : Type 0 where
  pub adapter : AdapterKind
  pub action : ActionKind
  pub effect : EffectClass
  pub target_kind : String
  pub target_digest : String

pub record CapabilityGrant : Type 0 where
  pub grant_id : String
  pub task_id : String
  pub allowed_origin_ids : List String
  pub allowed_frame_origin_chains : List (List String)
  pub allowed_adapters : List AdapterKind
  pub allowed_effects : List EffectClass
  pub allowed_action_targets : List ActionTarget
  pub expires_at_tick : ℤ
  pub allow_geometry_fallback : Bool

abbrev pub is_empty {ℓ} : {A : Type ℓ} → List A → Bool
is_empty [] = true
is_empty (x ∷ xs) = false

abbrev pub out_of_bounds {ℓ} : {A : Type ℓ} → List A → ℕ → Bool
out_of_bounds xs limit = is_empty xs || ltb limit (length xs)

-- The inner loop over one frame chain.
unfoldable pub chain_items_init : List String → List String → Result (Unit {0})
chain_items_init allowed [] = ok tt
chain_items_init allowed (o ∷ os) = do
  require_id o "frame_origin_id"
  refuse_if (not (member o allowed)) "frame chain origin is outside the origin allowlist"
  chain_items_init allowed os

-- The loop over `allowed_frame_origin_chains`.
unfoldable pub chains_init : List String → List (List String) → Result (Unit {0})
unfolding chain_items_init
chains_init allowed [] = ok tt
chains_init allowed (c ∷ cs) = do
  refuse_if (out_of_bounds c 8) "frame allowlist chain must be non-empty and bounded"
  chain_items_init allowed c
  chains_init allowed cs

-- The loop over `allowed_action_targets`; the three enumerations are typed.
unfoldable pub action_targets_init : List ActionTarget → Result (Unit {0})
action_targets_init [] = ok tt
action_targets_init (t ∷ ts) = do
  refuse_if (not (member t.target_kind ("semantic" ∷ "relative-region" ∷ "remote-region" ∷ [])))
      "action-target allowlist has an unknown target kind"
  refuse_if (not (safe_digest t.target_digest)) "allowed target contract must use a sha256 digest"
  action_targets_init ts

-- `CapabilityGrant.__post_init__`
unfoldable pub grant_init : CapabilityGrant → Result (Unit {0})
unfolding chains_init action_targets_init
grant_init g = do
  require_id g.grant_id "grant_id"
  require_id g.task_id "task_id"
  require_ids g.allowed_origin_ids "allowed_origin_id"
  refuse_if (out_of_bounds g.allowed_origin_ids 32) "origin allowlist must be non-empty and bounded"
  refuse_if (out_of_bounds g.allowed_frame_origin_chains 32)
      "frame allowlist must be non-empty and bounded"
  chains_init g.allowed_origin_ids g.allowed_frame_origin_chains
  refuse_if (out_of_bounds g.allowed_action_targets 128)
      "action-target allowlist must be non-empty and bounded"
  action_targets_init g.allowed_action_targets
  refuse_if (ltb_ℤ g.expires_at_tick (pos 0)) "expires_at_tick must be non-negative"

-- The tuples' `==`.
abbrev pub target_eq : ActionTarget → ActionTarget → Bool
target_eq a b =
    (a.adapter == b.adapter)
    && (a.action == b.action)
    && (a.effect == b.effect)
    && (a.target_kind == b.target_kind)
    && (a.target_digest == b.target_digest)

five :
    (a b c d e : Bool)
    → (a && b && c && d && e) ≡ true
    → (a ≡ true) × (b ≡ true) × (c ≡ true) × (d ≡ true) × (e ≡ true)
five a b c d e p = ground arith

target_eq_sound : (a b : ActionTarget) → target_eq a b ≡ true → a ≡ b
target_eq_sound a b h =
    let parts =
      five (a.adapter == b.adapter) (a.action == b.action) (a.effect == b.effect)
        (a.target_kind == b.target_kind) (a.target_digest == b.target_digest) h in
    λ i. record {
      adapter = (AdapterKind-Eq.agrees a.adapter b.adapter).0 parts.0 i;
      action = (ActionKind-Eq.agrees a.action b.action).0 parts.1 i;
      effect = (EffectClass-Eq.agrees a.effect b.effect).0 parts.2 i;
      target_kind = (String-Eq.agrees a.target_kind b.target_kind).0 parts.3 i;
      target_digest = (String-Eq.agrees a.target_digest b.target_digest).0 parts.4 i;
    }

target_eq_refl : (a : ActionTarget) → target_eq a a ≡ true
target_eq_refl a =
    rw
      (
        (AdapterKind-Eq.agrees a.adapter a.adapter).1 refl,
        (ActionKind-Eq.agrees a.action a.action).1 refl,
        (EffectClass-Eq.agrees a.effect a.effect).1 refl,
        (String-Eq.agrees a.target_kind a.target_kind).1 refl,
        (String-Eq.agrees a.target_digest a.target_digest).1 refl,
      )
      refl

pub target_eq_iff : (a b : ActionTarget) → (target_eq a b ≡ true) ↔ (a ≡ b)
target_eq_iff a b =
    (target_eq_sound a b, λ p. subst (λ c. target_eq a c ≡ true) p (target_eq_refl a))

instance abbrev pub ActionTarget-Eq : Eq ActionTarget
ActionTarget-Eq = record { test = target_eq; agrees = target_eq_iff }
