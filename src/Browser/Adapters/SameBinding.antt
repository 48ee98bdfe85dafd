-- ===== src/Browser/Adapters/SameBinding.antt =====
-- `_same_binding` of adapters/semantic_dom.py, against equality of bindings.
use project_firestarter.Prelude.{
  ◌≡◌, ◌↔◌, refl, subst, arith, Bool, true, false, not, ◌||◌, none, some, ◌==◌, String-Eq, ℤ_Eq,
  List-Eq, list_eq_refl, int_eq_iff, if◌then◌else◌,
}
use project_firestarter.Browser.Kinds.{
  stale_handle, document_changed, frame_changed, origin_not_allowed,
}
use project_firestarter.Browser.Binding.{DocumentBinding, binding_eq_iff}
use project_firestarter.Browser.Adapters.{same_binding}

-- The ladder of `_same_binding` over the values of its nine comparisons.
ladder :
    (tab document frames documents generations origins generation surface version : Bool)
    → (if not tab
        then some stale_handle
        else if not document
        then some document_changed
        else if not frames || not documents || not generations
        then some frame_changed
        else if not origins
        then some origin_not_allowed
        else if not generation || not surface || not version
        then some stale_handle
        else none)
      ≡ none
    → (tab ≡ true)
      × (document ≡ true)
      × (frames ≡ true)
      × (documents ≡ true)
      × (generations ≡ true)
      × (origins ≡ true)
      × (generation ≡ true)
      × (surface ≡ true)
      × (version ≡ true)
ladder false d f e g o n s v h = absurd (cc)
ladder true false f e g o n s v h = absurd (cc)
ladder true true f e g o n s v h = ground arith

same_binding_refl : (a : DocumentBinding) → same_binding a a ≡ none
unfolding same_binding
same_binding_refl a =
    rw
      (
        (int_eq_iff a.tab_id a.tab_id).1 refl,
        (String-Eq.agrees a.document_id a.document_id).1 refl,
        list_eq_refl a.frame_ids,
        list_eq_refl a.frame_document_ids,
        list_eq_refl a.frame_generations,
        list_eq_refl a.origin_ids,
        (int_eq_iff a.document_generation a.document_generation).1 refl,
        (int_eq_iff a.surface_generation a.surface_generation).1 refl,
        (String-Eq.agrees a.adapter_version a.adapter_version).1 refl,
      )
      refl

same_binding_sound : (a b : DocumentBinding) → same_binding a b ≡ none → a ≡ b
unfolding same_binding
same_binding_sound a b h =
    let parts =
      ladder (a.tab_id == b.tab_id) (a.document_id == b.document_id) (a.frame_ids == b.frame_ids)
        (a.frame_document_ids == b.frame_document_ids) (a.frame_generations == b.frame_generations)
        (a.origin_ids == b.origin_ids) (a.document_generation == b.document_generation)
        (a.surface_generation == b.surface_generation) (a.adapter_version == b.adapter_version) h in
    (binding_eq_iff a b).0
      (rw (parts.0, parts.1, parts.2, parts.3, parts.4, parts.5, parts.6, parts.7, parts.8) refl)

-- Two bindings are compared as the same exactly when they are equal in all nine fields.
pub same_binding_iff : (a b : DocumentBinding) → (same_binding a b ≡ none) ↔ (a ≡ b)
same_binding_iff a b =
    (same_binding_sound a b, λ p. subst (λ c. same_binding a c ≡ none) p (same_binding_refl a))
