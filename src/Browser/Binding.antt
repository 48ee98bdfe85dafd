-- ===== src/Browser/Binding.antt =====
-- `DocumentBinding` of contracts.py.
pub mod Shape
use project_firestarter.Prelude.{
  String, ◌≡◌, ◌↔◌, refl, arith, ℤ, pos, ltb_ℤ, Bool, true, false, ◌&&◌, ◌||◌, not, List, [], ◌∷◌,
  ltb, nat_eq, any, length, to_set, Eq, ◌==◌, Result, refuse_if, ◌>>◌, list_eq_iff, list_eq_refl,
  int_eq_iff, subst, ℤ_Eq, String-Eq, List-Eq,
}
use project_firestarter.Browser.Ids.{require_id, require_ids}

pub record DocumentBinding : Type 0 where
  pub tab_id : ℤ
  pub document_id : String
  pub frame_ids : List ℤ
  pub origin_ids : List String
  pub frame_document_ids : List String
  pub frame_generations : List ℤ
  pub document_generation : ℤ
  pub surface_generation : ℤ
  pub adapter_version : String

abbrev pub negative : ℤ → Bool
negative n = ltb_ℤ n (pos 0)

-- `not self.frame_ids or self.frame_ids[0] != 0`
abbrev pub not_top : List ℤ → Bool
not_top [] = true
not_top (f ∷ fs) = not (f == pos 0)

-- `self.frame_document_ids[0] != self.document_id`; the chain is known to be non-empty there.
abbrev pub other_top : List String → String → Bool
other_top [] d = true
other_top (t ∷ ts) d = not (t == d)

-- The chained comparison of the four lengths.
abbrev pub same_depth : DocumentBinding → Bool
same_depth b =
    nat_eq (length b.frame_ids) (length b.origin_ids)
    && nat_eq (length b.origin_ids) (length b.frame_document_ids)
    && nat_eq (length b.frame_document_ids) (length b.frame_generations)

-- `DocumentBinding.__post_init__`
unfoldable pub binding_init : DocumentBinding → Result (Unit {0})
binding_init b = do
  refuse_if (negative b.tab_id) "tab_id must be non-negative"
  require_id b.document_id "document_id"
  require_id b.adapter_version "adapter_version"
  refuse_if (not_top b.frame_ids) "frame_ids must start at the top frame"
  refuse_if
      (ltb 8 (length b.frame_ids)
        || not (nat_eq (length (to_set b.frame_ids)) (length b.frame_ids)))
      "frame chain must be unique and bounded"
  refuse_if (not (same_depth b)) "frame identity chains must have equal length"
  refuse_if (other_top b.frame_document_ids b.document_id)
      "top frame document must equal document_id"
  refuse_if (any negative b.frame_ids) "frame IDs must be non-negative"
  require_ids b.origin_ids "origin_id"
  require_ids b.frame_document_ids "frame_document_id"
  refuse_if (any negative b.frame_generations) "frame generations must be non-negative"
  refuse_if (negative b.document_generation || negative b.surface_generation)
      "generations must be non-negative"

-- The dataclass's `==`.
abbrev pub binding_eq : DocumentBinding → DocumentBinding → Bool
binding_eq a b =
    (a.tab_id == b.tab_id)
    && (a.document_id == b.document_id)
    && (a.frame_ids == b.frame_ids)
    && (a.origin_ids == b.origin_ids)
    && (a.frame_document_ids == b.frame_document_ids)
    && (a.frame_generations == b.frame_generations)
    && (a.document_generation == b.document_generation)
    && (a.surface_generation == b.surface_generation)
    && (a.adapter_version == b.adapter_version)

nine :
    (a b c d e f g h k : Bool)
    → (a && b && c && d && e && f && g && h && k) ≡ true
    → (a ≡ true)
      × (b ≡ true)
      × (c ≡ true)
      × (d ≡ true)
      × (e ≡ true)
      × (f ≡ true)
      × (g ≡ true)
      × (h ≡ true)
      × (k ≡ true)
nine true b c d e f g h k p = ground arith
nine false b c d e f g h k p = ground arith

binding_eq_sound : (a b : DocumentBinding) → binding_eq a b ≡ true → a ≡ b
binding_eq_sound a b h =
    let parts =
      nine (a.tab_id == b.tab_id) (a.document_id == b.document_id) (a.frame_ids == b.frame_ids)
        (a.origin_ids == b.origin_ids) (a.frame_document_ids == b.frame_document_ids)
        (a.frame_generations == b.frame_generations)
        (a.document_generation == b.document_generation)
        (a.surface_generation == b.surface_generation) (a.adapter_version == b.adapter_version) h in
    λ i. record {
      tab_id = (int_eq_iff a.tab_id b.tab_id).0 parts.0 i;
      document_id = (String-Eq.agrees a.document_id b.document_id).0 parts.1 i;
      frame_ids = (list_eq_iff a.frame_ids b.frame_ids).0 parts.2 i;
      origin_ids = (list_eq_iff a.origin_ids b.origin_ids).0 parts.3 i;
      frame_document_ids = (list_eq_iff a.frame_document_ids b.frame_document_ids).0 parts.4 i;
      frame_generations = (list_eq_iff a.frame_generations b.frame_generations).0 parts.5 i;
      document_generation = (int_eq_iff a.document_generation b.document_generation).0 parts.6 i;
      surface_generation = (int_eq_iff a.surface_generation b.surface_generation).0 parts.7 i;
      adapter_version = (String-Eq.agrees a.adapter_version b.adapter_version).0 parts.8 i;
    }

binding_eq_refl : (a : DocumentBinding) → binding_eq a a ≡ true
binding_eq_refl a =
    rw
      (
        (int_eq_iff a.tab_id a.tab_id).1 refl,
        (String-Eq.agrees a.document_id a.document_id).1 refl,
        list_eq_refl a.frame_ids,
        list_eq_refl a.origin_ids,
        list_eq_refl a.frame_document_ids,
        list_eq_refl a.frame_generations,
        (int_eq_iff a.document_generation a.document_generation).1 refl,
        (int_eq_iff a.surface_generation a.surface_generation).1 refl,
        (String-Eq.agrees a.adapter_version a.adapter_version).1 refl,
      )
      refl

pub binding_eq_iff : (a b : DocumentBinding) → (binding_eq a b ≡ true) ↔ (a ≡ b)
binding_eq_iff a b =
    (binding_eq_sound a b, λ p. subst (λ c. binding_eq a c ≡ true) p (binding_eq_refl a))

instance abbrev pub DocumentBinding-Eq : Eq DocumentBinding
DocumentBinding-Eq = record { test = binding_eq; agrees = binding_eq_iff }
