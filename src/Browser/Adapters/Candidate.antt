-- ===== src/Browser/Adapters/Candidate.antt =====
-- The outcomes of `resolve_semantic` on its only match.
use project_firestarter.Prelude.{
  String, ◌≡◌, ◌≢◌, ◌↔◌, refl, arith, true, false, [], ◌∷◌, none, some, select, ◌==◌, String-Eq,
  ℤ_Eq, List-Eq, inl, inr, Bool-cases, Option-cases,
}
use project_firestarter.Browser.Kinds.{semantic_required}
use project_firestarter.Browser.Binding.{DocumentBinding}
use project_firestarter.Browser.Observation.{ElementCandidate, SemanticObservation}
use project_firestarter.Browser.Adapters.{Locator, same_binding, matches, resolve_candidate}
use project_firestarter.Browser.Adapters.SameBinding.{same_binding_iff}

pub not_closed_iff : (s : String) → ((s == "closed") ≡ false) ↔ (s ≢ "closed")
not_closed_iff s = (
  λ h e. cc (h, (String-Eq.agrees s "closed").1 e),
  λ n. elim (Bool-cases (s == "closed")) [
    | inl p ↦ absurd (n ((String-Eq.agrees s "closed").0 p))
    | inr q ↦ q
  ],
)

module _ {F : Type 0} where
  -- `c` is the one element of a current observation that the locator names, itself current, and
  -- not behind a closed shadow root.
  pub record Located (t : Locator) (b : DocumentBinding) (o : SemanticObservation F)
      (c : ElementCandidate F) : Type 0 where
    pub observed : b ≡ o.binding
    pub only : select (matches t) o.candidates ≡ c ∷ []
    pub current : b ≡ c.binding
    pub not_closed : c.shadow_root ≢ "closed"

  pub record Actionable (c : ElementCandidate F) : Type 0 where
    pub attached : c.attached ≡ true
    pub visible : c.visible ≡ true
    pub not_inert : c.inert ≡ false
    pub enabled : c.enabled ≡ true
    pub stable : c.stable ≡ true
    pub not_obscured : c.obscured ≡ false

  -- Outcomes of one candidate, from the results of its tests.
  pub candidate_ready :
      (b : DocumentBinding) (c : ElementCandidate F)
      → (resolve_candidate b c).1 ≡ none
      → (b ≡ c.binding)
        × ((c.shadow_root == "closed") ≡ false)
        × (c.semantic_available ≡ true)
        × Actionable c
  unfolding resolve_candidate
  candidate_ready b c h = elim (Option-cases (same_binding b c.binding)) [
    | inl e ↦ ((same_binding_iff b c.binding).0 e, ground arith, ground arith, ground arith)
    | inr (code, e) ↦ absurd (ground arith)
  ]

  pub ready_candidate :
      (b : DocumentBinding) (c : ElementCandidate F)
      → b ≡ c.binding
      → (c.shadow_root == "closed") ≡ false
      → c.semantic_available ≡ true
      → Actionable c
      → (resolve_candidate b c).1 ≡ none
  unfolding resolve_candidate
  ready_candidate b c e s a r =
      rw
        (
          resolve_candidate,
          (same_binding_iff b c.binding).1 e,
          s,
          a,
          r.attached,
          r.visible,
          r.not_inert,
          r.enabled,
          r.stable,
          r.not_obscured,
        )
        refl

  -- The only outcome that asks for geometry keeps the candidate.
  pub candidate_opaque :
      (b : DocumentBinding) (c : ElementCandidate F)
      → (resolve_candidate b c).1 ≡ some semantic_required
      → (d : ElementCandidate F) → (resolve_candidate b c).0 ≡ some d
      → (b ≡ c.binding)
        × ((c.shadow_root == "closed") ≡ false)
        × (c.semantic_available ≡ false)
        × (c ≡ d)
  unfolding resolve_candidate
  candidate_opaque b c h d k = elim (Option-cases (same_binding b c.binding)) [
    | inl e ↦ ((same_binding_iff b c.binding).0 e, ground arith, ground arith, ground arith)
    | inr (code, e) ↦ absurd (ground arith)
  ]

  pub opaque_candidate :
      (b : DocumentBinding) (c : ElementCandidate F)
      → b ≡ c.binding
      → (c.shadow_root == "closed") ≡ false
      → c.semantic_available ≡ false
      → resolve_candidate b c ≡ (some c, some semantic_required)
  unfolding resolve_candidate
  opaque_candidate b c e s a = rw (resolve_candidate, (same_binding_iff b c.binding).1 e, s, a) refl
