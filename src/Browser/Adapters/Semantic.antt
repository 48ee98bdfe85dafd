-- ===== src/Browser/Adapters/Semantic.antt =====
-- What `resolve_semantic` accepts, stated without its tests.
use project_firestarter.Prelude.{
  ◌≡◌, ◌↔◌, refl, ap, arith, true, false, List, [], ◌∷◌, none, some, select, String-Eq, ℤ_Eq,
  List-Eq, inl, inr, Option-cases,
}
use project_firestarter.Browser.Kinds.{semantic_required}
use project_firestarter.Browser.Binding.{DocumentBinding}
use project_firestarter.Browser.Observation.{ElementCandidate, SemanticObservation}
use project_firestarter.Browser.Adapters.{
  Locator, same_binding, matches, resolve_candidate, resolve_matches, resolve_semantic,
}
use project_firestarter.Browser.Adapters.SameBinding.{same_binding_iff}
use project_firestarter.Browser.Adapters.Candidate.{
  Located, Actionable, candidate_ready, ready_candidate, candidate_opaque, opaque_candidate,
  not_closed_iff,
}

module _ {F : Type 0} where
  matches_ready :
      (b : DocumentBinding) (cs : List (ElementCandidate F))
      → (resolve_matches b cs).1 ≡ none
      → (c : ElementCandidate F) × (cs ≡ c ∷ []) × ((resolve_candidate b c).1 ≡ none)
  unfolding resolve_matches
  matches_ready b [] h = cc
  matches_ready b (c ∷ []) h = (c, refl, h)
  matches_ready b (c ∷ d ∷ cs) h = cc

  matches_opaque :
      (b : DocumentBinding) (cs : List (ElementCandidate F)) (d : ElementCandidate F)
      → resolve_matches b cs ≡ (some d, some semantic_required)
      → (c : ElementCandidate F) × (cs ≡ c ∷ [])
        × (resolve_candidate b c ≡ (some d, some semantic_required))
  unfolding resolve_matches
  matches_opaque b [] d h = cc
  matches_opaque b (c ∷ []) d h = (c, refl, h)
  matches_opaque b (c ∷ e ∷ cs) d h = cc

  -- A target resolves with nothing wrong exactly when one located candidate is actionable and has
  -- accessible semantics.
  pub resolve_ready_iff :
      (t : Locator) (b : DocumentBinding) (o : SemanticObservation F)
      → ((resolve_semantic t b o).1 ≡ none) ↔ (
          (c : ElementCandidate F) × Located t b o c × (c.semantic_available ≡ true) × Actionable c)
  unfolding resolve_semantic resolve_matches
  resolve_ready_iff t b o = (
    λ h. elim (Option-cases (same_binding b o.binding)) [
      | inr (code, e) ↦ absurd (ground arith)
      | inl e ↦
          let (c, only, ready) =
            matches_ready b (select (matches t) o.candidates) (rw (e, resolve_semantic) at h) in
          let (current, shadow, open_semantics, actionable) = candidate_ready b c ready in
          (
            c,
            record {
              observed = (same_binding_iff b o.binding).0 e;
              only = only;
              current = current;
              not_closed = (not_closed_iff c.shadow_root).0 shadow;
            },
            open_semantics,
            actionable,
          )
    ],
    λ w.
        rw (resolve_semantic, (same_binding_iff b o.binding).1 w.1.observed, w.1.only)
          (ready_candidate b w.0 w.1.current ((not_closed_iff w.0.shadow_root).1 w.1.not_closed) w.2
            w.3),
  )

  -- A resolution gives a candidate and asks for semantics, which lets geometry be tried, exactly
  -- when the candidate is the one located and lacks accessible semantics.
  pub resolve_opaque_iff :
      (t : Locator) (b : DocumentBinding) (o : SemanticObservation F) (d : ElementCandidate F)
      → (resolve_semantic t b o ≡ (some d, some semantic_required))
        ↔ (Located t b o d × (d.semantic_available ≡ false))
  unfolding resolve_semantic resolve_matches
  resolve_opaque_iff t b o d = (
    λ h. elim (Option-cases (same_binding b o.binding)) [
      | inr (code, e) ↦ absurd (ground arith)
      | inl e ↦
          let (c, only, opaque) =
            matches_opaque b (select (matches t) o.candidates) d (rw (e, resolve_semantic) at h) in
          let (current, shadow, hidden, same) =
            candidate_opaque b c (ap (λ r. r.1) opaque) d (ap (λ r. r.0) opaque) in
          rw (← same) (
            record {
              observed = (same_binding_iff b o.binding).0 e;
              only = only;
              current = current;
              not_closed = (not_closed_iff c.shadow_root).0 shadow;
            },
            hidden,
          )
    ],
    λ w.
        rw (resolve_semantic, (same_binding_iff b o.binding).1 w.0.observed, w.0.only)
          (opaque_candidate b d w.0.current ((not_closed_iff d.shadow_root).1 w.0.not_closed) w.1),
  )
