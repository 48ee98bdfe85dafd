-- ===== src/Browser/Adapters/Geometry.antt =====
-- What `validate_geometry` accepts, stated without its tests.
use project_firestarter.Prelude.{
  Bool, ◌==◌, ◌||◌, not, ◌≡◌, ◌↔◌, refl, arith, true, false, none, some, String-Eq, ℤ_Eq, List-Eq,
  int_eq_iff, inl, inr, Option-cases,
}
use project_firestarter.Browser.Json.{FloatOps}
use project_firestarter.Browser.Targets.{RelativeTargetContract}
use project_firestarter.Browser.Observation.{GeometryObservation, ElementCandidate}
use project_firestarter.Browser.Adapters.{
  absent_or_other, candidate_code, geometry_differs, validate_geometry,
}
use project_firestarter.Browser.Adapters.Candidate.{Actionable}
use project_firestarter.Browser.Adapters.Remote.{present_iff}

module _ {F : Type 0} (ops : FloatOps F) where
  open ops use {float_eq}

  -- The observed region is the trained one: same generations, and equal ratios.
  pub record SameRegion (g : GeometryObservation F) (t : RelativeTargetContract F) : Type 0 where
    pub regime : g.trained_regime_id ≡ some t.trained_regime_id
    pub viewport : g.viewport_generation ≡ t.viewport_generation
    pub layout : g.layout_generation ≡ t.layout_generation
    pub transform : g.transform_generation ≡ t.transform_generation
    pub x : float_eq g.x_ratio t.x_ratio ≡ true
    pub y : float_eq g.y_ratio t.y_ratio ≡ true
    pub width : float_eq g.width_ratio t.width_ratio ≡ true
    pub height : float_eq g.height_ratio t.height_ratio ≡ true

  differs_false :
      (a b c d e f g : Bool)
      → (not a || not b || not c || not d || not e || not f || not g) ≡ false
      → (a ≡ true) × (b ≡ true) × (c ≡ true) × (d ≡ true) × (e ≡ true) × (f ≡ true) × (g ≡ true)
  differs_false a b c d e f g h = ground arith

  region_matches :
      (g : GeometryObservation F) (t : RelativeTargetContract F)
      → absent_or_other g.trained_regime_id t.trained_regime_id ≡ false
      → geometry_differs ops g t ≡ false
      → SameRegion g t
  unfolding geometry_differs
  region_matches g t h d =
      let parts =
        differs_false (g.viewport_generation == t.viewport_generation)
          (g.layout_generation == t.layout_generation)
          (g.transform_generation == t.transform_generation) (float_eq g.x_ratio t.x_ratio)
          (float_eq g.y_ratio t.y_ratio) (float_eq g.width_ratio t.width_ratio)
          (float_eq g.height_ratio t.height_ratio) d in
      record {
        regime = (present_iff g.trained_regime_id t.trained_regime_id).0 h;
        viewport = (int_eq_iff g.viewport_generation t.viewport_generation).0 parts.0;
        layout = (int_eq_iff g.layout_generation t.layout_generation).0 parts.1;
        transform = (int_eq_iff g.transform_generation t.transform_generation).0 parts.2;
        x = parts.3;
        y = parts.4;
        width = parts.5;
        height = parts.6;
      }

  candidate_passes :
      (c : ElementCandidate F) (g : GeometryObservation F)
      → candidate_code c g ≡ none
      → (g.hit_contract_id ≡ some c.contract_id) × Actionable c
  unfolding candidate_code
  candidate_passes c g h =
      (ground (arith, present_iff g.hit_contract_id c.contract_id), ground arith)

  geometry_passes :
      (c : ElementCandidate F) (t : RelativeTargetContract F) (g : GeometryObservation F)
      → c.geometry ≡ some g
      → validate_geometry ops c t ≡ none
      → (c.semantic_available ≡ false)
        × (absent_or_other g.trained_regime_id t.trained_regime_id ≡ false)
        × (geometry_differs ops g t ≡ false)
        × (candidate_code c g ≡ none)
  unfolding validate_geometry
  geometry_passes c t g e h = ground arith

  -- The relative fallback passes exactly on a candidate without accessible semantics whose observed
  -- region is the trained one, is hit by the candidate itself, and is actionable.
  pub validate_geometry_iff :
      (c : ElementCandidate F) (t : RelativeTargetContract F)
      → (validate_geometry ops c t ≡ none) ↔ (
          (g : GeometryObservation F) × (c.geometry ≡ some g)
          × (c.semantic_available ≡ false)
          × SameRegion g t
          × (g.hit_contract_id ≡ some c.contract_id)
          × Actionable c)
  unfolding validate_geometry geometry_differs candidate_code
  validate_geometry_iff c t = (
    λ h. elim (Option-cases c.geometry) [
      | inl e ↦ absurd (ground arith)
      | inr (g, e) ↦
          let parts = geometry_passes c t g e h in
          let (hit, ready) = candidate_passes c g parts.3 in
          (g, e, parts.0, region_matches g t parts.1 parts.2, hit, ready)
    ],
    λ w.
        rw
          (
            w.2,
            w.1,
            (present_iff w.0.trained_regime_id t.trained_regime_id).1 w.3.regime,
            (int_eq_iff w.0.viewport_generation t.viewport_generation).1 w.3.viewport,
            (int_eq_iff w.0.layout_generation t.layout_generation).1 w.3.layout,
            (int_eq_iff w.0.transform_generation t.transform_generation).1 w.3.transform,
            w.3.x,
            w.3.y,
            w.3.width,
            w.3.height,
            w.5.not_obscured,
            (present_iff w.0.hit_contract_id c.contract_id).1 w.4,
            w.5.attached,
            w.5.visible,
            w.5.not_inert,
            w.5.enabled,
            w.5.stable,
          )
          refl,
  )
