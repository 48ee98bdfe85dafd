-- ===== src/Browser/Adapters.antt =====
-- adapters/semantic_dom.py, adapters/relative_xy.py and adapters/citrix_remote.py: pure checks of
-- an observation against a proposal's target. `none` is the sources' `None`: nothing is wrong.
pub mod SameBinding
pub mod Candidate
pub mod Semantic
pub mod Geometry
pub mod Remote
use project_firestarter.Prelude.{
  String, Bool, true, false, ◌&&◌, ◌||◌, not, List, [], ◌∷◌, Option, none, some, ℤ, ltb_ℤ, select,
  Eq, ◌==◌, String-Eq, ℤ_Eq, List-Eq, if◌then◌else◌,
}
use project_firestarter.Browser.Kinds.{
  DecisionCode, stale_handle, document_changed, frame_changed, origin_not_allowed, target_not_found,
  target_ambiguous, target_hidden, target_disabled, target_unstable, target_obscured,
  shadow_root_closed, semantic_required, geometry_not_allowed, geometry_untrained, geometry_drift,
  remote_session_changed, remote_frame_stale, precondition_failed,
}
use project_firestarter.Browser.Json.{FloatOps}
use project_firestarter.Browser.Binding.{DocumentBinding}
use project_firestarter.Browser.Targets.{
  TargetContract, RelativeTargetContract, RemoteTargetContract,
}
use project_firestarter.Browser.Observation.{
  GeometryObservation, ElementCandidate, SemanticObservation, CitrixObservation,
}

-- `_same_binding`
unfoldable pub same_binding : DocumentBinding → DocumentBinding → Option DecisionCode
same_binding left right =
    if not (left.tab_id == right.tab_id)
    then some stale_handle
    else if not (left.document_id == right.document_id)
    then some document_changed
    else if not (left.frame_ids == right.frame_ids)
        || not (left.frame_document_ids == right.frame_document_ids)
        || not (left.frame_generations == right.frame_generations)
    then some frame_changed
    else if not (left.origin_ids == right.origin_ids)
    then some origin_not_allowed
    else if not (left.document_generation == right.document_generation)
        || not (left.surface_generation == right.surface_generation)
        || not (left.adapter_version == right.adapter_version)
    then some stale_handle
    else none

-- The four texts by which a semantic or a relative target names an element.
pub record Locator : Type 0 where
  pub contract_id : String
  pub role : String
  pub accessible_name_token : String
  pub container_contract_id : String

unfoldable pub semantic_locator : TargetContract → Locator
semantic_locator t = record {
  contract_id = t.contract_id;
  role = t.role;
  accessible_name_token = t.accessible_name_token;
  container_contract_id = t.container_contract_id;
}

-- `value is None or value != wanted`
abbrev pub absent_or_other : Option String → String → Bool
absent_or_other none wanted = true
absent_or_other (some value) wanted = not (value == wanted)

-- `value != wanted` for an optional value.
abbrev pub optional_ne : Option String → String → Bool
optional_ne none wanted = true
optional_ne (some value) wanted = not (value == wanted)

module _ {F : Type 0} where
  unfoldable pub relative_locator : RelativeTargetContract F → Locator
  relative_locator t = record {
    contract_id = t.contract_id;
    role = t.role;
    accessible_name_token = t.accessible_name_token;
    container_contract_id = t.container_contract_id;
  }

  -- The test of the comprehension `matches`.
  unfoldable pub matches : Locator → ElementCandidate F → Bool
  matches t c =
      (c.contract_id == t.contract_id)
      && (c.role == t.role)
      && (c.accessible_name_token == t.accessible_name_token)
      && (c.container_contract_id == t.container_contract_id)

  -- What `resolve_semantic` does with the only match.
  unfoldable pub resolve_candidate :
      DocumentBinding → ElementCandidate F → Option (ElementCandidate F) × Option DecisionCode
  resolve_candidate expected c = elim (same_binding expected c.binding) [
    | some stale ↦ (none, some stale)
    | none ↦
        if c.shadow_root == "closed"
        then (none, some shadow_root_closed)
        else if not c.semantic_available
        then (some c, some semantic_required)
        else if not c.attached
        then (none, some stale_handle)
        else if not c.visible || c.inert
        then (none, some target_hidden)
        else if not c.enabled
        then (none, some target_disabled)
        else if not c.stable
        then (none, some target_unstable)
        else if c.obscured
        then (none, some target_obscured)
        else (some c, none)
  ]

  unfoldable pub resolve_matches :
      DocumentBinding
      → List (ElementCandidate F)
      → Option (ElementCandidate F) × Option DecisionCode
  resolve_matches expected [] = (none, some target_not_found)
  resolve_matches expected (c ∷ []) = resolve_candidate expected c
  resolve_matches expected (c ∷ d ∷ cs) = (none, some target_ambiguous)

  -- `resolve_semantic`
  unfoldable pub resolve_semantic :
      Locator
      → DocumentBinding
      → SemanticObservation F
      → Option (ElementCandidate F) × Option DecisionCode
  resolve_semantic target expected o = elim (same_binding expected o.binding) [
    | some stale ↦ (none, some stale)
    | none ↦ resolve_matches expected (select (matches target) o.candidates)
  ]

  -- The last five tests of `validate_geometry`.
  unfoldable pub candidate_code : ElementCandidate F → GeometryObservation F → Option DecisionCode
  candidate_code c g =
      if c.obscured || optional_ne g.hit_contract_id c.contract_id
      then some target_obscured
      else if not c.attached
      then some stale_handle
      else if not c.visible || c.inert
      then some target_hidden
      else if not c.enabled
      then some target_disabled
      else if not c.stable
      then some target_unstable
      else none

module _ {F : Type 0} (ops : FloatOps F) where
  open ops use {float_eq}

  -- The comparison of generations and ratios.
  unfoldable pub geometry_differs : GeometryObservation F → RelativeTargetContract F → Bool
  geometry_differs g t =
      not (g.viewport_generation == t.viewport_generation)
      || not (g.layout_generation == t.layout_generation)
      || not (g.transform_generation == t.transform_generation)
      || not (float_eq g.x_ratio t.x_ratio)
      || not (float_eq g.y_ratio t.y_ratio)
      || not (float_eq g.width_ratio t.width_ratio)
      || not (float_eq g.height_ratio t.height_ratio)

  -- `validate_geometry`
  unfoldable pub validate_geometry :
      ElementCandidate F → RelativeTargetContract F → Option DecisionCode
  validate_geometry c t =
      if c.semantic_available then some geometry_not_allowed else elim c.geometry [
        | none ↦ some geometry_untrained
        | some g ↦
            if absent_or_other g.trained_regime_id t.trained_regime_id
            then some geometry_untrained
            else if geometry_differs g t
            then some geometry_drift
            else candidate_code c g
      ]

-- `validate_citrix`
unfoldable pub validate_citrix : CitrixObservation → RemoteTargetContract → Option DecisionCode
validate_citrix o t =
    if not (o.local_window_id == t.local_window_id)
      || not (o.remote_session_epoch == t.remote_session_epoch)
      || not (o.control_epoch == t.control_epoch)
    then some remote_session_changed
    else if o.frozen || ltb_ℤ o.frame_sequence o.current_frame_sequence
    then some remote_frame_stale
    else if not o.focus_confirmed
    then some precondition_failed
    else if absent_or_other o.trained_region_id t.trained_region_id
    then some geometry_untrained
    else if not (o.geometry_generation == o.expected_geometry_generation)
        || not (o.geometry_generation == t.geometry_generation)
    then some geometry_drift
    else none
