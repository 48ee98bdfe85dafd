-- ===== src/Browser/Observation.antt =====
-- `GeometryObservation`, `ElementCandidate` and `SemanticObservation` of contracts.py, and
-- `CitrixObservation` of adapters/citrix_remote.py.
use project_firestarter.Prelude.{
  String, Bool, ◌||◌, not, List, [], ◌∷◌, Option, none, some, ℤ, pos, ltb_ℤ, min_ℤ, ltb, nat_eq,
  length, to_set, member, String-Eq, Result, ok, refuse_if, ◌>>◌,
}
use project_firestarter.Browser.Ids.{require_id, require_ids}
use project_firestarter.Browser.Json.{FloatOps}
use project_firestarter.Browser.Binding.{DocumentBinding}
use project_firestarter.Browser.Targets.{ratios_init}

pub record GeometryObservation (F : Type 0) : Type 0 where
  pub x_ratio : F
  pub y_ratio : F
  pub width_ratio : F
  pub height_ratio : F
  pub viewport_generation : ℤ
  pub layout_generation : ℤ
  pub transform_generation : ℤ
  pub trained_regime_id : Option String
  pub hit_contract_id : Option String

pub record ElementCandidate (F : Type 0) : Type 0 where
  pub node_id : String
  pub contract_id : String
  pub role : String
  pub accessible_name_token : String
  pub container_contract_id : String
  pub binding : DocumentBinding
  pub attached : Bool
  pub visible : Bool
  pub enabled : Bool
  pub inert : Bool
  pub stable : Bool
  pub obscured : Bool
  pub semantic_available : Bool
  pub shadow_root : String
  pub geometry : Option (GeometryObservation F)

pub record SemanticObservation (F : Type 0) : Type 0 where
  pub observation_id : String
  pub binding : DocumentBinding
  pub candidates : List (ElementCandidate F)
  pub focus_confirmed : Bool
  pub prompt_injection_signal_ids : List String

pub record CitrixObservation : Type 0 where
  pub observation_id : String
  pub local_window_id : String
  pub remote_session_epoch : String
  pub control_epoch : String
  pub trained_region_id : Option String
  pub frame_sequence : ℤ
  pub current_frame_sequence : ℤ
  pub geometry_generation : ℤ
  pub expected_geometry_generation : ℤ
  pub focus_confirmed : Bool
  pub frozen : Bool

-- `if value is not None: require_id(value, field)`
abbrev pub require_optional_id : Option String → String → Result (Unit {0})
require_optional_id none name = ok tt
require_optional_id (some value) name = require_id value name

module _ {F : Type 0} (ops : FloatOps F) where
  -- `GeometryObservation.__post_init__`
  unfoldable pub geometry_init : GeometryObservation F → Result (Unit {0})
  geometry_init g = do
    ratios_init ops g.x_ratio g.y_ratio g.width_ratio g.height_ratio
        "geometry ratios must be normalized" "geometry size must be positive"
        "horizontal geometry exceeds the normalized viewport"
        "vertical geometry exceeds the normalized viewport"
    refuse_if
        (ltb_ℤ (min_ℤ (min_ℤ g.viewport_generation g.layout_generation) g.transform_generation)
          (pos 0))
        "geometry generations must be non-negative"
    require_optional_id g.trained_regime_id "trained_regime_id"
    require_optional_id g.hit_contract_id "hit_contract_id"

module _ {F : Type 0} where
  -- `ElementCandidate.__post_init__`
  unfoldable pub candidate_init : ElementCandidate F → Result (Unit {0})
  candidate_init c = do
    require_id c.node_id "node_id"
    require_id c.contract_id "contract_id"
    require_id c.role "role"
    require_id c.accessible_name_token "accessible_name_token"
    require_id c.container_contract_id "container_contract_id"
    refuse_if (not (member c.shadow_root ("none" ∷ "open" ∷ "closed" ∷ [])))
        "shadow_root must be none, open, or closed"

  -- `SemanticObservation.__post_init__`
  unfoldable pub observation_init : SemanticObservation F → Result (Unit {0})
  observation_init o = do
    require_id o.observation_id "observation_id"
    refuse_if (ltb 500 (length o.candidates)) "candidate count exceeds policy bound"
    refuse_if
        (ltb 16 (length o.prompt_injection_signal_ids)
          || not (
              nat_eq (length (to_set o.prompt_injection_signal_ids))
                (length o.prompt_injection_signal_ids)))
        "prompt-injection signals must be unique and bounded"
    require_ids o.prompt_injection_signal_ids "prompt_injection_signal_id"

-- `CitrixObservation.__post_init__`
unfoldable pub citrix_init : CitrixObservation → Result (Unit {0})
citrix_init o = do
  require_id o.observation_id "observation_id"
  require_id o.local_window_id "local_window_id"
  require_id o.remote_session_epoch "remote_session_epoch"
  require_id o.control_epoch "control_epoch"
  require_optional_id o.trained_region_id "trained_region_id"
  refuse_if
      (ltb_ℤ
        (min_ℤ (min_ℤ (min_ℤ o.frame_sequence o.current_frame_sequence) o.geometry_generation)
          o.expected_geometry_generation)
        (pos 0))
      "remote sequence and geometry values must be non-negative"
