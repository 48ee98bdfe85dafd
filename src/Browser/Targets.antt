-- ===== src/Browser/Targets.antt =====
-- `TargetContract`, `RelativeTargetContract` and `RemoteTargetContract` of contracts.py.
use project_firestarter.Prelude.{
  String, Bool, ◌&&◌, ◌||◌, not, [], ◌∷◌, ℤ, pos, ltb_ℤ, min_ℤ, Result, refuse_if, ◌>>◌, any,
}
use project_firestarter.Browser.Ids.{require_id}
use project_firestarter.Browser.Json.{
  FloatOps, Json, str, int, float, obj, end, field, canonical_digest,
}

pub record TargetContract : Type 0 where
  pub contract_id : String
  pub role : String
  pub accessible_name_token : String
  pub container_contract_id : String

pub record RelativeTargetContract (F : Type 0) : Type 0 where
  pub contract_id : String
  pub role : String
  pub accessible_name_token : String
  pub container_contract_id : String
  pub trained_regime_id : String
  pub x_ratio : F
  pub y_ratio : F
  pub width_ratio : F
  pub height_ratio : F
  pub viewport_generation : ℤ
  pub layout_generation : ℤ
  pub transform_generation : ℤ

pub record RemoteTargetContract : Type 0 where
  pub region_contract_id : String
  pub local_window_id : String
  pub remote_session_epoch : String
  pub control_epoch : String
  pub trained_region_id : String
  pub geometry_generation : ℤ

-- The union that a proposal's `target` ranges over; `isinstance` is the constructor.
pub data Target (F : Type 0) : Type 0 where
  semantic : TargetContract → Target F
  relative : RelativeTargetContract F → Target F
  remote : RemoteTargetContract → Target F

-- `TargetContract.__post_init__`
unfoldable pub semantic_init : TargetContract → Result (Unit {0})
semantic_init t = do
  require_id t.contract_id "contract_id"
  require_id t.role "role"
  require_id t.accessible_name_token "accessible_name_token"
  require_id t.container_contract_id "container_contract_id"

-- The four checks on ratios that `RelativeTargetContract` and `GeometryObservation` share.
module _ {F : Type 0} (ops : FloatOps F) where
  open ops use {float_le, float_add, float_zero, float_one}

  abbrev pub outside_unit : F → Bool
  outside_unit v = not (float_le float_zero v && float_le v float_one)

  abbrev pub ratios_init : F → F → F → F → String → String → String → String → Result (Unit {0})
  ratios_init x y w h unnormalized empty wide tall = do
    refuse_if (any outside_unit (x ∷ y ∷ w ∷ h ∷ [])) unnormalized
    refuse_if (float_le w float_zero || float_le h float_zero) empty
    refuse_if (not (float_le (float_add x w) float_one)) wide
    refuse_if (not (float_le (float_add y h) float_one)) tall

  -- `RelativeTargetContract.__post_init__`
  unfoldable pub relative_init : RelativeTargetContract F → Result (Unit {0})
  relative_init t = do
    require_id t.contract_id "contract_id"
    require_id t.role "role"
    require_id t.accessible_name_token "accessible_name_token"
    require_id t.container_contract_id "container_contract_id"
    require_id t.trained_regime_id "trained_regime_id"
    ratios_init t.x_ratio t.y_ratio t.width_ratio t.height_ratio
        "relative target ratios must be normalized" "relative target size must be positive"
        "relative target exceeds the horizontal viewport"
        "relative target exceeds the vertical viewport"
    refuse_if
        (ltb_ℤ (min_ℤ (min_ℤ t.viewport_generation t.layout_generation) t.transform_generation)
          (pos 0))
        "relative target generations must be non-negative"

-- `RemoteTargetContract.__post_init__`
unfoldable pub remote_init : RemoteTargetContract → Result (Unit {0})
remote_init t = do
  require_id t.region_contract_id "region_contract_id"
  require_id t.local_window_id "local_window_id"
  require_id t.remote_session_epoch "remote_session_epoch"
  require_id t.control_epoch "control_epoch"
  require_id t.trained_region_id "trained_region_id"
  refuse_if (ltb_ℤ t.geometry_generation (pos 0)) "remote geometry generation must be non-negative"

module _ {F : Type 0} where
  -- The property `kind` of each contract.
  unfoldable pub kind : Target F → String
  kind (semantic t) = "semantic"
  kind (relative t) = "relative-region"
  kind (remote t) = "remote-region"

  unfoldable pub target_contract_id : Target F → String
  target_contract_id (semantic t) = t.contract_id
  target_contract_id (relative t) = t.contract_id
  target_contract_id (remote t) = t.region_contract_id

  -- `TargetContract.to_contract_dict`
  abbrev pub semantic_dict : TargetContract → Json F
  semantic_dict t = obj (
      field "kind" (str "semantic") (
        field "contractId" (str t.contract_id) (
          field "role" (str t.role) (
            field "accessibleNameToken" (str t.accessible_name_token)
              (field "containerContractId" (str t.container_contract_id) end)))))

  -- `RelativeTargetContract.to_contract_dict`
  abbrev pub relative_dict : RelativeTargetContract F → Json F
  relative_dict t = obj (
      field "kind" (str "relative-region") (
        field "contractId" (str t.contract_id) (
          field "role" (str t.role) (
            field "accessibleNameToken" (str t.accessible_name_token) (
              field "containerContractId" (str t.container_contract_id) (
                field "trainedRegimeId" (str t.trained_regime_id) (
                  field "xRatio" (float t.x_ratio) (
                    field "yRatio" (float t.y_ratio) (
                      field "widthRatio" (float t.width_ratio) (
                        field "heightRatio" (float t.height_ratio) (
                          field "viewportGeneration" (int t.viewport_generation) (
                            field "layoutGeneration" (int t.layout_generation) (
                              field "transformGeneration" (int t.transform_generation)
                                end)))))))))))))

  -- `RemoteTargetContract.to_contract_dict`
  abbrev pub remote_dict : RemoteTargetContract → Json F
  remote_dict t = obj (
      field "kind" (str "remote-region") (
        field "regionContractId" (str t.region_contract_id) (
          field "localWindowId" (str t.local_window_id) (
            field "remoteSessionEpoch" (str t.remote_session_epoch) (
              field "controlEpoch" (str t.control_epoch) (
                field "trainedRegionId" (str t.trained_region_id)
                  (field "geometryGeneration" (int t.geometry_generation) end)))))))

  -- `self.target.to_contract_dict()`
  unfoldable pub target_dict : Target F → Json F
  target_dict (semantic t) = semantic_dict t
  target_dict (relative t) = relative_dict t
  target_dict (remote t) = remote_dict t

  -- The property `contract_digest`.
  unfoldable pub contract_digest : (Json F → String) → Target F → String
  unfolding target_dict canonical_digest
  contract_digest sha256_hex t = canonical_digest sha256_hex (target_dict t)
