-- ===== src/Browser/Adapters/Remote.antt =====
-- What `validate_citrix` accepts, stated without its tests.
use project_firestarter.Prelude.{
  String, ◌≡◌, ◌↔◌, refl, arith, true, false, Option, none, some, ◌≤ℤ◌, ltb_ℤ_false,
  ltb_ℤ-false_of_le, String-Eq, ℤ_Eq, int_eq_iff,
}
use project_firestarter.Browser.Targets.{RemoteTargetContract}
use project_firestarter.Browser.Observation.{CitrixObservation}
use project_firestarter.Browser.Adapters.{absent_or_other, validate_citrix}

-- The value is there and is the wanted one.
pub present_iff : (v : Option String) (w : String) → (absent_or_other v w ≡ false) ↔ (v ≡ some w)
present_iff none w = (λ h. cc, λ h. cc)
present_iff (some v) w =
    (λ h. ground (arith, String-Eq.agrees v w), λ h. ground (arith, String-Eq.agrees v w))

-- The remote surface is the one that the target names: same window, session and control epoch,
-- a live and latest frame with focus, on the trained region and the expected geometry.
pub record RemoteCurrent (o : CitrixObservation) (t : RemoteTargetContract) : Type 0 where
  pub window : o.local_window_id ≡ t.local_window_id
  pub session : o.remote_session_epoch ≡ t.remote_session_epoch
  pub control : o.control_epoch ≡ t.control_epoch
  pub not_frozen : o.frozen ≡ false
  pub latest_frame : o.current_frame_sequence ≤ℤ o.frame_sequence
  pub focused : o.focus_confirmed ≡ true
  pub region : o.trained_region_id ≡ some t.trained_region_id
  pub expected_geometry : o.geometry_generation ≡ o.expected_geometry_generation
  pub target_geometry : o.geometry_generation ≡ t.geometry_generation

-- The Citrix check passes exactly on an observation that is current for the target.
pub validate_citrix_iff :
    (o : CitrixObservation) (t : RemoteTargetContract)
    → (validate_citrix o t ≡ none) ↔ RemoteCurrent o t
unfolding validate_citrix
validate_citrix_iff o t = (
  λ h. ground (
    arith,
    String-Eq.agrees o.local_window_id t.local_window_id,
    String-Eq.agrees o.remote_session_epoch t.remote_session_epoch,
    String-Eq.agrees o.control_epoch t.control_epoch,
    present_iff o.trained_region_id t.trained_region_id,
    ltb_ℤ_false o.frame_sequence o.current_frame_sequence,
    int_eq_iff o.geometry_generation o.expected_geometry_generation,
    int_eq_iff o.geometry_generation t.geometry_generation,
  ),
  λ h.
      rw
        (
          (String-Eq.agrees o.local_window_id t.local_window_id).1 h.window,
          (String-Eq.agrees o.remote_session_epoch t.remote_session_epoch).1 h.session,
          (String-Eq.agrees o.control_epoch t.control_epoch).1 h.control,
          h.not_frozen,
          ltb_ℤ-false_of_le o.frame_sequence o.current_frame_sequence h.latest_frame,
          h.focused,
          (present_iff o.trained_region_id t.trained_region_id).1 h.region,
          (int_eq_iff o.geometry_generation o.expected_geometry_generation).1 h.expected_geometry,
          (int_eq_iff o.geometry_generation t.geometry_generation).1 h.target_geometry,
        )
        refl,
)
