-- ===== src/Capacity/Adaptive.antt =====
-- `adaptive_capacity_policy.py`: the advisory capacity for one snapshot of metrics.
pub mod Bounds
pub mod Requests
pub mod Closed
use project_firestarter.Prelude.{
  ℕ, zero, suc, ◌+◌, ◌-◌, ◌/◌, ℤ, pos, negsuc, pos_part, leb_ℤ, ltb_ℤ, ◌-ℤ◌, String, String-Eq,
  ◌==◌, Bool, true, false, not, ◌&&◌, ◌||◌, List, [], ◌∷◌, Option, none, some, length, leb, ltb,
  nat_eq, all, member, subset, Result, ok, err, Error, value_error, type_error, overflow_error,
  refuse_if, ◌>>=◌, ◌>>◌, if◌then◌else◌,
}
use Prim.Native.String.{◌++◌ as append}
use project_firestarter.Browser.Json.{
  Json, null, boolean, int, float, str, arr, obj, Fields, end, field,
}
use project_firestarter.Browser.Ids.{codes, is_alnum, is_id_char}
use project_firestarter.Supervisor.Parse.{get, names, decimal}
use project_firestarter.Capacity.Scheduler.{in_set}

-- The floats: `float(n)` of an int, which overflows (`none`), `math.isfinite`, `x < 0`, and
-- `load / cpus >= 1.0`. The dates: the microseconds of a text that the pattern allows, if it is a date.
pub record Host (F : Type 0) : Type 0 where
  pub of_int : ℤ → Option F
  pub is_finite : F → Bool
  pub is_negative : F → Bool
  pub saturated : F → ℕ → Bool
  pub microseconds : String → Option ℤ

pub record Metrics (F : Type 0) : Type 0 where
  pub logical_cpus : ℕ
  pub load_1m : F
  pub memory_pressure_pct : ℕ
  pub swap_used_mb : ℕ
  pub age_seconds : ℕ

pub record Capacity : Type 0 where
  pub visible_cap : ℕ
  pub internal_sublane_cap : ℕ
  pub heavy_local_cap : ℕ
  pub minimum_shipping_slots : ℕ
  pub conservative : Bool
  pub reason : String

abbrev pub min_ℕ : ℕ → ℕ → ℕ
min_ℕ a b = if leb a b then a else b

abbrev pub max_visible_cap : ℕ
max_visible_cap = 4

unfoldable pub compute_capacity : {F : Type 0} → Host F → Metrics F → ℕ → Capacity
compute_capacity host m limit =
    let stale = ltb 60 m.age_seconds in
    let memory_risk = leb 80 m.memory_pressure_pct || ltb 0 m.swap_used_mb in
    let high_load = host.saturated m.load_1m m.logical_cpus in
    let cap = min_ℕ limit max_visible_cap in
    let low : String → Capacity = λ reason. record {
      visible_cap = min_ℕ 2 cap;
      internal_sublane_cap = 1;
      heavy_local_cap = 0;
      minimum_shipping_slots = min_ℕ 1 cap;
      conservative = true;
      reason = reason;
    } in
    let serial : Capacity = record {
      visible_cap = cap;
      internal_sublane_cap = 1;
      heavy_local_cap = 1;
      minimum_shipping_slots = min_ℕ 2 cap;
      conservative = true;
      reason = "high load; serialize heavy work";
    } in
    let healthy : Capacity = record {
      visible_cap = cap;
      internal_sublane_cap = 2;
      heavy_local_cap = 1;
      minimum_shipping_slots = min_ℕ 2 cap;
      conservative = false;
      reason = "healthy local headroom";
    } in
    if stale
    then low "stale metrics"
    else if memory_risk
    then low "memory or swap pressure"
    else if high_load
    then serial
    else healthy
