-- ===== src/Capacity/Adaptive/Bounds.antt =====
-- The capacity of two snapshots, of which one shows more pressure.
use project_firestarter.Prelude.{ℕ, ◌≤◌, ◌≡◌, true, arith}
use project_firestarter.Capacity.Adaptive.{
  Host, Metrics, Capacity, compute_capacity, max_visible_cap,
}

-- No metric is better, and the load saturates the processors if it did.
pub record Worse {F : Type 0} (host : Host F) (m m' : Metrics F) : Type 0 where
  pub age : m.age_seconds ≤ m'.age_seconds
  pub pressure : m.memory_pressure_pct ≤ m'.memory_pressure_pct
  pub swap : m.swap_used_mb ≤ m'.swap_used_mb
  pub saturated :
      host.saturated m.load_1m m.logical_cpus ≡ true
      → host.saturated m'.load_1m m'.logical_cpus ≡ true

-- The second capacity is within the first in all four numbers.
pub record Within (c c' : Capacity) : Type 0 where
  pub visible : c'.visible_cap ≤ c.visible_cap
  pub sublanes : c'.internal_sublane_cap ≤ c.internal_sublane_cap
  pub heavy : c'.heavy_local_cap ≤ c.heavy_local_cap
  pub shipping : c'.minimum_shipping_slots ≤ c.minimum_shipping_slots

-- Under more pressure and a limit that is not higher, no number of the capacity is higher; the visible
-- capacity is within the limit and within 4, and the shipping slots are within the visible capacity.
pub compute_capacity-Within :
    {F : Type 0} (host : Host F) (m m' : Metrics F) (limit limit' : ℕ)
    → Worse host m m'
    → limit' ≤ limit
    → Within (compute_capacity host m limit) (compute_capacity host m' limit')
      × ((compute_capacity host m limit).visible_cap ≤ limit)
      × ((compute_capacity host m limit).visible_cap ≤ max_visible_cap)
      × ((compute_capacity host m limit).minimum_shipping_slots
          ≤ (compute_capacity host m limit).visible_cap)
unfolding compute_capacity
compute_capacity-Within host m m' limit limit' w h = (
  record {
    visible = ground (arith, w.age, w.pressure, w.swap, w.saturated, h);
    sublanes = ground (arith, w.age, w.pressure, w.swap, w.saturated, h);
    heavy = ground (arith, w.age, w.pressure, w.swap, w.saturated, h);
    shipping = ground (arith, w.age, w.pressure, w.swap, w.saturated, h);
  },
  ground arith,
  ground arith,
  ground arith,
)
