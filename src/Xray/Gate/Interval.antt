-- ===== src/Xray/Gate/Interval.antt =====
-- How often a gate looks whether it is idle.
use nunya_core.Common.{ℕ, ◌*◌, ◌≡◌, ◌≤◌, arith}
use nunya_core.Xray.Gate.{
  Duration, before, after, second, gate_sweep_interval, min_gate_sweep_interval, sweep_interval_for,
}

-- For every idle time the sweeper looks every 2 to 15 seconds; for one of 4 seconds or more it looks
-- at least twice within that time.
pub sweep_interval_bounds :
    (d : Duration) (idle : ℕ)
    → (min_gate_sweep_interval ≤ sweep_interval_for d)
      × (sweep_interval_for d ≤ gate_sweep_interval)
      × (d ≡ after idle → 4 * second ≤ idle → 2 * sweep_interval_for d ≤ idle)
unfolding sweep_interval_for
sweep_interval_bounds (before n) idle = ground arith
sweep_interval_bounds (after n) idle = ground arith
