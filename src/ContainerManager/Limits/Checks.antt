-- ===== src/ContainerManager/Limits/Checks.antt =====
-- When checkLimits of containermanager/containers.go reports a limit, and what is reported as consumed.
use goblocks.Prelude.Int.{ℤ, pos, ◌≤ℤ◌}
use goblocks.Prelude.{ℕ, ◌-◌, ◌*◌, ◌/◌, ◌^◌, ◌≤◌, ◌<◌, ◌≡◌, ◌↔◌, none, some, arith}
use goblocks.ContainerManager.Limits.{
  sub64, seconds, RuntimeLimits, StatsResponse, net_bytes, exceeded, check_limits, consumed,
}

-- Counters of 64 bits that have not fallen since the start.
pub record Grown (start_cpu start_net : ℕ) (s : StatsResponse) : Type 0 where
  pub cpu : start_cpu ≤ s.total_usage
  pub cpu_fits : s.total_usage < 2 ^ 64
  pub net : start_net ≤ net_bytes s

pub sub64_of_le : (a b : ℕ) → b ≤ a → a < 2 ^ 64 → sub64 a b ≡ a - b
sub64_of_le a b h k = omega arith

pub net_bytes-fits : (s : StatsResponse) → net_bytes s < 2 ^ 64
unfolding net_bytes
net_bytes-fits s = omega arith

pub seconds_lem : (n : ℕ) → n * 1_000_000_000 < 2 ^ 63 → seconds n ≡ pos (n * 1_000_000_000)
seconds_lem n h = ground arith

-- With counters that have grown since the start and a run time that fits a duration, checkLimits
-- reports no error exactly when the CPU time used, in whole milliseconds, the traffic, in whole
-- mebibytes, and the elapsed time are each at most the limit.
pub check_limits_lem :
    (s : StatsResponse) (elapsed : ℤ) (start_cpu start_net : ℕ) (limits : RuntimeLimits)
    → Grown start_cpu start_net s
    → limits.run_time * 1_000_000_000 < 2 ^ 63
    → ((check_limits (some s) elapsed start_cpu start_net limits).2 ≡ none) ↔ (
        ((s.total_usage - start_cpu) / 1_000_000 ≤ limits.cpu_time)
        × ((net_bytes s - start_net) / 1024 / 1024 ≤ limits.net)
        × (elapsed ≤ℤ pos (limits.run_time * 1_000_000_000)))
unfolding check_limits exceeded
check_limits_lem s elapsed start_cpu start_net limits g fits =
    rw
      (
        sub64_of_le s.total_usage start_cpu g.cpu g.cpu_fits,
        sub64_of_le (net_bytes s) start_net g.net (net_bytes-fits s),
        seconds_lem limits.run_time fits,
      )
      (ground arith)

-- If the last stats request fails, CPU time and traffic are reported as the start values
-- subtracted from 2^64.
pub consumed_wraps :
    (elapsed : ℤ) (start_cpu start_net : ℕ) (limits : RuntimeLimits)
    → 0 < start_cpu
    → start_cpu < 2 ^ 64
    → 0 < start_net
    → start_net < 2 ^ 64
    → let r = check_limits none elapsed start_cpu start_net limits in
      consumed r.0 r.1 start_cpu start_net
      ≡ record { cpu_time = (2 ^ 64 - start_cpu) / 1_000_000; net = 2 ^ 64 - start_net }
unfolding check_limits consumed
consumed_wraps elapsed start_cpu start_net limits h k i j = ground arith
