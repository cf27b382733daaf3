-- ===== src/ContainerManager/Limits.antt =====
-- containermanager/containers.go: the resource limits. Counters are uint64, with their wrap-around;
-- `none` for a stats response stands for an error of the client or of the decoder.
pub mod Checks
mod Tests
use goblocks.Prelude.Eq.{nat_eq, int_eq, string_eq}
use goblocks.Prelude.Int.{ℤ, pos, negsuc, ltb_ℤ}
use goblocks.Prelude.Map
use goblocks.Prelude.Map.{Map, get}
use goblocks.Prelude.{
  ℕ, ◌+◌, ◌-◌, ◌*◌, ◌/◌, ◌%◌, ◌^◌, String, Option, none, some, ltb, if◌then◌else◌,
}

abbrev pub u64 : ℕ
u64 = 2 ^ 64

-- a - b and a + b on uint64
abbrev pub sub64 : ℕ → ℕ → ℕ
sub64 a b = (a + u64 - b) % u64

abbrev pub add64 : ℕ → ℕ → ℕ
add64 a b = (a + b) % u64

-- the conversion of an integer of 64 bits to int64
abbrev pub to_int64 : ℕ → ℤ
to_int64 n = if ltb (n % u64) (2 ^ 63) then pos (n % u64) else negsuc (u64 - 1 - n % u64)

-- time.Duration(n) * time.Second
abbrev pub seconds : ℕ → ℤ
seconds n = to_int64 (n * 1_000_000_000)

pub record RuntimeLimits : Type 0 where
  pub cpu_time : ℕ
  pub net : ℕ
  pub run_time : ℕ
  pub tmp_dir : ℕ

pub record ConsumedResources : Type 0 where
  pub cpu_time : ℕ
  pub net : ℕ

pub record NetworkStats : Type 0 where
  pub rx_bytes : ℕ
  pub tx_bytes : ℕ

pub record StatsResponse : Type 0 where
  pub total_usage : ℕ
  pub networks : Map String NetworkStats

pub data LimitError : Type 0 where
  limit_cpu limit_net limit_time : LimitError

-- Networks["eth0"]; a missing key reads as the zero value
abbrev pub eth0 : Option NetworkStats → NetworkStats
eth0 none = record { rx_bytes = 0; tx_bytes = 0 }
eth0 (some n) = n

unfoldable pub net_bytes : StatsResponse → ℕ
net_bytes s = add64 (eth0 (get s.networks "eth0")).rx_bytes (eth0 (get s.networks "eth0")).tx_bytes

-- getCurrentStats
unfoldable pub get_current_stats : Option StatsResponse → Option (ℕ × ℕ)
get_current_stats none = none
get_current_stats (some s) = some (s.total_usage, net_bytes s)

-- the three tests of checkLimits, on what was measured
unfoldable pub exceeded : ℕ → ℕ → ℤ → ℕ → ℕ → RuntimeLimits → Option LimitError
exceeded current_cpu current_net elapsed start_cpu start_net limits =
    if ltb limits.cpu_time (sub64 current_cpu start_cpu / 1_000_000)
    then some limit_cpu
    else if ltb limits.net (sub64 current_net start_net / 1024 / 1024)
    then some limit_net
    else if ltb_ℤ (seconds limits.run_time) elapsed
    then some limit_time
    else none

-- checkLimits; `elapsed` is time.Since(startTime) in ns
unfoldable pub check_limits :
    Option StatsResponse → ℤ → ℕ → ℕ → RuntimeLimits → ℕ × ℕ × Option LimitError
check_limits none elapsed start_cpu start_net limits = (0, 0, none)
check_limits (some s) elapsed start_cpu start_net limits = (
  s.total_usage,
  net_bytes s,
  exceeded s.total_usage (net_bytes s) elapsed start_cpu start_net limits,
)

-- ConsumedResources{CPUTime: (curCPU - startCPU) / million, Net: curNet - startNet}
unfoldable pub consumed : ℕ → ℕ → ℕ → ℕ → ConsumedResources
consumed cur_cpu cur_net start_cpu start_net = record {
  cpu_time = sub64 cur_cpu start_cpu / 1_000_000;
  net = sub64 cur_net start_net;
}
