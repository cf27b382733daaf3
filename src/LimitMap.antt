-- ===== src/LimitMap.antt =====
-- limitmap/limitmap.go: counters by key with a limit. Each method holds the lock for its whole body,
-- so calls from any number of goroutines run one after another, in some order.
pub mod Bounds
mod Tests
use goblocks.Prelude.Eq.{Eq, nat_eq, int_eq, string_eq}
use goblocks.Prelude.Int.{ℤ, pos, ◌+ℤ◌, ◌-ℤ◌, ltb_ℤ, int_beq}
use goblocks.Prelude.Map
use goblocks.Prelude.Map.{Map, get, put, delete}
use goblocks.Prelude.{Bool, true, false, Option, none, some, List, [], ◌∷◌, if◌then◌else◌}

abbrev pub LimitMap {ℓ} : Type ℓ → Type ℓ
LimitMap K = Map K ℤ

-- A missing key reads as the zero value.
abbrev pub or_zero : Option ℤ → ℤ
or_zero none = pos 0
or_zero (some n) = n

-- the `if n > 0 { n-- }` of Dec
abbrev pub lowered : ℤ → ℤ
lowered n = if ltb_ℤ (pos 0) n then n -ℤ pos 1 else n

pub data Call {ℓ} (K : Type ℓ) : Type ℓ where
  increments : K → ℤ → Call K
  decrements : K → Call K

module _ {ℓ} {K : Type ℓ} ⦃e : Eq K⦄ where
  -- Value
  pub value : LimitMap K → K → ℤ
  value s key = or_zero (get s key)

  -- Inc
  pub inc : LimitMap K → K → ℤ → LimitMap K × Bool
  inc s key limit =
      let n = or_zero (get s key) +ℤ pos 1 in
      if ltb_ℤ limit n then (s, false) else (put s key n, true)

  -- Dec
  pub dec : LimitMap K → K → LimitMap K × ℤ
  dec s key =
      let n = lowered (or_zero (get s key)) in
      if int_beq n (pos 0) then (delete s key, n) else (put s key n, n)

  pub step : LimitMap K → Call K → LimitMap K
  step s (increments key limit) = (inc s key limit).0
  step s (decrements key) = (dec s key).0

  pub run : LimitMap K → List (Call K) → LimitMap K
  run s [] = s
  run s (c ∷ cs) = run (step s c) cs
