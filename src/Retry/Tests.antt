-- ===== src/Retry/Tests.antt =====
-- The theorem on retry/retry.go at a concrete input.
use goblocks.Prelude.Int.{pos, ◌+ℤ◌, pos_part}
use goblocks.Prelude.{
  ℕ, ◌-◌, ◌*◌, ◌^◌, String, ◌≡◌, true, none, some, [], ◌∷◌, ltb, nat_beq, if◌then◌else◌,
}
use goblocks.Retry.{calc_sleep_time, Policy, Floats, Attempt, with_defaults, run}
use goblocks.Retry.Attempts.{run-settled}

-- whole numbers in the place of float64, doubling
abbrev doubling : Floats ℕ
doubling = record {
  is_zero = λ n. nat_beq n 0;
  two = 2;
  random_part = λ jitter attempt. pos 0;
  scaled = λ backoff multiplier attempt. pos (pos_part backoff * multiplier ^ (attempt - 1));
}

abbrev policy : Policy ℕ
policy = record {
  max_attempts = pos 4;
  backoff = pos 0;
  multiplier = 0;
  max_backoff = pos 0;
  jitter = pos 0;
  zero_jitter = true;
}

-- fails twice, then succeeds
abbrev third_time : ℕ → Attempt String
third_time n = record { err = if ltb n 3 then some "unavailable" else none; fatal = none }

run-settled_example :
    run doubling policy third_time
    ≡ some (record { error = none; attempts = 3; slept = pos 500000000 ∷ pos 1000000000 ∷ [] })
unfolding with_defaults calc_sleep_time ◌+ℤ◌
run-settled_example = run-settled doubling policy third_time
