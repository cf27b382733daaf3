-- ===== src/Retry.antt =====
-- retry/retry.go: a policy, the loop that calls a function until it succeeds, and its pauses. Durations
-- are whole numbers of nanoseconds. Floating-point numbers, and the random jitter, are a parameter,
-- with the operations that the code uses.
pub mod Attempts
mod Tests
use goblocks.Prelude.Eq.{◌==◌, nat_eq, int_eq, string_eq}
use goblocks.Prelude.Int.{ℤ, pos, negsuc, ◌+ℤ◌, ltb_ℤ}
use goblocks.Prelude.Map
use goblocks.Prelude.Map.{Map}
use goblocks.Prelude.{
  ℕ, zero, suc, Bool, true, not, ◌&&◌, Option, none, some, List, [], ◌∷◌, ◌++◌, if◌then◌else◌,
}

-- `F` is the type of the multiplier, float64 in the code.
pub record Policy (F : Type 0) : Type 0 where
  pub max_attempts : ℤ
  pub backoff : ℤ
  pub multiplier : F
  pub max_backoff : ℤ
  pub jitter : ℤ
  pub zero_jitter : Bool

-- float64 as the code uses it: the test for 0, the constant 2, and the two computed durations
pub record Floats (F : Type 0) : Type 0 where
  pub is_zero : F → Bool
  pub two : F
  -- time.Duration(rand.Float64() * float64(jitter)), with the attempt as the source of chance
  pub random_part : ℤ → ℕ → ℤ
  -- time.Duration(float64(backoff) * math.Pow(multiplier, float64(attempt-1)))
  pub scaled : ℤ → F → ℕ → ℤ

pub no_jitter : {F : Type 0} → Policy F → Policy F
no_jitter p = record p { zero_jitter = true }

-- What the function under retry returns: (err error, fatal error)
pub record Attempt (E : Type 0) : Type 0 where
  pub err : Option E
  pub fatal : Option E

-- What a run leaves: the error it returns, the calls made and the pauses slept.
pub record Outcome (E : Type 0) : Type 0 where
  pub error : Option E
  pub attempts : ℕ
  pub slept : List ℤ

abbrev pub or_default : ℤ → ℤ → ℤ
or_default value default = if value == pos 0 then default else value

-- the assignments at the head of Run
pub with_defaults : {F : Type 0} → Floats F → Policy F → Policy F
with_defaults fl p = record p {
  max_attempts = or_default p.max_attempts (pos 5);
  backoff = or_default p.backoff (pos 500000000);
  multiplier = if fl.is_zero p.multiplier then fl.two else p.multiplier;
  max_backoff = or_default p.max_backoff (pos 5000000000);
  jitter = if p.jitter == pos 0 && not p.zero_jitter then pos 200000000 else p.jitter;
}

-- min of two durations
abbrev pub min_ℤ : ℤ → ℤ → ℤ
min_ℤ a b = if ltb_ℤ b a then b else a

pub calc_sleep_time : {F : Type 0} → Floats F → Policy F → ℕ → ℤ
calc_sleep_time fl p attempt =
    let jitter = fl.random_part p.jitter attempt in
    let sleep_time = fl.scaled p.backoff p.multiplier attempt +ℤ jitter in
    min_ℤ sleep_time p.max_backoff

-- One turn of the loop after the call: it returns, or goes on with the rest of the run.
abbrev pub conclude :
    {E : Type 0} → Attempt E → Bool → ℕ → List ℤ → Option (Outcome E) → Option (Outcome E)
conclude a more attempt slept rest = elim a.fatal [
  | some e ↦ some (record { error = some e; attempts = attempt; slept = slept })
  | none ↦ elim a.err [
    | none ↦ some (record { error = none; attempts = attempt; slept = slept })
    | some e ↦
        if more then rest else some (record { error = some e; attempts = attempt; slept = slept })
  ]
]

-- The loop of Run, after `attempt` calls. `fuel` bounds the calls that are left.
pub run_loop :
    {F E : Type 0} → Floats F → Policy F → (ℕ → Attempt E) → ℕ → ℕ → List ℤ → Option (Outcome E)
run_loop fl p fn zero attempt slept = none
run_loop fl p fn (suc fuel) attempt slept =
    let attempt' = suc attempt in
    let rest = run_loop fl p fn fuel attempt' (slept ++ calc_sleep_time fl p attempt' ∷ []) in
    conclude (fn attempt') (ltb_ℤ (pos attempt') p.max_attempts) attempt' slept rest

-- Run, with one round of fuel more than the attempts allowed
abbrev pub enough : ℤ → ℕ
enough (pos n) = suc n
enough (negsuc n) = 1

pub run : {F E : Type 0} → Floats F → Policy F → (ℕ → Attempt E) → Option (Outcome E)
unfolding with_defaults run_loop
run fl p fn = let q = with_defaults fl p in run_loop fl q fn (enough q.max_attempts) 0 []
