-- ===== src/Retry/Attempts.antt =====
-- What Run of retry/retry.go returns and how often it calls the function.
use goblocks.Prelude.Int.{ℤ, pos, negsuc, ◌+ℤ◌, ltb_ℤ}
use goblocks.Prelude.Eq.{◌==◌, int_eq}
use goblocks.Prelude.{
  ℕ, zero, suc, ◌+◌, ◌-◌, ◌<◌, ◌≡◌, refl, sym, inl, inr, Bool, true, false, not, ◌||◌, ◌&&◌, ◌∙◌,
  Option, none, some, List, [], ◌∷◌, ◌++◌, append-nil, append_assoc, arith, if◌then◌else◌,
  Bool-cases, Option-cases,
}
use goblocks.Retry.{
  or_default, min_ℤ, conclude, Policy, Floats, Attempt, Outcome, with_defaults, calc_sleep_time,
  run_loop, enough, run,
}

-- An attempt that ends the run whatever the policy is: fatal, or without an error.
abbrev pub settles : {E : Type 0} → Attempt E → Bool
settles a = elim a.fatal [ some e ↦ true | none ↦ elim a.err [ none ↦ true | some e ↦ false ] ]

-- What the last attempt makes Run return: the fatal error first.
abbrev pub result : {E : Type 0} → Attempt E → Option E
result a = elim a.fatal [ some e ↦ some e | none ↦ a.err ]

-- The attempts a policy with the maximum `m` allows: one at least.
abbrev pub allowed : ℤ → ℕ
allowed (pos zero) = 1
allowed (pos (suc n)) = suc n
allowed (negsuc n) = 1

-- How many attempts follow attempt `i` when `k` more are allowed: until one settles the run.
abbrev pub further : (ℕ → Bool) → ℕ → ℕ → ℕ
further ends zero i = 0
further ends (suc k) i = if ends i then 0 else suc (further ends k (suc i))

abbrev pub positive : ℕ → Bool
positive zero = false
positive (suc n) = true

more_allowed : (a k : ℕ) (m : ℤ) → suc a + k ≡ allowed m → ltb_ℤ (pos (suc a)) m ≡ positive k
more_allowed a zero (pos zero) h = ground arith
more_allowed a (suc k) (pos zero) h = ground arith
more_allowed a zero (pos (suc n)) h = ground arith
more_allowed a (suc k) (pos (suc n)) h = ground arith
more_allowed a zero (negsuc n) h = ground arith
more_allowed a (suc k) (negsuc n) h = ground arith

allowed-enough : (m : ℤ) → (1 + (allowed m - 1) ≡ allowed m) × (allowed m - 1 < enough m)
allowed-enough (pos zero) = ground arith
allowed-enough (pos (suc n)) = ground arith
allowed-enough (negsuc n) = ground arith

conclude_lem :
    {E : Type 0} (a : Attempt E) (more : Bool) (attempt : ℕ) (slept : List ℤ)
    (rest : Option (Outcome E))
    → conclude a more attempt slept rest ≡ (
        if settles a || not more
        then some (record { error = result a; attempts = attempt; slept = slept })
        else rest)
conclude_lem a more attempt slept rest = elim (Option-cases a.fatal) [
  | inr (x, h) ↦ rw (h) refl
  | inl h ↦ rw (h) (elim (Option-cases a.err) [
    | inl e ↦ rw (e) refl
    | inr (x, e) ↦ rw (e) (elim (Bool-cases more) [ inl q ↦ rw (q) refl | inr q ↦ rw (q) refl ])
  ])
]

-- The attempts that Run allows for the maximum of a policy: 5 for 0, one for a negative one.
abbrev pub attempts_of : ℤ → ℕ
attempts_of (pos zero) = 5
attempts_of (pos (suc n)) = suc n
attempts_of (negsuc n) = 1

-- A duration of a policy, or the default for 0.
abbrev pub duration_of : ℤ → ℤ → ℤ
duration_of (pos zero) default = default
duration_of (pos (suc n)) default = pos (suc n)
duration_of (negsuc n) default = negsuc n

-- The jitter of a policy: 200 ms for 0, unless NoJitter was called.
abbrev pub jitter_of : Bool → ℤ → ℤ
jitter_of true jitter = jitter
jitter_of false jitter = duration_of jitter (pos 200_000_000)

-- The pause after attempt `i`: 500 ms scaled by a power of 2 when the policy names no other backoff or
-- multiplier, and the jitter, but no more than 5 s or what the policy names.
abbrev pub pause_of : {F : Type 0} → Floats F → Policy F → ℕ → ℤ
pause_of fl p i =
    let factor = if fl.is_zero p.multiplier then fl.two else p.multiplier in
    let scaled = fl.scaled (duration_of p.backoff (pos 500_000_000)) factor i in
    let longest = duration_of p.max_backoff (pos 5_000_000_000) in
    min_ℤ (scaled +ℤ fl.random_part (jitter_of p.zero_jitter p.jitter) i) longest

or_default-duration_of : (m d : ℤ) → or_default m d ≡ duration_of m d
or_default-duration_of (pos zero) d = refl
or_default-duration_of (pos (suc n)) d = ground arith
or_default-duration_of (negsuc n) d = ground arith

allowed-attempts_of : (m : ℤ) → allowed (or_default m (pos 5)) ≡ attempts_of m
allowed-attempts_of (pos zero) = refl
allowed-attempts_of (pos (suc n)) = ground arith
allowed-attempts_of (negsuc n) = ground arith

or_default-jitter_of :
    (b : Bool) (m : ℤ) → (if m == pos 0 && not b then pos 200_000_000 else m) ≡ jitter_of b m
or_default-jitter_of true (pos zero) = refl
or_default-jitter_of true (pos (suc n)) = ground arith
or_default-jitter_of true (negsuc n) = ground arith
or_default-jitter_of false (pos zero) = refl
or_default-jitter_of false (pos (suc n)) = ground arith
or_default-jitter_of false (negsuc n) = ground arith

calc_sleep_time-pause_of :
    {F : Type 0} (fl : Floats F) (p : Policy F) (i : ℕ)
    → calc_sleep_time fl (with_defaults fl p) i ≡ pause_of fl p i
unfolding calc_sleep_time with_defaults
calc_sleep_time-pause_of fl p i =
    rw
      (
        or_default-duration_of p.backoff (pos 500_000_000),
        or_default-duration_of p.max_backoff (pos 5_000_000_000),
        or_default-jitter_of p.zero_jitter p.jitter,
      )
      refl

-- the pauses after `n` attempts from attempt `i` on
abbrev pub pauses : (ℕ → ℤ) → ℕ → ℕ → List ℤ
pauses pause i zero = []
pauses pause i (suc n) = pause i ∷ pauses pause (suc i) n

pauses_eq : (f g : ℕ → ℤ) → ((i : ℕ) → f i ≡ g i) → (i n : ℕ) → pauses f i n ≡ pauses g i n
pauses_eq f g h i zero = refl
pauses_eq f g h i (suc n) = rw (h i, pauses_eq f g h (suc i) n) refl

module _ {E : Type 0} (fn : ℕ → Attempt E) where
  -- The outcome of a run whose next attempt is `i` with `k` more allowed after it.
  abbrev pub settled : (ℕ → ℤ) → ℕ → ℕ → List ℤ → Outcome E
  settled pause i k slept =
      let n = further (λ j. settles (fn j)) k i in
      record { error = result (fn (i + n)); attempts = i + n; slept = slept ++ pauses pause i n }

  same_outcome :
      (a b : ℕ) (xs ys : List ℤ)
      → a ≡ b
      → xs ≡ ys
      → Path
          (Option (Outcome E))
          (some (record { error = result (fn a); attempts = a; slept = xs }))
          (some (record { error = result (fn b); attempts = b; slept = ys }))
  same_outcome a b xs ys h k = rw (h, k) refl

  loop_settles :
      {F : Type 0} (fl : Floats F) (p : Policy F) (k fuel attempt : ℕ) (slept : List ℤ)
      → suc attempt + k ≡ allowed p.max_attempts
      → k < fuel
      → run_loop fl p fn fuel attempt slept
        ≡ some (settled (calc_sleep_time fl p) (suc attempt) k slept)
  unfolding run_loop
  loop_settles fl p k zero attempt slept reach more = ground arith
  loop_settles fl p zero (suc fuel) attempt slept reach more =
      let now =
        same_outcome (suc attempt) (suc attempt + 0) slept (slept ++ []) (omega arith)
          (sym (append-nil slept)) in
      rw (conclude_lem (fn (suc attempt)), more_allowed attempt 0 p.max_attempts reach)
        (elim (Bool-cases (settles (fn (suc attempt)))) [ inl h ↦ rw (h) now | inr h ↦ rw (h) now ])
  loop_settles fl p (suc k) (suc fuel) attempt slept reach more =
      let pause = calc_sleep_time fl p (suc attempt) ∷ [] in
      let go =
        loop_settles fl p k fuel (suc attempt) (slept ++ pause) (omega arith) (omega arith) in
      let now =
        same_outcome (suc attempt) (suc attempt + 0) slept (slept ++ []) (omega arith)
          (sym (append-nil slept)) in
      rw (conclude_lem (fn (suc attempt)), more_allowed attempt (suc k) p.max_attempts reach)
        (elim (Bool-cases (settles (fn (suc attempt)))) [
          | inl h ↦ rw (h) now
          | inr h ↦ rw (h, go) (same_outcome _ _ _ _ (omega arith) (append_assoc slept pause _))
        ])

-- Run calls the function until an attempt is fatal or without error, or the allowed number is
-- reached (the maximal number of the policy, 5 for 0, 1 for a negative one), returns the error of
-- the last attempt, the fatal one first, and pauses once between two attempts: for the scaled
-- backoff and the jitter, but no longer than the maximal backoff, where 0 stands for 500 ms, twice as
-- long after each attempt, 200 ms (unless NoJitter was called) and 5 s.
pub run-settled :
    {F E : Type 0} (fl : Floats F) (p : Policy F) (fn : ℕ → Attempt E)
    → run fl p fn ≡ some (settled fn (pause_of fl p) 1 (attempts_of p.max_attempts - 1) [])
unfolding run with_defaults
run-settled fl p fn =
    let q = with_defaults fl p in
    let m = q.max_attempts in
    let n = further (λ j. settles (fn j)) (attempts_of p.max_attempts - 1) 1 in
    let same =
      pauses_eq (calc_sleep_time fl q) (pause_of fl p) (calc_sleep_time-pause_of fl p) 1 n in
    loop_settles fn fl q (allowed m - 1) (enough m) 0 [] (allowed-enough m).0 (allowed-enough m).1
    ∙ (rw (allowed-attempts_of p.max_attempts, same) refl)
