-- ===== src/Factorial/Loop.antt =====
-- The loop of examples/factorial/factorial.go computes the factorial, and BitLen the number of its bits.
use goblocks.Prelude.Int.{pos}
use goblocks.Prelude.{
  ℕ, zero, suc, ◌+◌, ◌-◌, ◌*◌, ◌/◌, ◌^◌, ◌≤◌, ◌<◌, ◌≡◌, sym, ap, ◌∙◌, inl, inr, arith, ltb,
  Bool-cases,
}
use native.Mathlib.Nat.{mul_assoc}
use goblocks.Factorial.{multiply, factorial, halvings, bit_len}

abbrev pub fact : ℕ → ℕ
fact zero = 1
fact (suc n) = suc n * fact n

mul_one : (n : ℕ) → n * 1 ≡ n
mul_one n = omega arith

pred_suc : (n : ℕ) → suc (suc n) - 1 ≡ suc n
pred_suc n = omega arith

multiply-fact : (n r : ℕ) → multiply n n r ≡ r * fact n
unfolding multiply
multiply-fact zero r = sym (mul_one r)
multiply-fact (suc zero) r = sym (mul_one r)
multiply-fact (suc (suc n)) r =
    ap (λ b. multiply (suc n) b (r * suc (suc n))) (pred_suc n)
    ∙ multiply-fact (suc n) (r * suc (suc n))
    ∙ mul_assoc r (suc (suc n)) (fact (suc n))

one_mul : (n : ℕ) → 1 * n ≡ n
one_mul n = omega arith

pub factorial-fact : (n : ℕ) → factorial (pos n) ≡ fact n
unfolding factorial
factorial-fact n = multiply-fact n 1 ∙ one_mul (fact n)

-- b is the number of bits of n
abbrev pub HasBits : ℕ → ℕ → Type 0
HasBits n zero = n ≡ 0
HasBits n (suc b) = (2 ^ b ≤ n) × (n < 2 ^ suc b)

pow_suc : (b : ℕ) → 2 ^ suc b ≡ 2 ^ b + 2 ^ b
pow_suc b = omega arith

doubled-HasBits : (n b : ℕ) → 1 ≤ n → HasBits (n / 2) b → HasBits n (suc b)
doubled-HasBits n zero p h = (ground (arith, p), ground (arith, h))
doubled-HasBits n (suc b) p h =
    (ground (arith, h, pow_suc b), ground (arith, h, pow_suc b, pow_suc (suc b)))

halvings-HasBits : (fuel n : ℕ) → n ≤ fuel → HasBits n (halvings fuel n)
unfolding halvings
halvings-HasBits zero n h = omega (arith, h)
halvings-HasBits (suc fuel) n h = elim (Bool-cases (ltb 0 n)) [
  | inl p ↦
      rw (halvings, p)
        (doubled-HasBits n (halvings fuel (n / 2)) (ground (arith, p))
          (halvings-HasBits fuel (n / 2) (ground (arith, h, p))))
  | inr p ↦ rw (halvings, p) (ground (arith, p))
]

pub bit_len-HasBits : (n : ℕ) → HasBits n (bit_len n)
unfolding bit_len
bit_len-HasBits n = halvings-HasBits n n (omega arith)
