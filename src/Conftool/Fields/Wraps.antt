-- ===== src/Conftool/Fields/Wraps.antt =====
-- conftool/conftool.go, setField: a number in the width of an integer field.
use goblocks.Prelude.Int.{ℤ, pos, negsuc, pos_part, neg_part}
use goblocks.Prelude.{
  ℕ, zero, suc, ◌+◌, ◌-◌, ◌*◌, ◌/◌, ◌%◌, ◌^◌, ◌≤◌, ◌<◌, ◌≡◌, ◌⊎◌, inl, inr, arith, ltb, Bool-cases,
}
use goblocks.Conftool.Fields.{from_residue, wrap_int}

-- `k` is the integer of `bits` bits, in two's complement, that is congruent to `m`.
abbrev pub Wraps : ℕ → ℤ → ℤ → Type 0
Wraps bits m k =
    (2 * pos_part k < 2 ^ bits)
    × (2 * neg_part k ≤ 2 ^ bits)
    × (((q : ℕ) × (pos_part m + neg_part k ≡ pos_part k + neg_part m + q * 2 ^ bits))
        ⊎ ((q : ℕ) × (pos_part k + neg_part m ≡ pos_part m + neg_part k + q * 2 ^ bits)))

-- `k` is the remainder of `m` after division by 2 ^ `bits`.
abbrev pub WrapsTo : ℕ → ℕ → ℕ → Type 0
WrapsTo bits m k = (k < 2 ^ bits) × (q : ℕ) × (m ≡ k + q * 2 ^ bits)

suc_mul : (q d : ℕ) → suc q * d ≡ d + q * d
suc_mul q d = omega arith

-- a residue of a number that is not negative
from_residue-Wraps :
    (bits n r q : ℕ)
    → r < 2 ^ bits
    → n ≡ q * 2 ^ bits + r
    → Wraps bits (pos n) (from_residue bits r)
from_residue-Wraps bits n r q low split = elim (Bool-cases (ltb (r * 2) (2 ^ bits))) [
  | inl h ↦ rw (h) (ground arith, omega arith, inl (q, omega arith))
  | inr h ↦
      let high : 2 ^ bits ≤ r * 2 = ground arith in
      rw (h) (omega arith, omega arith, inl (suc q, omega (arith, suc_mul q (2 ^ bits))))
]

-- a residue of a negative number
from_residue-Wraps_negsuc :
    (bits n s q : ℕ)
    → s < 2 ^ bits
    → n ≡ q * 2 ^ bits + s
    → Wraps bits (negsuc n) (from_residue bits (2 ^ bits - 1 - s))
from_residue-Wraps_negsuc bits n s q low split =
    let r = 2 ^ bits - 1 - s in
    elim (Bool-cases (ltb (r * 2) (2 ^ bits))) [
      | inl h ↦ rw (h) (ground arith, omega arith, inr (suc q, omega (arith, suc_mul q (2 ^ bits))))
      | inr h ↦
          let high : 2 ^ bits ≤ r * 2 = ground arith in
          rw (h) (omega arith, omega arith, inr (q, omega arith))
    ]

pub pow_pos : (bits : ℕ) → 0 < 2 ^ bits
pow_pos zero = omega arith
pow_pos (suc bits) = omega (arith, pow_pos bits)

pub div_mod : (n d : ℕ) → 0 < d → (n ≡ (n / d) * d + n % d) × (n % d < d)
div_mod n d h = omega arith

pub wrap_int-Wraps : (bits : ℕ) (m : ℤ) → Wraps bits m (wrap_int bits m)
wrap_int-Wraps bits (pos n) =
    let split = div_mod n (2 ^ bits) (pow_pos bits) in
    from_residue-Wraps bits n (n % 2 ^ bits) (n / 2 ^ bits) split.1 split.0
wrap_int-Wraps bits (negsuc n) =
    let split = div_mod n (2 ^ bits) (pow_pos bits) in
    from_residue-Wraps_negsuc bits n (n % 2 ^ bits) (n / 2 ^ bits) split.1 split.0
