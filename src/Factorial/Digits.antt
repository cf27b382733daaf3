-- ===== src/Factorial/Digits.antt =====
-- Atoi reads the decimal digits of a number back.
use goblocks.Prelude.Text.{Text}
use goblocks.Prelude.{
  ℕ, zero, suc, ◌+◌, ◌-◌, ◌*◌, ◌/◌, ◌%◌, ◌<◌, ◌≡◌, refl, ◌∙◌, inl, inr, true, false, [], ◌∷◌, ◌++◌,
  arith, ltb, if◌then◌else◌, Bool-cases,
}
use goblocks.Factorial.{
  is_digit, value_from, all_digits, is_empty, number, atoi, digits, decimal, out_of_range,
}

value_from-append :
    (n c : ℕ) (s : Text) → value_from n (s ++ c ∷ []) ≡ value_from n s * 10 + (c - 48)
unfolding value_from
value_from-append n c [] = refl
value_from-append n c (d ∷ s) = value_from-append (n * 10 + (d - 48)) c s

all_digits-append :
    (c : ℕ) (s : Text) → all_digits s ≡ true → is_digit c ≡ true → all_digits (s ++ c ∷ []) ≡ true
unfolding all_digits
all_digits-append c [] h d = ground (arith, d)
all_digits-append c (x ∷ s) h d = ground (arith, d, h, all_digits-append c s)

is_empty-append : (c : ℕ) (s : Text) → is_empty (s ++ c ∷ []) ≡ false
is_empty-append c [] = refl
is_empty-append c (x ∷ s) = refl

Reads : ℕ → Text → Type 0
Reads n s = (value_from 0 s ≡ n) × (all_digits s ≡ true) × (is_empty s ≡ false)

digit_read : (n : ℕ) → ltb n 10 ≡ true → Reads n ((48 + n) ∷ [])
unfolding Reads value_from all_digits
digit_read n h = ground (arith, h)

digit_appended : (n : ℕ) (s : Text) → Reads (n / 10) s → Reads n (s ++ (48 + n % 10) ∷ [])
unfolding Reads
digit_appended n s h = (
  value_from-append 0 (48 + n % 10) s ∙ ground (arith, h),
  all_digits-append (48 + n % 10) s h.1 (ground arith),
  is_empty-append (48 + n % 10) s,
)

digits-Reads : (fuel n : ℕ) → n < fuel → Reads n (digits fuel n)
unfolding digits
digits-Reads zero n h = ground (arith, h)
digits-Reads (suc fuel) n h = elim (Bool-cases (ltb n 10)) [
  | inl p ↦ rw (digits, p) (digit_read n p)
  | inr p ↦
      rw (digits, p)
        (digit_appended n (digits fuel (n / 10))
          (digits-Reads fuel (n / 10) (ground (arith, h, p))))
]

-- Atoi gives a number back from its decimal digits, if it is below 2^63, and otherwise it is out of range.
pub atoi-decimal :
    (n : ℕ)
    → atoi (decimal n) ≡ (if ltb n 9_223_372_036_854_775_808 then number n else out_of_range)
unfolding atoi decimal Reads
atoi-decimal n =
    let h : Reads n (digits (suc n) n) = digits-Reads (suc n) n (omega arith) in
    rw (h.0, h.1, h.2) refl
