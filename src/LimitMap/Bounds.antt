-- ===== src/LimitMap/Bounds.antt =====
-- What the counters of limitmap/limitmap.go are after a call, and after any sequence of calls.
use goblocks.Prelude.Eq.{Eq, ◌==◌, ==_refl, nat_eq, int_eq, string_eq}
use goblocks.Prelude.Int.{ℤ, pos, ◌+ℤ◌, ◌-ℤ◌, ◌≤ℤ◌, ltb_ℤ, int_beq, +ℤ_parts, -ℤ_parts, int_beq_iff}
use goblocks.Prelude.Map.{get, get-put, get-delete}
use goblocks.Prelude.{
  ◌≡◌, refl, sym, ap, ◌∙◌, inl, inr, true, List, [], ◌∷◌, arith, if◌then◌else◌, Bool-cases,
}
use goblocks.LimitMap.{
  LimitMap, Call, increments, decrements, value, inc, dec, step, run, or_zero, lowered,
}

lowered-raised : (n : ℤ) → pos 0 ≤ℤ n → lowered (n +ℤ pos 1) ≡ n
unfolding ◌+ℤ◌ ◌-ℤ◌
lowered-raised n h = ground arith

module _ {ℓ} {K : Type ℓ} ⦃e : Eq K⦄ where
  pub value-inc :
      (s : LimitMap K) (key j : K) (limit : ℤ)
      → value (inc s key limit).0 j ≡ (
          if ltb_ℤ limit (value s key +ℤ pos 1)
          then value s j
          else (if key == j then value s key +ℤ pos 1 else value s j))
  unfolding value inc
  value-inc s key j limit = ground (arith, get-put s key j (or_zero (get s key) +ℤ pos 1))

  pub value-dec :
      (s : LimitMap K) (key j : K)
      → value (dec s key).0 j ≡ (if key == j then lowered (value s key) else value s j)
  unfolding value dec
  value-dec s key j = elim (Bool-cases (int_beq (lowered (or_zero (get s key))) (pos 0))) [
    | inl p ↦ rw p (
        rw get-delete (elim (Bool-cases (key == j)) [
          | inl q ↦ rw (q) (sym ((int_beq_iff _ _).0 p))
          | inr q ↦ rw (q) refl
        ]))
    | inr p ↦
        rw p
          (rw get-put (elim (Bool-cases (key == j)) [ inl q ↦ rw (q) refl | inr q ↦ rw (q) refl ]))
  ]

  -- Every limit given for `key` is at most `top`.
  abbrev pub Capped : K → ℤ → List (Call K) → Type 0
  Capped key top [] = Unit
  Capped key top (increments j limit ∷ cs) = ((j == key) ≡ true → limit ≤ℤ top) × Capped key top cs
  Capped key top (decrements j ∷ cs) = Capped key top cs

  abbrev Within : LimitMap K → K → ℤ → Type 0
  Within s key top = (pos 0 ≤ℤ value s key) × (value s key ≤ℤ top)

  inc-Within :
      (s : LimitMap K) (j key : K) (limit top : ℤ)
      → ((j == key) ≡ true → limit ≤ℤ top)
      → Within s key top
      → Within (inc s j limit).0 key top
  inc-Within s j key limit top c w = rw value-inc (elim (Bool-cases (j == key)) [
    | inl p ↦ rw (p, (e.beq_iff j key).0 p) (ground (arith, c p, +ℤ_parts (value s key) (pos 1)))
    | inr p ↦ rw p (ground arith)
  ])

  dec-Within :
      (s : LimitMap K) (j key : K) (top : ℤ) → Within s key top → Within (dec s j).0 key top
  dec-Within s j key top w = rw value-dec (elim (Bool-cases (j == key)) [
    | inl p ↦ rw (p, (e.beq_iff j key).0 p) (ground (arith, -ℤ_parts (value s key) (pos 1)))
    | inr p ↦ rw p (ground arith)
  ])

  run-Within :
      (s : LimitMap K) (cs : List (Call K)) (key : K) (top : ℤ)
      → Capped key top cs
      → Within s key top
      → Within (run s cs) key top
  unfolding run step
  run-Within s [] key top c w = w
  run-Within s (increments j limit ∷ cs) key top c w =
      run-Within (inc s j limit).0 cs key top c.1 (inc-Within s j key limit top c.0 w)
  run-Within s (decrements j ∷ cs) key top c w =
      run-Within (dec s j).0 cs key top c (dec-Within s j key top w)

  -- Starting from New, after any sequence of Inc and Dec calls, in any order, a key's value is
  -- between 0 and `top`, where `top` is not negative and bounds every limit given to Inc for that key.
  pub run_bounds :
      (cs : List (Call K)) (key : K) (top : ℤ)
      → pos 0 ≤ℤ top
      → Capped key top cs
      → (pos 0 ≤ℤ value (run [] cs) key) × (value (run [] cs) key ≤ℤ top)
  run_bounds cs key top h c =
      run-Within [] cs key top c (unfold value get in (omega arith, omega arith))

  inc_accepted :
      (s t : LimitMap K) (key j : K) (limit : ℤ)
      → inc s key limit ≡ (t, true)
      → value t j ≡ (if key == j then value s key +ℤ pos 1 else value s j)
  unfolding inc value
  inc_accepted s t key j limit r = ground (arith, get-put s key j (or_zero (get s key) +ℤ pos 1))

  dec_returns : (s : LimitMap K) (key : K) → (dec s key).1 ≡ lowered (value s key)
  unfolding dec value
  dec_returns s key = ground arith

  -- From a state in which the count of `key` is not negative, an Inc of `key` that succeeded
  -- followed by a Dec of `key` gives every key the value it had before, and Dec returns the old
  -- value of `key`.
  pub dec-inc :
      (s t : LimitMap K) (key j : K) (limit : ℤ)
      → pos 0 ≤ℤ value s key
      → inc s key limit ≡ (t, true)
      → (value (dec t key).0 j ≡ value s j) × ((dec t key).1 ≡ value s key)
  dec-inc s t key j limit h r =
      let raised : value t key ≡ value s key +ℤ pos 1 =
        inc_accepted s t key key limit r ∙ (rw (==_refl key)) in
      let back : lowered (value t key) ≡ value s key = rw raised (lowered-raised _ h) in
      (
        rw value-dec (elim (Bool-cases (key == j)) [
          | inl p ↦ rw p (back ∙ ap (value s) ((e.beq_iff key j).0 p))
          | inr p ↦ rw p (inc_accepted s t key j limit r ∙ (rw p))
        ]),
        dec_returns t key ∙ back,
      )
