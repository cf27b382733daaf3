-- ===== src/LimitMap/Tests.antt =====
-- The theorems on limitmap/limitmap.go at concrete inputs.
use goblocks.Prelude.Eq.{nat_eq, int_eq, string_eq}
use goblocks.Prelude.Int.{pos, ◌+ℤ◌, ◌≤ℤ◌}
use goblocks.Prelude.Map.{get, put}
use goblocks.Prelude.{String, ◌≡◌, refl, List, [], ◌∷◌, arith}
use goblocks.LimitMap.{Call, LimitMap, increments, decrements, value, inc, dec, run}
use goblocks.LimitMap.Bounds.{run_bounds, dec-inc}

abbrev history : List (Call String)
history =
    increments "a" (pos 1) ∷ increments "a" (pos 1) ∷ increments "b" (pos 9) ∷ decrements "a" ∷ []

abbrev one_a : LimitMap String
one_a = ("a", pos 1) ∷ []

run_bounds_example : (pos 0 ≤ℤ value (run [] history) "a") × (value (run [] history) "a" ≤ℤ pos 1)
run_bounds_example =
    run_bounds history "a" (pos 1) (omega arith)
      ((λ _. omega arith), ((λ _. omega arith), ((λ h. absurd (cc)), tt)))

abbrev two_a : LimitMap String
two_a = ("a", pos 2) ∷ []

dec-inc_tried :
    (value (dec two_a "a").0 "a" ≡ value one_a "a") × ((dec two_a "a").1 ≡ value one_a "a")
unfolding inc value dec get put ◌+ℤ◌
dec-inc_tried = dec-inc one_a two_a "a" "a" (pos 5) (omega arith) refl
