-- ===== src/ContainerManager/Registry/Tests.antt =====
-- The theorems on the registry at concrete inputs.
use goblocks.Prelude.Eq.{nat_eq, int_eq, string_eq}
use goblocks.Prelude.Int.{pos}
use goblocks.Prelude.Map.{get, put}
use goblocks.Prelude.{◌≡◌, refl, false, some, List, [], ◌∷◌, arith}
use goblocks.ContainerManager.Registry.{
  Registry, idle, busy, set_busy, state_name, stats, Call, takes, frees, registers, run,
  wait_for_idle, timed_out,
}
use goblocks.ContainerManager.Registry.Exclusion.{set_busy_excludes, get-stats, wait_for_idle_lem}

abbrev one_idle : Registry
one_idle = ("a", idle) ∷ []

abbrev one_busy : Registry
one_busy = ("a", busy) ∷ []

abbrev others : List Call
others = takes "a" ∷ registers "b" ∷ frees "b" ∷ []

set_busy_excludes_example : set_busy (run one_busy others) "a" ≡ (run one_busy others, false)
unfolding set_busy get put
set_busy_excludes_example = set_busy_excludes one_idle one_busy others "a" refl (refl, (refl, tt))

get-stats_tried : get (stats one_idle) "a" ≡ some (state_name idle)
unfolding get
get-stats_tried = get-stats one_idle "a" (refl, tt)

waited_twice :
    wait_for_idle (pos 9) ((some busy, pos 5) ∷ (some busy, pos 10) ∷ []) ≡ some timed_out
waited_twice =
    wait_for_idle_lem (pos 9) ((some busy, pos 5) ∷ []) [] (some busy) (pos 10)
      (refl, omega arith, tt) (λ _. omega arith)
