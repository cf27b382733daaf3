-- ===== src/ContainerManager/Registry.antt =====
-- containermanager/containers.go: the registry of containers. Each method holds the lock for its
-- whole body, so calls of several goroutines run one after another.
pub mod Exclusion
mod Tests
use goblocks.Prelude.Eq.{nat_eq, int_eq, string_eq}
use goblocks.Prelude.Int.{ℤ, ltb_ℤ}
use goblocks.Prelude.Map
use goblocks.Prelude.Map.{Map, get, put, delete}
use goblocks.Prelude.{String, Bool, true, false, Option, none, some, List, [], ◌∷◌, if◌then◌else◌}

pub data ContainerState : Type 0 where
  idle busy : ContainerState

abbrev pub Registry : Type 0
Registry = Map String ContainerState

-- ContainerExist
unfoldable pub container_exist : Registry → String → Bool
container_exist cm id = elim (get cm id) [ some _ ↦ true | none ↦ false ]

unfoldable pub register_container : Registry → String → Registry
register_container cm id = put cm id idle

unfoldable pub unregister_container : Registry → String → Registry
unregister_container cm id = delete cm id

-- a missing key reads as the zero value, which is idle
abbrev pub is_busy : Option ContainerState → Bool
is_busy (some busy) = true
is_busy (some idle) = false
is_busy none = false

-- setBusy; `false` is ErrContainerBusy
unfoldable pub set_busy : Registry → String → Registry × Bool
set_busy cm id = if is_busy (get cm id) then (cm, false) else (put cm id busy, true)

unfoldable pub set_idle : Registry → String → Registry
set_idle cm id = elim (get cm id) [ none ↦ cm | some _ ↦ put cm id idle ]

abbrev pub state_name : ContainerState → String
state_name idle = "idle"
state_name busy = "busy"

-- Stats, whose result map is filled by a range over the registry
abbrev pub stats_into : Map String String → Registry → Map String String
stats_into result [] = result
stats_into result ((id, st) ∷ cm) = stats_into (put result id (state_name st)) cm

pub stats : Registry → Map String String
stats cm = stats_into [] cm

pub data WaitResult : Type 0 where
  became_idle not_found timed_out : WaitResult

-- WaitForIdle: `polls` holds what each round reads of the registry, and the time since the start at
-- its end, in ns. `none` means that the rounds seen so far have not ended the loop.
pub wait_for_idle : ℤ → List (Option ContainerState × ℤ) → Option WaitResult
wait_for_idle timeout [] = none
wait_for_idle timeout ((none, elapsed) ∷ polls) = some not_found
wait_for_idle timeout ((some idle, elapsed) ∷ polls) = some became_idle
wait_for_idle timeout ((some busy, elapsed) ∷ polls) =
    let rest = wait_for_idle timeout polls in if ltb_ℤ timeout elapsed then some timed_out else rest

-- The calls that change the registry.
pub data Call : Type 0 where
  registers unregisters takes frees : String → Call

pub step : Registry → Call → Registry
step cm (registers id) = register_container cm id
step cm (unregisters id) = unregister_container cm id
step cm (takes id) = (set_busy cm id).0
step cm (frees id) = set_idle cm id

pub run : Registry → List Call → Registry
run cm [] = cm
run cm (c ∷ cs) = run (step cm c) cs
