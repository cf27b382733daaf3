-- ===== src/ContainerManager/Sharing/Tests.antt =====
-- Two containers, of which one runs a command, interleaved with the end of it.
use goblocks.Prelude.Eq.{nat_eq, int_eq, string_eq}
use goblocks.Prelude.Int.{pos}
use goblocks.Prelude.Map.{get, put}
use goblocks.Prelude.{refl, true, none, some, [], ◌∷◌, arith}
use goblocks.ContainerManager.Registry.{Registry, idle, busy, container_exist, set_busy}
use goblocks.ContainerManager.Limits.{RuntimeLimits}
use goblocks.ContainerManager.Execute.{ContainerPipe, Docker, Outcome, fails, create_failed}
use goblocks.ContainerManager.Sharing.{
  System, system, executing, claimed, ◌⟶◌, begins, ends, here, after_step,
}
use goblocks.ContainerManager.Sharing.Lost.{IsLost, steps-IsLost}
use goblocks.ContainerManager.Sharing.Alone.{IsAlone, steps-IsAlone}

abbrev both_idle : Registry
both_idle = ("a", idle) ∷ ("b", idle) ∷ []

abbrev a_busy : Registry
a_busy = ("a", busy) ∷ ("b", idle) ∷ []

abbrev pipe : ContainerPipe
pipe = record { std_out = some 1; std_err = none }

abbrev limits : RuntimeLimits
limits = record { cpu_time = 100; net = 1; run_time = 10; tmp_dir = 0 }

-- ContainerExecCreate fails
abbrev docker : Docker
docker = record {
  exec_create = fails;
  exec_attach_ok = true;
  zero_stats = none;
  events = [];
  last_stats = none;
  last_elapsed = pos 2;
  exec_inspect = none;
}

abbrev failed : Outcome
failed = record {
  registry = a_busy;
  code = pos 0;
  error = some create_failed;
  consumed_sent = none;
  streams = none;
  tasks = [];
}

abbrev first : System
first = system both_idle []

abbrev last : System
last = system a_busy []

begun : first ⟶ system a_busy (executing "a" ∷ [])
unfolding container_exist set_busy get put
begun = begins "a" refl refl

ended : system a_busy (executing "a" ∷ []) ⟶ last
unfolding claimed
ended = ends [] [] "a" pipe limits docker failed refl

first-IsAlone : IsAlone first
first-IsAlone id = omega arith

-- the other container runs a command
abbrev both_busy : System
both_busy = system (("a", busy) ∷ ("b", busy) ∷ []) (executing "b" ∷ [])

other_begun : last ⟶ both_busy
unfolding container_exist set_busy get put
other_begun = begins "b" refl refl

steps-IsLost_example : IsLost "a" both_busy
unfolding get other_begun
steps-IsLost_example = steps-IsLost "a" (after_step other_begun here) (refl, tt) (refl, refl)

steps-IsAlone_example : IsAlone both_busy
steps-IsAlone_example =
    steps-IsAlone (after_step begun (after_step ended (after_step other_begun here))) first-IsAlone
