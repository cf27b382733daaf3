-- ===== src/ContainerManager/Sharing.antt =====
-- containermanager/containers.go: goroutines that share the registry, between the calls that take its
-- lock. What a goroutine does at Docker between two such calls is seen at the later one.
pub mod Ended
pub mod Alone
pub mod Lost
pub mod Whole
mod Tests
use goblocks.Prelude.Eq.{◌==◌, nat_eq, int_eq, string_eq}
use goblocks.Prelude.Map
use goblocks.Prelude.Map.{Map}
use goblocks.Prelude.{
  ℕ, ◌+◌, String, ◌≡◌, Bool, true, false, Option, some, List, [], ◌∷◌, ◌++◌, if◌then◌else◌,
}
use goblocks.ContainerManager.Registry.{Registry, container_exist, register_container, set_busy}
use goblocks.ContainerManager.Limits.{RuntimeLimits}
use goblocks.ContainerManager.Execute.{
  ContainerPipe, Docker, Task, teardown, stop, Outcome, exec_created, dispatch, stop_container,
  run_task,
}

-- What a goroutine works on: an Execute that has made the container busy, or a task that one started.
pub data Work : Type 0 where
  executing : String → Work
  runs : Task → Work

abbrev pub container_of : Work → String
container_of (executing id) = id
container_of (runs (teardown id)) = id
container_of (runs (stop id)) = id

-- Execute after setBusy has accepted the container
pub claimed : Registry → String → ContainerPipe → RuntimeLimits → Docker → Option Outcome
claimed cm id pipe limits d = dispatch id pipe limits d (exec_created d.exec_create (cm, true))

abbrev pub tasks_of : List Task → List Work
tasks_of [] = []
tasks_of (t ∷ ts) = runs t ∷ tasks_of ts

-- how many goroutines work on a container
abbrev pub workers : String → List Work → ℕ
workers id [] = 0
workers id (w ∷ ws) = (if container_of w == id then 1 else 0) + workers id ws

-- the registry, and the goroutines at work
pub record System : Type 0 where
  pub registry : Registry
  pub works : List Work

abbrev pub system : Registry → List Work → System
system cm ws = record { registry = cm; works = ws }

infix 40 ◌⟶◌ ◌⟶*◌
pub data ◌⟶◌ : System → System → Type 0 where
  -- an Execute of a registered container, which setBusy accepts
  begins :
      {cm cm' : Registry} {ws : List Work} (id : String)
      → container_exist cm id ≡ true
      → set_busy cm id ≡ (cm', true)
      → system cm ws ⟶ system cm' (executing id ∷ ws)
  -- an Execute returns
  ends :
      {cm : Registry} (before after : List Work) (id : String) (pipe : ContainerPipe)
      (limits : RuntimeLimits) (d : Docker) (o : Outcome)
      → claimed cm id pipe limits d ≡ some o
      → system cm (before ++ executing id ∷ after)
        ⟶ system o.registry (before ++ (tasks_of o.tasks ++ after))
  -- a task ends; a teardown does so once killAll has returned
  task_ends :
      {cm : Registry} (before after : List Work) (t : Task) (stop_ok remove_ok : Bool)
      → system cm (before ++ runs t ∷ after)
        ⟶ system (run_task cm true stop_ok remove_ok t) (before ++ after)
  -- CreateAndRunContainer registers a container, whose ID Docker gives to no other
  creates :
      {cm : Registry} {ws : List Work} (id : String)
      → workers id ws ≡ 0
      → container_exist cm id ≡ false
      → system cm ws ⟶ system (register_container cm id) ws
  -- StopContainer, called from outside
  stops :
      {cm : Registry} {ws : List Work} (id : String) (force stop_ok remove_ok : Bool)
      → system cm ws ⟶ system (stop_container cm id force stop_ok remove_ok).0 ws

pub data ◌⟶*◌ : System → System → Type 0 where
  here : {s : System} → s ⟶* s
  after_step : {s t u : System} → s ⟶ t → t ⟶* u → s ⟶* u
