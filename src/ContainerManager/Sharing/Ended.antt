-- ===== src/ContainerManager/Sharing/Ended.antt =====
-- What an Execute of containermanager/containers.go leaves when it ends, between the calls of others.
use goblocks.Prelude.Eq.{◌==◌, nat_eq, int_eq, string_eq}
use goblocks.Prelude.Map.{get, delete, get-delete}
use goblocks.Prelude.{
  ℕ, ◌+◌, ◌≤◌, String, ◌≡◌, refl, ◌∙◌, inl, inr, Bool, true, false, Option, none, some, arith,
  if◌then◌else◌, Bool-cases, Option-cases,
}
use goblocks.ContainerManager.Registry.{ContainerState, idle, busy, Registry, unregister_container}
use goblocks.ContainerManager.Limits.{RuntimeLimits, get_current_stats}
use goblocks.ContainerManager.Execute.{
  ContainerPipe, Docker, Outcome, exec_created, dispatch, exec_attach, Watched, waiting, over,
  finished, watch, ExecCreate, conclude, created, fails, no_such_container,
}
use goblocks.ContainerManager.Sharing.{claimed, tasks_of, workers}

-- how many may work on a container in a state
abbrev pub room : Option ContainerState → ℕ
room (some idle) = 0
room (some busy) = 1
room none = 1

pub room_le : (st : Option ContainerState) → room st ≤ 1
room_le st = ground arith

-- An Execute that ends starts at most one task, for its container, and leaves no less room;
-- other containers are as they were.
abbrev pub EndsIf : Registry → String → Option Outcome → Type 0
EndsIf cm id none = Unit {0}
EndsIf cm id (some o) =
    (j : String)
    → (workers j (tasks_of o.tasks) ≤ (if id == j then 1 else 0))
      × (room (get cm j) ≤ room (get o.registry j))
      × ((id == j) ≡ false → get o.registry j ≡ get cm j)

pub le_self : (n : ℕ) → n ≤ n
le_self n = omega arith

zero_le : (b : Bool) → 0 ≤ (if b then 1 else 0)
zero_le b = ground arith

one_task : (b : Bool) → (if b then 1 else 0) + 0 ≤ (if b then 1 else 0)
one_task b = ground arith

conclude-EndsIf :
    (cm : Registry) (id : String) (pipe : ContainerPipe) (limits : RuntimeLimits) (d : Docker)
    (cpu net : ℕ) (w : Watched)
    → EndsIf cm id (conclude cm id pipe limits d cpu net w)
unfolding conclude
conclude-EndsIf cm id pipe limits d cpu net waiting = tt
conclude-EndsIf cm id pipe limits d cpu net (over e c n) =
    λ j. (one_task (id == j), le_self (room (get cm j)), λ q. refl)
conclude-EndsIf cm id pipe limits d cpu net finished = elim (Option-cases d.exec_inspect) [
  | inl q ↦ rw (conclude, q) (λ j. (zero_le (id == j), le_self (room (get cm j)), λ q. refl))
  | inr (c, q) ↦ rw (conclude, q) (λ j. (one_task (id == j), le_self (room (get cm j)), λ q. refl))
]

exec_attach-EndsIf :
    (cm : Registry) (id : String) (pipe : ContainerPipe) (limits : RuntimeLimits) (d : Docker)
    → EndsIf cm id (exec_attach cm id pipe limits d)
unfolding exec_attach
exec_attach-EndsIf cm id pipe limits d = elim (Bool-cases d.exec_attach_ok) [
  | inr q ↦ rw (exec_attach, q) (λ j. (zero_le (id == j), le_self (room (get cm j)), λ q. refl))
  | inl q ↦ elim (Option-cases (get_current_stats d.zero_stats)) [
    | inl z ↦
        rw (exec_attach, q, z) (λ j. (zero_le (id == j), le_self (room (get cm j)), λ q. refl))
    | inr ((cpu, net), z) ↦
        rw (exec_attach, q, z)
          (conclude-EndsIf cm id pipe limits d cpu net (watch d.events cpu net limits))
  ]
]

pub delete-room : (cm : Registry) (id j : String) → room (get cm j) ≤ room (get (delete cm id) j)
delete-room cm id j = ground (arith, get-delete cm id j, room_le (get cm j))

dispatch-EndsIf :
    (cm : Registry) (id : String) (pipe : ContainerPipe) (limits : RuntimeLimits) (d : Docker)
    (c : ExecCreate)
    → EndsIf cm id (dispatch id pipe limits d (exec_created c (cm, true)))
unfolding unregister_container
dispatch-EndsIf cm id pipe limits d (created e) = exec_attach-EndsIf cm id pipe limits d
dispatch-EndsIf cm id pipe limits d no_such_container =
    λ j. (zero_le (id == j), delete-room cm id j, λ q. get-delete cm id j ∙ (rw q))
dispatch-EndsIf cm id pipe limits d fails =
    λ j. (zero_le (id == j), le_self (room (get cm j)), λ q. refl)

pub claimed-EndsIf :
    (cm : Registry) (id : String) (pipe : ContainerPipe) (limits : RuntimeLimits) (d : Docker)
    → EndsIf cm id (claimed cm id pipe limits d)
unfolding claimed
claimed-EndsIf cm id pipe limits d = dispatch-EndsIf cm id pipe limits d d.exec_create
