-- ===== src/ContainerManager/Execute.antt =====
-- containermanager/containers.go: Execute, createExecutor, execAttach, teardown and killAll. What the
-- Docker client answers, and the order in which the select statements go on, are arguments. The
-- goroutines that are started come back as tasks, which run later.
pub mod Outcomes
mod Tests
use goblocks.Prelude.Eq.{nat_eq, int_eq, string_eq}
use goblocks.Prelude.Int.{ℤ, pos}
use goblocks.Prelude.Map
use goblocks.Prelude.Map.{Map}
use goblocks.Prelude.{
  ℕ, String, Bool, true, false, not, ◌&&◌, Option, none, some, List, [], ◌∷◌, if◌then◌else◌,
}
use goblocks.ContainerManager.Registry.{
  Registry, set_busy, set_idle, unregister_container, container_exist,
}
use goblocks.ContainerManager.Limits.{
  StatsResponse, RuntimeLimits, ConsumedResources, LimitError, get_current_stats, check_limits,
  consumed,
}

-- The channels of ContainerPipe, by number; `none` is a nil channel.
pub record ContainerPipe : Type 0 where
  pub std_out : Option ℕ
  pub std_err : Option ℕ

pub data ExecCreate : Type 0 where
  created : String → ExecCreate
  -- the error's text contains "No such container"
  no_such_container : ExecCreate
  fails : ExecCreate

-- One round of the select loop of execAttach.
pub data Event : Type 0 where
  done_streaming : Event
  -- the statistics read at a tick, the time since the start, and whether doneStreaming was closed
  -- when the limits were found exceeded
  tick : Option StatsResponse → ℤ → Bool → Event

-- What the Docker client and the clock answer during one Execute.
pub record Docker : Type 0 where
  pub exec_create : ExecCreate
  pub exec_attach_ok : Bool
  pub zero_stats : Option StatsResponse
  pub events : List Event
  pub last_stats : Option StatsResponse
  pub last_elapsed : ℤ
  pub exec_inspect : Option ℤ

pub data ExecError : Type 0 where
  stdout_not_set does_not_exist busy_container create_failed attach_failed no_zero_state : ExecError
  inspect_failed : ExecError
  limit : LimitError → ExecError

pub data Task : Type 0 where
  teardown : String → Task
  -- StopContainer(containerID, false)
  stop : String → Task

pub record Outcome : Type 0 where
  pub registry : Registry
  pub code : ℤ
  pub error : Option ExecError
  -- what was written to pipe.Consumed
  pub consumed_sent : Option ConsumedResources
  -- the channels that streamOutput was started with
  pub streams : Option ContainerPipe
  pub tasks : List Task

abbrev pub code_container_error : ℤ
code_container_error = pos 300

abbrev pub code_resource_limit : ℤ
code_resource_limit = pos 301

pub data Watched : Type 0 where
  finished : Watched
  over : LimitError → ℕ → ℕ → Watched
  -- the events seen so far have not ended the loop
  waiting : Watched

-- the loop `outer` of execAttach
pub watch : List Event → ℕ → ℕ → RuntimeLimits → Watched
watch [] start_cpu start_net limits = waiting
watch (done_streaming ∷ evs) start_cpu start_net limits = finished
watch (tick stats elapsed done ∷ evs) start_cpu start_net limits =
    let rest = watch evs start_cpu start_net limits in
    let (cpu, net, err) = check_limits stats elapsed start_cpu start_net limits in
    elim err [ none ↦ rest | some e ↦ if done then finished else over e cpu net ]

abbrev failed : Registry → ℤ → ExecError → Outcome
failed cm code e = record {
  registry = cm;
  code = code;
  error = some e;
  consumed_sent = none;
  streams = none;
  tasks = [];
}

-- the end of execAttach, after the loop; `none` if the loop has not ended
unfoldable pub conclude :
    Registry → String → ContainerPipe → RuntimeLimits → Docker → ℕ → ℕ → Watched → Option Outcome
conclude cm id pipe limits d start_cpu start_net waiting = none
conclude cm id pipe limits d start_cpu start_net (over e cpu net) = some (record {
  registry = cm;
  code = code_resource_limit;
  error = some (limit e);
  consumed_sent = some (consumed cpu net start_cpu start_net);
  streams = some pipe;
  tasks = stop id ∷ [];
})
conclude cm id pipe limits d start_cpu start_net finished =
    let r = check_limits d.last_stats d.last_elapsed start_cpu start_net limits in
    let sent = some (consumed r.0 r.1 start_cpu start_net) in
    elim d.exec_inspect [
      | none ↦ some (record {
        registry = cm;
        code = code_container_error;
        error = some inspect_failed;
        consumed_sent = sent;
        streams = some pipe;
        tasks = [];
      })
      | some code ↦ some (record {
        registry = cm;
        code = code;
        error = none;
        consumed_sent = sent;
        streams = some pipe;
        tasks = teardown id ∷ [];
      })
    ]

-- execAttach
unfoldable pub exec_attach :
    Registry → String → ContainerPipe → RuntimeLimits → Docker → Option Outcome
unfolding conclude
exec_attach cm id pipe limits d =
    if not d.exec_attach_ok
    then some (failed cm (pos 0) attach_failed)
    else elim (get_current_stats d.zero_stats) [
      | none ↦ some (failed cm (pos 0) no_zero_state)
      | some (start_cpu, start_net) ↦
          conclude cm id pipe limits d start_cpu start_net
            (watch d.events start_cpu start_net limits)
    ]

-- createExecutor: setBusy, then ContainerExecCreate
pub data Executor : Type 0 where
  ready : String → Executor
  busy_error missing other_error : Executor

abbrev pub exec_created : ExecCreate → Registry × Bool → Registry × Executor
exec_created c (cm, false) = (cm, busy_error)
exec_created (created exec_id) (cm, true) = (cm, ready exec_id)
exec_created no_such_container (cm, true) = (cm, missing)
exec_created fails (cm, true) = (cm, other_error)

unfoldable pub create_executor : Registry → String → Docker → Registry × Executor
create_executor cm id d = exec_created d.exec_create (set_busy cm id)

-- pipe.StdErr = pipe.StdOut if it is nil
abbrev pub with_stderr : ContainerPipe → ContainerPipe
with_stderr pipe = record pipe {
  std_err = elim pipe.std_err [ none ↦ pipe.std_out | some ch ↦ some ch ];
}

abbrev pub dispatch :
    String → ContainerPipe → RuntimeLimits → Docker → Registry × Executor → Option Outcome
dispatch id pipe limits d (cm, ready exec_id) = exec_attach cm id pipe limits d
dispatch id pipe limits d (cm, busy_error) = some (failed cm (pos 0) busy_container)
dispatch id pipe limits d (cm, missing) =
    some (failed (unregister_container cm id) (pos 0) does_not_exist)
dispatch id pipe limits d (cm, other_error) = some (failed cm (pos 0) create_failed)

-- Execute; `none` as long as the command runs
unfoldable pub execute : Registry → String → ContainerPipe → RuntimeLimits → Docker → Option Outcome
unfolding exec_attach create_executor
execute cm id pipe limits d = elim pipe.std_out [
  | none ↦ some (failed cm (pos 0) stdout_not_set)
  | some ch ↦ dispatch id (with_stderr pipe) limits d (create_executor cm id d)
]

-- killAll: the answers of ContainerExecCreate and ContainerExecStart, and of each
-- ContainerExecInspect whether the process runs. Whether it has returned.
pub kill_all : Bool → Bool → List (Option Bool) → Bool
kill_all false started polls = true
kill_all true false polls = true
kill_all true true [] = false
kill_all true true (none ∷ polls) = true
kill_all true true (some running ∷ polls) = if running then kill_all true true polls else true

-- StopContainer, with whether ContainerStop and ContainerRemove succeed; beside the registry, whether
-- ContainerStop was called
unfoldable pub stop_container : Registry → String → Bool → Bool → Bool → Registry × Bool
stop_container cm id force stop_ok remove_ok =
    if not (container_exist cm id) && not force
    then (cm, false)
    else if not stop_ok
    then (cm, true)
    else if not remove_ok
    then (cm, true)
    else (unregister_container cm id, true)

-- teardown; `killed` is whether killAll has returned
unfoldable pub teardown_container : Registry → String → Bool → Registry
teardown_container cm id killed = if killed then set_idle cm id else cm

-- A task, on the registry of its time.
unfoldable pub run_task : Registry → Bool → Bool → Bool → Task → Registry
run_task cm killed stop_ok remove_ok (teardown id) = teardown_container cm id killed
run_task cm killed stop_ok remove_ok (stop id) = (stop_container cm id false stop_ok remove_ok).0
