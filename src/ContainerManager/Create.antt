-- ===== src/ContainerManager/Create.antt =====
-- containermanager/containers.go: CreateAndRunContainer, ensureVolume and grepLogs. What the file
-- system and the Docker client answer is a record of functions; what Docker was made to do comes
-- back as a list of effects, oldest first.
pub mod Start
mod Tests
use goblocks.Prelude.Eq.{◌==◌, nat_eq, int_eq, string_eq}
use goblocks.Prelude.Int.{ℤ, pos, ltb_ℤ, leb_ℤ}
use goblocks.Prelude.Map
use goblocks.Prelude.Map.{Map}
use goblocks.Prelude.{
  ℕ, zero, suc, ◌*◌, String, Bool, true, false, not, ◌&&◌, ◌||◌, Option, none, some, List, [], ◌∷◌,
  ◌++◌, ltb, nat_beq, if◌then◌else◌,
}
use goblocks.ContainerManager.Registry.{Registry, register_container}
use goblocks.ContainerManager.Limits.{to_int64}
use goblocks.ContainerManager.Execute.{Task, stop}

-- ContainerSetup with its Resources; texts that are searched are lists of bytes
pub record ContainerSetup : Type 0 where
  pub image : String
  pub default_cmd : Bool
  pub ready_string : List ℕ
  pub ready_timeout : ℤ
  pub working_dir : String
  pub working_dir_ro : Bool
  pub cache_volume : List String
  pub cache_volume_mount : List String
  pub label : String
  pub ram : ℕ
  pub cpus : ℕ
  pub net : Bool
  pub tmp_dir : ℕ

pub data Mount : Type 0 where
  bind : Bool → String → String → Mount
  tmpfs : ℤ → String → Mount
  volume : String → String → Mount

-- Cmd, WorkingDir and NetworkDisabled of the container's configuration
pub record Config : Type 0 where
  pub image : String
  pub cmd : List String
  pub tty : Bool
  pub working_dir : String
  pub network_disabled : Bool

pub data NetworkMode : Type 0 where
  network_none network_bridge : NetworkMode

pub record HostConfig : Type 0 where
  pub auto_remove : Bool
  pub readonly_rootfs : Bool
  pub mounts : List Mount
  pub network_mode : NetworkMode
  pub nano_cpus : ℤ
  pub memory : ℤ
  pub memory_swap : ℤ

pub data VolumeState : Type 0 where
  exists not_found broken : VolumeState

pub record Client : Type 0 where
  -- file.Mkdir succeeds
  pub mkdir : String → Bool
  pub volume_inspect : String → VolumeState
  pub volume_create : String → Bool
  -- the ID, or an error
  pub container_create : Config → HostConfig → String → Option String
  pub container_start : String → Bool
  -- the status that the n-th inspection finds, or an error
  pub container_inspect : ℕ → String → Option String
  -- the lines of the log with the time that each arrives, in ns, or an error
  pub container_logs : String → Option (List (ℤ × List ℕ))

pub data Effect : Type 0 where
  created_volume : String → Effect
  created started : String → Effect

pub data CreateError : Type 0 where
  mkdir_failed volume_failed create_failed start_failed inspect_failed not_ready : CreateError
  -- an index out of range, or the panic of grepLogs
  panics : CreateError

pub data Result {ℓ} (A : Type ℓ) : Type ℓ where
  ok : A → Result A
  err : CreateError → Result A

-- ensureVolume
pub ensure_volume : Client → String → List Effect × Bool
ensure_volume client name = elim (client.volume_inspect name) [
  | exists ↦ ([], true)
  | not_found ↦ if client.volume_create name then (created_volume name ∷ [], true) else ([], false)
  | broken ↦ ([], false)
]

abbrev then_volumes :
    List Effect × Bool
    → Mount
    → List Effect × Result (List Mount)
    → List Effect × Result (List Mount)
then_volumes (es, false) m r = (es, err volume_failed)
then_volumes (es, true) m (fs, ok ms) = (es ++ fs, ok (m ∷ ms))
then_volumes (es, true) m (fs, err e) = (es ++ fs, err e)

-- the loop over CacheVolume, which indexes CacheVolumeMount
pub volume_mounts : Client → List String → List String → List Effect × Result (List Mount)
volume_mounts client [] mounts = ([], ok [])
volume_mounts client (name ∷ names) [] = ([], err panics)
volume_mounts client (name ∷ names) (point ∷ points) =
    then_volumes (ensure_volume client name) (volume name point) (volume_mounts client names points)

abbrev pub mbytes : ℕ
mbytes = 1024 * 1024

abbrev pub idle_command : List String
idle_command =
    "sh" ∷ "-c" ∷ "trap 'exit 0' TERM INT; while :; do sleep 0.5; wait || true; done" ∷ []

pub config_of : ContainerSetup → Config
config_of s = record {
  image = s.image;
  cmd = if s.default_cmd then [] else idle_command;
  tty = true;
  working_dir = "/home/dummy/";
  network_disabled = not s.net;
}

-- the home directory and, if it has a size, the temporary directory
pub base_mounts : ContainerSetup → List Mount
base_mounts s =
    bind s.working_dir_ro s.working_dir "/home/dummy/"
    ∷ (if ltb 0 s.tmp_dir then tmpfs (to_int64 (s.tmp_dir * mbytes)) "/tmp/" ∷ [] else [])

pub host_config_of : ContainerSetup → List Mount → HostConfig
host_config_of s mounts = record {
  auto_remove = true;
  readonly_rootfs = not s.default_cmd;
  mounts = mounts;
  network_mode = if s.net then network_bridge else network_none;
  nano_cpus = to_int64 (s.cpus * 1_000_000);
  memory = to_int64 (s.ram * mbytes);
  memory_swap = to_int64 (s.ram * mbytes);
}

pub data Wait : Type 0 where
  running broke_off pending : Wait

-- the loop that inspects until the status is "running", round by round from `n`; `pending` means that
-- the fuel ran out, which in the code goes on for ever
pub wait_running : ℕ → ℕ → Client → String → Wait
wait_running zero n client id = pending
wait_running (suc fuel) n client id =
    let rest = wait_running fuel (suc n) client id in
    elim (client.container_inspect n id) [
      | none ↦ broke_off
      | some status ↦ if status == "running" then running else rest
    ]

abbrev pub is_prefix : List ℕ → List ℕ → Bool
is_prefix [] s = true
is_prefix (c ∷ cs) [] = false
is_prefix (c ∷ cs) (d ∷ s) = nat_beq c d && is_prefix cs s

-- strings.Contains
pub contains : List ℕ → List ℕ → Bool
contains [] needle = is_prefix needle []
contains (c ∷ s) needle = is_prefix needle (c ∷ s) || contains s needle

-- the scanner of grepLogs against its timer: whether the needle arrives in time
pub found_in_time : List (ℤ × List ℕ) → List ℕ → ℤ → Bool
found_in_time [] needle timeout = false
found_in_time ((at, line) ∷ lines) needle timeout =
    if contains line needle then leb_ℤ at timeout else found_in_time lines needle timeout

-- grepLogs: `none` is its panic
pub grep_logs : Client → String → List ℕ → ℤ → Option Bool
grep_logs client id needle timeout = elim (client.container_logs id) [
  | none ↦ none
  | some lines ↦ some (found_in_time lines needle timeout)
]

abbrev pub default_ready_timeout : ℤ
default_ready_timeout = pos 4_000_000_000

abbrev pub ready_timeout_of : ContainerSetup → ℤ
ready_timeout_of s =
    if ltb_ℤ (pos 0) s.ready_timeout then s.ready_timeout else default_ready_timeout

pub record Outcome : Type 0 where
  pub registry : Registry
  pub effects : List Effect
  pub result : Result String
  -- the goroutines started
  pub tasks : List Task

abbrev stopped_with : Registry → List Effect → String → CreateError → Outcome
stopped_with cm es id e = record {
  registry = cm;
  effects = es;
  result = err e;
  tasks = stop id ∷ [];
}

abbrev registered : Registry → List Effect → String → Outcome
registered cm es id = record {
  registry = register_container cm id;
  effects = es;
  result = ok id;
  tasks = [];
}

-- after grepLogs
pub awaited : Registry → List Effect → String → Option Bool → Outcome
awaited cm es id none = record { registry = cm; effects = es; result = err panics; tasks = [] }
awaited cm es id (some true) = registered cm es id
awaited cm es id (some false) = stopped_with cm es id not_ready

-- the wait for ReadyString, and the registration
pub await_ready : Registry → List Effect → Client → ContainerSetup → String → Outcome
await_ready cm es client s id = elim s.ready_string [
  | [] ↦ registered cm es id
  | c ∷ cs ↦ awaited cm es id (grep_logs client id s.ready_string (ready_timeout_of s))
]

-- after the loop of inspections; `none` as long as the container does not come up
pub after_wait : Registry → List Effect → Client → ContainerSetup → String → Wait → Option Outcome
after_wait cm es client s id pending = none
after_wait cm es client s id broke_off = some (stopped_with cm es id inspect_failed)
after_wait cm es client s id running = some (await_ready cm es client s id)

-- from ContainerStart on
pub start_container : ℕ → Registry → List Effect → Client → ContainerSetup → String → Option Outcome
start_container fuel cm es client s id =
    if not (client.container_start id)
    then some (stopped_with cm es id start_failed)
    else after_wait cm (es ++ started id ∷ []) client s id (wait_running fuel 0 client id)

abbrev gives_up : Registry → List Effect → CreateError → Outcome
gives_up cm es e = record { registry = cm; effects = es; result = err e; tasks = [] }

abbrev with_mounts :
    ℕ → Registry → Client → ContainerSetup → List Effect × Result (List Mount) → Option Outcome
with_mounts fuel cm client s (es, err e) = some (gives_up cm es e)
with_mounts fuel cm client s (es, ok ms) =
    elim (client.container_create (config_of s) (host_config_of s (base_mounts s ++ ms)) s.label) [
      | none ↦ some (gives_up cm es create_failed)
      | some id ↦ start_container fuel cm (es ++ created id ∷ []) client s id
    ]

-- CreateAndRunContainer
pub create_and_run_container : ℕ → Registry → Client → ContainerSetup → Option Outcome
create_and_run_container fuel cm client s =
    if not (client.mkdir s.working_dir)
    then some (gives_up cm [] mkdir_failed)
    else with_mounts fuel cm client s (volume_mounts client s.cache_volume s.cache_volume_mount)
