-- ===== src/ContainerManager/Create/Tests.antt =====
-- The theorems on CreateAndRunContainer at concrete inputs.
use goblocks.Prelude.Eq.{nat_eq, int_eq, string_eq}
use goblocks.Prelude.Int.{pos}
use goblocks.Prelude.Map.{get, put}
use goblocks.Prelude.{◌≡◌, refl, true, false, none, some, [], ◌∷◌, arith, nat_beq, if◌then◌else◌}
use goblocks.ContainerManager.Registry.{Registry, register_container}
use goblocks.ContainerManager.Execute.{stop, stop_container}
use goblocks.ContainerManager.Create
use goblocks.ContainerManager.Create.{
  ContainerSetup, Client, Outcome, not_found, err, ok, started, start_failed,
  create_and_run_container, start_container, after_wait, await_ready, volume_mounts, ensure_volume,
  wait_running, running,
}
use goblocks.ContainerManager.Create.Start.{
  Leaves, create_and_run_container-Leaves, created_in, failed_create_leaks, wait_running_ends,
}

abbrev setup : ContainerSetup
setup = record {
  image = "golang";
  default_cmd = false;
  ready_string = [];
  ready_timeout = pos 0;
  working_dir = "/tmp/w";
  working_dir_ro = true;
  cache_volume = "v" ∷ [];
  cache_volume_mount = "/v" ∷ [];
  label = "runner-go";
  ram = 64;
  cpus = 500;
  net = false;
  tmp_dir = 8;
}

abbrev client : Client
client = record {
  mkdir = λ d. true;
  volume_inspect = λ v. not_found;
  volume_create = λ v. true;
  container_create = λ c h l. some "x";
  container_start = λ id. true;
  container_inspect = λ n id. some (if nat_beq n 2 then "running" else "created");
  container_logs = λ id. none;
}

abbrev broken : Client
broken = record client { container_start = λ id. false }

abbrev good : Outcome
good = record {
  registry = ("x", goblocks.ContainerManager.Registry.idle) ∷ [];
  effects = Create.created_volume "v" ∷ Create.created "x" ∷ started "x" ∷ [];
  result = ok "x";
  tasks = [];
}

creates : create_and_run_container 3 [] client setup ≡ some good
unfolding create_and_run_container start_container after_wait await_ready volume_mounts
    ensure_volume wait_running register_container put
creates = refl

create_and_run_container-Leaves_example : Leaves [] good (ok "x")
create_and_run_container-Leaves_example =
    create_and_run_container-Leaves 3 [] client setup good creates

abbrev bad : Outcome
bad = record {
  registry = [];
  effects = Create.created_volume "v" ∷ Create.created "x" ∷ [];
  result = err start_failed;
  tasks = stop "x" ∷ [];
}

fails_to_start : create_and_run_container 3 [] broken setup ≡ some bad
unfolding create_and_run_container start_container volume_mounts ensure_volume
fails_to_start = refl

unregistered_is_kept :
    (created_in "x" bad.effects ≡ true) × (stop_container [] "x" false true true ≡ ([], false))
unfolding get
unregistered_is_kept =
    failed_create_leaks 3 [] broken setup bad start_failed "x" [] true true fails_to_start refl refl
      refl

wait_running_ends_tried : wait_running 3 0 client "x" ≡ running
wait_running_ends_tried =
    wait_running_ends client "x" 2 0 3 (("created", refl, refl), (("created", refl, refl), refl))
      (omega arith)
