-- ===== src/ContainerManager/Execute/Outcomes.antt =====
-- How Execute of containermanager/containers.go ends, on every path, and what becomes of the container.
use goblocks.Prelude.Eq.{nat_eq, int_eq, string_eq}
use goblocks.Prelude.Int.{pos}
use goblocks.Prelude.Map.{get, put}
use goblocks.Prelude.{
  ℕ, String, ◌≡◌, refl, ap, ◌∙◌, ◌⊎◌, inl, inr, Bool, true, false, Option, none, some, List, [],
  ◌∷◌, Bool-cases, Option-cases,
}
use goblocks.ContainerManager.Registry.{
  Registry, ContainerState, idle, busy, unregister_container, container_exist,
}
use goblocks.ContainerManager.Registry.Exclusion.{
  set_busy_refuses, set_busy_cases, set_idle_busy, delete_gone,
}
use mathlib.Core.Path.{subst}
use goblocks.ContainerManager.Limits.{RuntimeLimits, get_current_stats}
use goblocks.ContainerManager.Execute.{
  ContainerPipe, ExecCreate, created, no_such_container, fails, Docker, ExecError, stdout_not_set,
  does_not_exist, busy_container, create_failed, attach_failed, no_zero_state, inspect_failed,
  limit, Task, teardown, stop, Outcome, code_resource_limit, Watched, finished, over, waiting,
  conclude, exec_attach, create_executor, dispatch, execute, stop_container, run_task,
  teardown_container,
}

-- How an Execute of `id` on the registry `cm` ends with the outcome `o`, by its error.
abbrev pub Ends : Registry → String → Outcome → Option ExecError → Type 0
Ends cm id o none = (get o.registry id ≡ some busy) × (o.tasks ≡ teardown id ∷ [])
Ends cm id o (some (limit e)) =
    (get o.registry id ≡ some busy) × (o.tasks ≡ stop id ∷ []) × (o.code ≡ code_resource_limit)
Ends cm id o (some stdout_not_set) = (o.registry ≡ cm) × (o.tasks ≡ [])
Ends cm id o (some busy_container) = (get cm id ≡ some busy) × (o.registry ≡ cm) × (o.tasks ≡ [])
Ends cm id o (some does_not_exist) = (get o.registry id ≡ none) × (o.tasks ≡ [])
Ends cm id o (some _) = (get o.registry id ≡ some busy) × (o.tasks ≡ [])

abbrev EndsIf : Registry → String → Option Outcome → Type 0
EndsIf cm id none = Unit
EndsIf cm id (some o) = Ends cm id o o.error

module _ (start cm : Registry) (id : String) (pipe : ContainerPipe) (limits : RuntimeLimits)
    (d : Docker) where
  conclude-EndsIf :
      (start_cpu start_net : ℕ) (w : Watched)
      → get cm id ≡ some busy
      → EndsIf start id (conclude cm id pipe limits d start_cpu start_net w)
  unfolding conclude
  conclude-EndsIf start_cpu start_net waiting b = tt
  conclude-EndsIf start_cpu start_net (over e cpu net) b = (b, refl, refl)
  conclude-EndsIf start_cpu start_net finished b = elim (Option-cases d.exec_inspect) [
    | inl e ↦ rw (e, conclude) (b, refl)
    | inr (code, e) ↦ rw (e, conclude) (b, refl)
  ]

  exec_attach-EndsIf : get cm id ≡ some busy → EndsIf start id (exec_attach cm id pipe limits d)
  unfolding exec_attach
  exec_attach-EndsIf b = elim (Bool-cases d.exec_attach_ok) [
    | inr f ↦ rw (f, exec_attach) (b, refl)
    | inl ok ↦ elim (Option-cases (get_current_stats d.zero_stats)) [
      | inl e ↦ rw (ok, e, exec_attach) (b, refl)
      | inr ((start_cpu, start_net), e) ↦
          rw (ok, e, exec_attach) (conclude-EndsIf start_cpu start_net _ b)
    ]
  ]

ExecCreate-cases :
    (c : ExecCreate) → ((x : String) × (c ≡ created x)) ⊎ ((c ≡ no_such_container) ⊎ (c ≡ fails))
ExecCreate-cases (created x) = inl (x, refl)
ExecCreate-cases no_such_container = inr (inl refl)
ExecCreate-cases fails = inr (inr refl)

get-unregister : (cm : Registry) (id : String) → get (unregister_container cm id) id ≡ none
unfolding unregister_container
get-unregister cm id = delete_gone cm id

dispatch-EndsIf :
    (cm : Registry) (id : String) (pipe : ContainerPipe) (limits : RuntimeLimits) (d : Docker)
    → EndsIf cm id (dispatch id pipe limits d (create_executor cm id d))
unfolding create_executor
dispatch-EndsIf cm id pipe limits d = elim (set_busy_cases cm id) [
  | inl (b, s) ↦ rw s (b, refl, refl)
  | inr (b, s) ↦ elim (ExecCreate-cases d.exec_create) [
    | inl (x, c) ↦ rw (s, c) (exec_attach-EndsIf cm (put cm id busy) id pipe limits _ b)
    | inr (inl c) ↦ rw (s, c) (get-unregister (put cm id busy) id, refl)
    | inr (inr c) ↦ rw (s, c) (b, refl)
  ]
]

execute-EndsIf :
    (cm : Registry) (id : String) (pipe : ContainerPipe) (limits : RuntimeLimits) (d : Docker)
    → EndsIf cm id (execute cm id pipe limits d)
unfolding execute
execute-EndsIf cm id pipe limits d = elim (Option-cases pipe.std_out) [
  | inl e ↦ rw (e, execute) (refl, refl)
  | inr (ch, e) ↦ rw (e, execute) (dispatch-EndsIf cm id _ limits d)
]

stop_container_lem :
    (cm : Registry) (id : String) (s : ContainerState) (force : Bool)
    → get cm id ≡ some s
    → stop_container cm id force true true ≡ (unregister_container cm id, true)
unfolding stop_container container_exist
stop_container_lem cm id s force h = rw (h, container_exist, stop_container)

-- However an Execute ends, its error tells what it left: without an error, or over a limit (with the
-- code 301), the container is busy and the task that frees or stops it was started; if it was busy,
-- or stdout is not set, nothing changed; if Docker does not know the container, it is unregistered.
-- After any other error the container is busy and no task was started.
pub execute-Ends :
    (cm : Registry) (id : String) (pipe : ContainerPipe) (limits : RuntimeLimits) (d : Docker)
    (o : Outcome)
    → execute cm id pipe limits d ≡ some o
    → Ends cm id o o.error
execute-Ends cm id pipe limits d o h = subst (EndsIf cm id) h (execute-EndsIf cm id pipe limits d)

-- The registry after the tasks of an outcome have run, killAll returned, and Docker has stopped and
-- removed what it was asked to.
abbrev pub settled : Registry → List Task → Registry
settled cm [] = cm
settled cm (t ∷ ts) = settled (run_task cm true true true t) ts

-- The state of the container when the tasks have run, by the error of Execute.
abbrev pub settled_state : Registry → String → Option ExecError → Option ContainerState
settled_state cm id none = some idle
settled_state cm id (some (limit l)) = none
settled_state cm id (some does_not_exist) = none
settled_state cm id (some stdout_not_set) = get cm id
settled_state cm id (some _) = some busy

Ends-settled_state :
    (cm : Registry) (id : String) (o : Outcome) (e : Option ExecError)
    → Ends cm id o e
    → get (settled o.registry o.tasks) id ≡ settled_state cm id e
unfolding run_task teardown_container
Ends-settled_state cm id o none (b, t) = rw t (set_idle_busy o.registry id b)
Ends-settled_state cm id o (some (limit l)) (b, t, c) = rw t (
    ap (λ (r : Registry × Bool). get r.0 id) (stop_container_lem o.registry id busy false b)
    ∙ get-unregister o.registry id)
Ends-settled_state cm id o (some stdout_not_set) (r, t) = rw (r, t) refl
Ends-settled_state cm id o (some busy_container) (b, r, t) = rw (r, t) b
Ends-settled_state cm id o (some does_not_exist) (g, t) = rw t g
Ends-settled_state cm id o (some create_failed) (b, t) = rw t b
Ends-settled_state cm id o (some attach_failed) (b, t) = rw t b
Ends-settled_state cm id o (some no_zero_state) (b, t) = rw t b
Ends-settled_state cm id o (some inspect_failed) (b, t) = rw t b

-- The container after an Execute and the tasks that it started, by its error: idle if there was none;
-- unregistered if it went over a limit or Docker does not know it; as it was if stdout was not set;
-- and busy after any other error, which is that it was busy, or that its exec could not be created,
-- attached to or inspected, or that the first statistics were missing.
pub execute-settled_state :
    (cm : Registry) (id : String) (pipe : ContainerPipe) (limits : RuntimeLimits) (d : Docker)
    (o : Outcome)
    → execute cm id pipe limits d ≡ some o
    → get (settled o.registry o.tasks) id ≡ settled_state cm id o.error
execute-settled_state cm id pipe limits d o h =
    Ends-settled_state cm id o o.error (execute-Ends cm id pipe limits d o h)

-- Errors after which nothing frees the container.
abbrev pub is_stuck : ExecError → Bool
is_stuck create_failed = true
is_stuck attach_failed = true
is_stuck no_zero_state = true
is_stuck inspect_failed = true
is_stuck _ = false

stuck_busy :
    (cm : Registry) (id : String) (o : Outcome) (e : ExecError)
    → is_stuck e ≡ true
    → Ends cm id o (some e)
    → (get o.registry id ≡ some busy) × (o.tasks ≡ [])
stuck_busy cm id o create_failed s h = h
stuck_busy cm id o attach_failed s h = h
stuck_busy cm id o no_zero_state s h = h
stuck_busy cm id o inspect_failed s h = h
stuck_busy cm id o stdout_not_set s h = cc
stuck_busy cm id o does_not_exist s h = cc
stuck_busy cm id o busy_container s h = cc
stuck_busy cm id o (limit l) s h = cc

-- After an Execute that failed because an exec could not be created in a known container, attached
-- to or inspected, or because the first statistics were missing, no task is left to run, and every
-- later Execute with stdout set is refused as busy and leaves it so.
pub execute_stuck :
    (cm : Registry) (id : String) (pipe next : ContainerPipe) (limits : RuntimeLimits)
    (d later : Docker) (o : Outcome) (e : ExecError) (ch : ℕ)
    → execute cm id pipe limits d ≡ some o
    → o.error ≡ some e
    → is_stuck e ≡ true
    → next.std_out ≡ some ch
    → (o.tasks ≡ [])
      × ((p : Outcome) × (execute o.registry id next limits later ≡ some p)
          × (p.error ≡ some busy_container)
          × (p.registry ≡ o.registry)
          × (p.tasks ≡ []))
unfolding execute create_executor
execute_stuck cm id pipe next limits d later o e ch h err s out =
    let (b, t) =
      stuck_busy cm id o e s (subst (Ends cm id o) err (execute-Ends cm id pipe limits d o h)) in
    (
      t,
      (
        record {
          registry = o.registry;
          code = pos 0;
          error = some busy_container;
          consumed_sent = none;
          streams = none;
          tasks = [];
        },
        rw (out, execute) (rw (set_busy_refuses o.registry id b)),
        refl,
        refl,
        refl,
      ),
    )
