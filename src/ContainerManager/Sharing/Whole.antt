-- ===== src/ContainerManager/Sharing/Whole.antt =====
-- A whole Execute of containermanager/containers.go among the goroutines that share the registry.
use goblocks.Prelude.Eq.{nat_eq, int_eq, string_eq}
use goblocks.Prelude.Map.{get, put}
use goblocks.Prelude.{ℕ, String, ◌≡◌, refl, sym, ◌∙◌, true, false, Option, some, List, [], ◌++◌}
use goblocks.ContainerManager.Registry.{Registry, busy, container_exist, is_busy, set_busy}
use goblocks.ContainerManager.Limits.{RuntimeLimits}
use goblocks.ContainerManager.Execute.{
  ContainerPipe, Docker, Outcome, execute, create_executor, with_stderr,
}
use goblocks.ContainerManager.Sharing.{
  Work, claimed, tasks_of, system, begins, ends, ◌⟶*◌, here, after_step,
}

free_accepted :
    (cm : Registry) (id : String)
    → is_busy (get cm id) ≡ false
    → set_busy cm id ≡ (put cm id busy, true)
unfolding set_busy
free_accepted cm id h = rw (h) refl

abbrev with_stdout : ℕ → Option ℕ → ContainerPipe
with_stdout ch err = record { std_out = some ch; std_err = err }

execute-claimed :
    (cm : Registry) (id : String) (ch : ℕ) (err : Option ℕ) (limits : RuntimeLimits) (d : Docker)
    → is_busy (get cm id) ≡ false
    → execute cm id (with_stdout ch err) limits d
      ≡ claimed (put cm id busy) id (with_stderr (with_stdout ch err)) limits d
unfolding execute create_executor claimed
execute-claimed cm id ch err limits d h = rw (free_accepted cm id h) refl

-- An Execute of a registered container that is free, with stdout set, is a beginning and an end of
-- the shared system, with the registry and the tasks that the sequential Execute leaves.
pub execute-steps :
    (cm : Registry) (ws : List Work) (id : String) (ch : ℕ) (err : Option ℕ)
    (limits : RuntimeLimits) (d : Docker) (o : Outcome)
    → container_exist cm id ≡ true
    → is_busy (get cm id) ≡ false
    → execute cm id (with_stdout ch err) limits d ≡ some o
    → system cm ws ⟶* system o.registry (tasks_of o.tasks ++ ws)
execute-steps cm ws id ch err limits d o e h q = after_step (begins id e (free_accepted cm id h)) (
    after_step
      (ends [] ws id (with_stderr (with_stdout ch err)) limits d o
        (sym (execute-claimed cm id ch err limits d h) ∙ q))
      here)
