-- ===== src/ContainerManager/Sharing/Lost.antt =====
-- What becomes of a container of containermanager/containers.go that is busy and that no goroutine works
-- on: after the errors of Execute at which nobody frees it.
use goblocks.Prelude.Eq.{◌==◌, nat_eq, int_eq, string_eq}
use goblocks.Prelude.Map.{get, get-put, get-delete}
use goblocks.Prelude.{
  ℕ, ◌+◌, ◌≤◌, String, ◌≡◌, sym, ap, ◌∙◌, inl, inr, Bool, true, false, not, some, List, ◌∷◌, ◌++◌,
  arith, if◌then◌else◌, Bool-cases,
}
use mathlib.Core.Path.{subst}
use goblocks.ContainerManager.Registry.{
  idle, busy, Registry, container_exist, register_container, set_busy, set_idle,
}
use goblocks.ContainerManager.Registry.Exclusion.{set_busy_refuses}
use goblocks.ContainerManager.Execute.{Task, teardown, stop, run_task, stop_container}
use goblocks.ContainerManager.Registry.{unregister_container}
use goblocks.ContainerManager.Execute.{teardown_container}
use goblocks.ContainerManager.Sharing.Ended.{EndsIf, claimed-EndsIf}
use goblocks.ContainerManager.Sharing.Alone.{workers-append, set_busy_accepted}
use goblocks.ContainerManager.Sharing.{
  Work, executing, runs, container_of, tasks_of, workers, System, system, ◌⟶◌, begins, ends,
  task_ends, creates, stops, ◌⟶*◌, here, after_step,
}

-- busy, and nobody works on it
abbrev pub IsLost : String → System → Type 0
IsLost id s = (get s.registry id ≡ some busy) × (workers id s.works ≡ 0)

-- no step is a call of StopContainer for `id`
abbrev pub stops_other : {s t : System} → String → s ⟶ t → Bool
stops_other id (stops j force stop_ok remove_ok) = not (j == id)
stops_other id (begins j e b) = true
stops_other id (ends before after j pipe limits d o q) = true
stops_other id (task_ends before after t stop_ok remove_ok) = true
stops_other id (creates j e fresh) = true

abbrev pub NeverStopped : {s t : System} → String → s ⟶* t → Type 0
NeverStopped id here = Unit {0}
NeverStopped id (after_step r rs) = (stops_other id r ≡ true) × NeverStopped id rs

set_busy_elsewhere :
    (cm cm' : Registry) (ws : List Work) (j id : String)
    → set_busy cm j ≡ (cm', true)
    → IsLost id (system cm ws)
    → (j == id) ≡ false
set_busy_elsewhere cm cm' ws j id b h = elim (Bool-cases (j == id)) [
  | inl q ↦
      let same : j ≡ id = (string_eq.beq_iff j id).0 q in
      let refused = set_busy_refuses cm j (ap (get cm) same ∙ h.0) in absurd (cc (b, refused))
  | inr q ↦ q
]

begins-IsLost :
    (cm cm' : Registry) (ws : List Work) (j id : String)
    → set_busy cm j ≡ (cm', true)
    → IsLost id (system cm ws)
    → IsLost id (system cm' (executing j ∷ ws))
begins-IsLost cm cm' ws j id b h =
    let other = set_busy_elsewhere cm cm' ws j id b h in
    let accepted = set_busy_accepted cm cm' j b in
    (
      ap (λ d. get d id) (sym accepted.1) ∙ get-put cm j id busy ∙ (rw (other) h.0),
      (rw (other) (ground (arith, h.1))),
    )

-- nobody works on `id`, so the goroutine that makes a step works elsewhere
works_elsewhere :
    (id : String) (before after : List Work) (w : Work)
    → workers id (before ++ w ∷ after) ≡ 0
    → ((container_of w == id) ≡ false) × (workers id before + workers id after ≡ 0)
works_elsewhere id before after w h =
    let sum = sym (workers-append id before (w ∷ after)) ∙ h in ground (arith, sum)

set_idle_elsewhere :
    (cm : Registry) (j id : String) → (j == id) ≡ false → get (set_idle cm j) id ≡ get cm id
unfolding set_idle
set_idle_elsewhere cm j id q = ground (arith, q, get-put cm j id idle)

stop_elsewhere :
    (cm : Registry) (j id : String) (force stop_ok remove_ok : Bool)
    → (j == id) ≡ false
    → get (stop_container cm j force stop_ok remove_ok).0 id ≡ get cm id
unfolding stop_container unregister_container
stop_elsewhere cm j id force stop_ok remove_ok q = ground (arith, q, get-delete cm j id)

run_task_elsewhere :
    (cm : Registry) (t : Task) (id : String) (stop_ok remove_ok : Bool)
    → (container_of (runs t) == id) ≡ false
    → get (run_task cm true stop_ok remove_ok t) id ≡ get cm id
unfolding run_task teardown_container
run_task_elsewhere cm (teardown j) id stop_ok remove_ok q = set_idle_elsewhere cm j id q
run_task_elsewhere cm (stop j) id stop_ok remove_ok q =
    stop_elsewhere cm j id false stop_ok remove_ok q

creates_elsewhere :
    (cm : Registry) (j id : String)
    → container_exist cm j ≡ false
    → get cm id ≡ some busy
    → get (register_container cm j) id ≡ some busy
unfolding register_container container_exist
creates_elsewhere cm j id e h = elim (Bool-cases (j == id)) [
  | inl q ↦
      let same : j ≡ id = (string_eq.beq_iff j id).0 q in
      let at_j : get cm j ≡ some busy = ap (get cm) same ∙ h in absurd (ground (arith, e, at_j))
  | inr q ↦ get-put cm j id idle ∙ (rw (q) h)
]

no_more : (b t a : ℕ) → t ≤ 0 → b + a ≡ 0 → b + (t + a) ≡ 0
no_more b t a h k = omega (arith, h, k)

step-IsLost :
    {s t : System} (id : String) (r : s ⟶ t) → stops_other id r ≡ true → IsLost id s → IsLost id t
step-IsLost id (begins {cm} {cm'} {ws} j e b) n h = begins-IsLost cm cm' ws j id b h
step-IsLost id (ends {cm} before after j pipe limits d o q) n h =
    let elsewhere = works_elsewhere id before after (executing j) h.1 in
    let ended = subst (EndsIf cm j) q (claimed-EndsIf cm j pipe limits d) id in
    (
      ended.2 elsewhere.0 ∙ h.0,
      workers-append id before (tasks_of o.tasks ++ after)
          ∙ ap (λ n. workers id before + n) (workers-append id (tasks_of o.tasks) after)
          ∙ no_more (workers id before) (workers id (tasks_of o.tasks)) (workers id after)
              (subst (λ b. workers id (tasks_of o.tasks) ≤ (if b then 1 else 0)) elsewhere.0
                ended.0)
              elsewhere.1,
    )
step-IsLost id (task_ends {cm} before after t stop_ok remove_ok) n h =
    let elsewhere = works_elsewhere id before after (runs t) h.1 in
    (
      run_task_elsewhere cm t id stop_ok remove_ok elsewhere.0 ∙ h.0,
      workers-append id before after ∙ elsewhere.1,
    )
step-IsLost id (creates {cm} {ws} j e fresh) n h = (creates_elsewhere cm j id fresh h.0, h.1)
step-IsLost id (stops {cm} {ws} j force stop_ok remove_ok) n h =
    (stop_elsewhere cm j id force stop_ok remove_ok (ground (arith, n)) ∙ h.0, h.1)

-- A container that is busy and that no goroutine works on stays so, through any interleaving of the
-- goroutines' calls, until StopContainer is called for it from outside.
pub steps-IsLost :
    {s t : System} (id : String) (rs : s ⟶* t) → NeverStopped id rs → IsLost id s → IsLost id t
steps-IsLost id here n h = h
steps-IsLost id (after_step r rs) n h = steps-IsLost id rs n.1 (step-IsLost id r n.0 h)
