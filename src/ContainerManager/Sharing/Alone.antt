-- ===== src/ContainerManager/Sharing/Alone.antt =====
-- At most one goroutine works on a container of containermanager/containers.go.
use goblocks.Prelude.Eq.{◌==◌, nat_eq, int_eq, string_eq}
use goblocks.Prelude.Map.{get, put, get-put}
use goblocks.Prelude.{
  ℕ, ◌+◌, ◌≤◌, String, ◌≡◌, inl, inr, Bool, true, false, some, List, [], ◌∷◌, ◌++◌, arith,
  if◌then◌else◌, Bool-cases, Option-cases,
}
use mathlib.Core.Path.{subst}
use goblocks.ContainerManager.Registry.{
  idle, busy, Registry, container_exist, register_container, unregister_container, is_busy,
  set_busy, set_idle,
}
use goblocks.ContainerManager.Execute.{
  Task, teardown, stop, Outcome, stop_container, run_task, teardown_container,
}
use goblocks.ContainerManager.Sharing.{
  Work, executing, runs, container_of, tasks_of, workers, System, system, ◌⟶◌, begins, ends,
  task_ends, creates, stops, ◌⟶*◌, here, after_step,
}
use goblocks.ContainerManager.Sharing.Ended.{
  room, room_le, EndsIf, le_self, delete-room, claimed-EndsIf,
}

-- At most one goroutine works on a container, and none on one that the registry has as idle.
abbrev pub IsAlone : System → Type 0
IsAlone s = (id : String) → workers id s.works ≤ room (get s.registry id)

pub workers-append :
    (id : String) (xs ys : List Work) → workers id (xs ++ ys) ≡ workers id xs + workers id ys
workers-append id [] ys = omega arith
workers-append id (x ∷ xs) ys = ground (arith, workers-append id xs ys)

pub set_busy_accepted :
    (cm cm' : Registry) (id : String)
    → set_busy cm id ≡ (cm', true)
    → (is_busy (get cm id) ≡ false) × (put cm id busy ≡ cm')
unfolding set_busy
set_busy_accepted cm cm' id h = ground (arith, h)

idle_exists :
    (cm : Registry) (id : String)
    → container_exist cm id ≡ true
    → is_busy (get cm id) ≡ false
    → room (get cm id) ≡ 0
unfolding container_exist
idle_exists cm id e b = ground (arith, e, b)

-- a container of its own, or another
begins-room :
    (cm : Registry) (ws : List Work) (id j : String)
    → room (get cm id) ≡ 0
    → IsAlone (system cm ws)
    → workers j (executing id ∷ ws) ≤ room (get (put cm id busy) j)
begins-room cm ws id j e h = elim (Bool-cases (id == j)) [
  | inl q ↦
      let same : id ≡ j = (string_eq.beq_iff id j).0 q in
      rw (get-put cm id j busy, q) (ground (arith, h id, e, same))
  | inr q ↦ rw (get-put cm id j busy, q) (ground (arith, h j))
]

sum_le : (b t t' a r r' : ℕ) → b + (t' + a) ≤ r → t ≤ t' → r ≤ r' → b + (t + a) ≤ r'
sum_le b t t' a r r' h k l = omega (arith, h, k, l)

-- the work `w` is replaced by others, and there is no less room
replaced-IsAlone :
    (cm cm' : Registry) (before after ws : List Work) (w : Work)
    → ((j : String)
        → (workers j ws ≤ (if container_of w == j then 1 else 0))
          × (room (get cm j) ≤ room (get cm' j)))
    → IsAlone (system cm (before ++ w ∷ after))
    → IsAlone (system cm' (before ++ (ws ++ after)))
replaced-IsAlone cm cm' before after ws w e h j =
    let was = subst (λ n. n ≤ room (get cm j)) (workers-append j before (w ∷ after)) (h j) in
    let sum =
      sum_le (workers j before) (workers j ws) (if container_of w == j then 1 else 0)
        (workers j after) (room (get cm j)) (room (get cm' j)) was (e j).0 (e j).1 in
    rw (workers-append j before (ws ++ after), workers-append j ws after) sum

stopped-room :
    (cm : Registry) (id : String) (force stop_ok remove_ok : Bool) (j : String)
    → room (get cm j) ≤ room (get (stop_container cm id force stop_ok remove_ok).0 j)
unfolding stop_container container_exist unregister_container
stopped-room cm id force stop_ok remove_ok j =
    ground (arith, delete-room cm id j, le_self (room (get cm j)))

set_idle-room :
    (cm : Registry) (ws : List Work) (id j : String)
    → (if id == j then 1 else 0) + workers j ws ≤ room (get cm j)
    → workers j ws ≤ room (get (set_idle cm id) j)
unfolding set_idle
set_idle-room cm ws id j h = elim (Option-cases (get cm id)) [
  | inl q ↦ rw (set_idle, q) (omega (arith, h))
  | inr (st, q) ↦
      rw (set_idle, q)
        (elim (Bool-cases (id == j)) [
          | inl b ↦ rw (get-put cm id j idle, b) (ground (arith, h, b, room_le (get cm j)))
          | inr b ↦ rw (get-put cm id j idle, b) (ground (arith, h, b))
        ])
]

trans_le : (a b c r : ℕ) → a + b ≤ c → c ≤ r → b ≤ r
trans_le a b c r h k = omega (arith, h, k)

-- a task ends: its container is idle, gone or as it was
ended_task-room :
    (cm : Registry) (ws : List Work) (t : Task) (stop_ok remove_ok : Bool) (j : String)
    → (if container_of (runs t) == j then 1 else 0) + workers j ws ≤ room (get cm j)
    → workers j ws ≤ room (get (run_task cm true stop_ok remove_ok t) j)
unfolding run_task teardown_container
ended_task-room cm ws (teardown id) stop_ok remove_ok j h = set_idle-room cm ws id j h
ended_task-room cm ws (stop id) stop_ok remove_ok j h =
    trans_le (if id == j then 1 else 0) (workers j ws) (room (get cm j))
      (room (get (stop_container cm id false stop_ok remove_ok).0 j)) h
      (stopped-room cm id false stop_ok remove_ok j)

creates-room :
    (cm : Registry) (ws : List Work) (id j : String)
    → workers id ws ≡ 0
    → workers j ws ≤ room (get cm j)
    → workers j ws ≤ room (get (register_container cm id) j)
unfolding register_container
creates-room cm ws id j e h = elim (Bool-cases (id == j)) [
  | inl q ↦
      let same : id ≡ j = (string_eq.beq_iff id j).0 q in
      rw (get-put cm id j idle, q) (ground (arith, e, same))
  | inr q ↦ rw (get-put cm id j idle, q) (ground (arith, h))
]

ends-IsAlone :
    (cm : Registry) (before after : List Work) (id : String) (o : Outcome)
    → EndsIf cm id (some o)
    → IsAlone (system cm (before ++ executing id ∷ after))
    → IsAlone (system o.registry (before ++ (tasks_of o.tasks ++ after)))
ends-IsAlone cm before after id o e h =
    replaced-IsAlone cm o.registry before after (tasks_of o.tasks) (executing id)
      (λ j. ((e j).0, (e j).1)) h

swap_sum : (b x a r : ℕ) → b + (x + a) ≤ r → x + (b + a) ≤ r
swap_sum b x a r h = omega (arith, h)

task_ends-IsAlone :
    (cm : Registry) (before after : List Work) (t : Task) (stop_ok remove_ok : Bool)
    → IsAlone (system cm (before ++ runs t ∷ after))
    → IsAlone (system (run_task cm true stop_ok remove_ok t) (before ++ after))
task_ends-IsAlone cm before after t stop_ok remove_ok h j =
    let x = if container_of (runs t) == j then 1 else 0 in
    let was : workers j before + (x + workers j after) ≤ room (get cm j) =
      subst (λ n. n ≤ room (get cm j)) (workers-append j before (runs t ∷ after)) (h j) in
    ended_task-room cm (before ++ after) t stop_ok remove_ok j (
      rw (workers-append j before after)
        (swap_sum (workers j before) x (workers j after) (room (get cm j)) was))

le_trans : (b c r : ℕ) → b ≤ c → c ≤ r → b ≤ r
le_trans b c r h k = omega (arith, h, k)

step-IsAlone : {s t : System} → s ⟶ t → IsAlone s → IsAlone t
step-IsAlone (begins {cm} {cm'} {ws} id e b) h j =
    let accepted = set_busy_accepted cm cm' id b in
    subst (λ d. workers j (executing id ∷ ws) ≤ room (get d j)) accepted.1
      (begins-room cm ws id j (idle_exists cm id e accepted.0) h)
step-IsAlone (ends {cm} before after id pipe limits d o q) h j =
    ends-IsAlone cm before after id o (subst (EndsIf cm id) q (claimed-EndsIf cm id pipe limits d))
      h j
step-IsAlone (task_ends {cm} before after t stop_ok remove_ok) h j =
    task_ends-IsAlone cm before after t stop_ok remove_ok h j
step-IsAlone (creates {cm} {ws} id e fresh) h j = creates-room cm ws id j e (h j)
step-IsAlone (stops {cm} {ws} id force stop_ok remove_ok) h j =
    le_trans (workers j ws) (room (get cm j))
      (room (get (stop_container cm id force stop_ok remove_ok).0 j)) (h j)
      (stopped-room cm id force stop_ok remove_ok j)

-- Goroutines that execute only registered containers, in any interleaving of their calls of the
-- registry, and of containers with new IDs being created and of StopContainer: if at most one worked
-- on a container at first, and none on an idle one, then so it is ever after, whatever Docker answers.
pub steps-IsAlone : {s t : System} → s ⟶* t → IsAlone s → IsAlone t
steps-IsAlone here h = h
steps-IsAlone (after_step r rs) h = steps-IsAlone rs (step-IsAlone r h)
