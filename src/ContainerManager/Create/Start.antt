-- ===== src/ContainerManager/Create/Start.antt =====
-- What CreateAndRunContainer of containermanager/containers.go leaves, when it succeeds and when it fails.
use goblocks.Prelude.Eq.{◌==◌, ==_refl, nat_eq, int_eq, string_eq}
use goblocks.Prelude.Map.{get}
use goblocks.Prelude.{
  ℕ, zero, suc, ◌<◌, String, ◌≡◌, refl, sym, ◌∙◌, ◌⊎◌, inl, inr, Bool, true, false, ◌||◌, Option,
  none, some, List, [], ◌∷◌, ◌++◌, arith, Bool-cases, Option-cases,
}
use mathlib.Core.Path.{subst}
use goblocks.ContainerManager.Registry.{Registry, register_container, container_exist}
use goblocks.ContainerManager.Execute.{Task, stop, stop_container}
use goblocks.ContainerManager.Create.{
  ContainerSetup, Mount, Client, Effect, created_volume, created, started, CreateError,
  start_failed, inspect_failed, not_ready, Result, ok, err, config_of, base_mounts, host_config_of,
  Wait, running, broke_off, pending, wait_running, Outcome, stopped_with, registered, awaited,
  after_wait, await_ready, start_container, with_mounts, create_and_run_container,
}

List-cases : (xs : List ℕ) → (xs ≡ []) ⊎ ((c : ℕ) × (cs : List ℕ) × (xs ≡ c ∷ cs))
List-cases [] = inl refl
List-cases (c ∷ cs) = inr (c, cs, refl)

stop_injective : (i j : String) (ts us : List Task) → stop i ∷ ts ≡ stop j ∷ us → i ≡ j
stop_injective i j ts us h = cc

-- Docker was made to create the container.
abbrev pub created_in : String → List Effect → Bool
created_in id [] = false
created_in id (created j ∷ es) = (j == id) || created_in id es
created_in id (_ ∷ es) = created_in id es

created_in_last :
    (id : String) (es fs : List Effect) → created_in id fs ≡ true → created_in id (es ++ fs) ≡ true
created_in_last id [] fs h = h
created_in_last id (created j ∷ es) fs h = ground (arith, created_in_last id es fs h)
created_in_last id (created_volume v ∷ es) fs h = created_in_last id es fs h
created_in_last id (started j ∷ es) fs h = created_in_last id es fs h

created_in_first :
    (id : String) (es fs : List Effect) → created_in id es ≡ true → created_in id (es ++ fs) ≡ true
created_in_first id [] fs h = cc
created_in_first id (created j ∷ es) fs h = ground (arith, created_in_first id es fs)
created_in_first id (created_volume v ∷ es) fs h = created_in_first id es fs h
created_in_first id (started j ∷ es) fs h = created_in_first id es fs h

-- What a call on the registry `cm` leaves, by its result.
abbrev pub Leaves : Registry → Outcome → Result String → Type 0
Leaves cm o (ok id) =
    (o.registry ≡ register_container cm id)
    × ((es : List Effect) × (o.effects ≡ es ++ started id ∷ []) × (created_in id es ≡ true))
    × (o.tasks ≡ [])
Leaves cm o (err e) =
    (o.registry ≡ cm)
    × ((o.tasks ≡ [])
        ⊎ ((id : String) × (o.tasks ≡ stop id ∷ []) × (created_in id o.effects ≡ true)))

abbrev LeavesIf : Registry → Option Outcome → Type 0
LeavesIf cm none = Unit
LeavesIf cm (some o) = Leaves cm o o.result

module _ (cm : Registry) (client : Client) (s : ContainerSetup) where
  registered-Leaves :
      (es : List Effect) (id : String)
      → created_in id es ≡ true
      → Leaves cm (registered cm (es ++ started id ∷ []) id) (ok id)
  registered-Leaves es id h = (refl, (es, refl, h), refl)

  stopped_with-Leaves :
      (es : List Effect) (id : String) (e : CreateError)
      → created_in id es ≡ true
      → Leaves cm (stopped_with cm es id e) (err e)
  stopped_with-Leaves es id e h = (refl, inr (id, refl, h))

  awaited-Leaves :
      (es : List Effect) (id : String) (r : Option Bool)
      → created_in id es ≡ true
      → LeavesIf cm (some (awaited cm (es ++ started id ∷ []) id r))
  unfolding awaited
  awaited-Leaves es id none h = (refl, inl refl)
  awaited-Leaves es id (some true) h = registered-Leaves es id h
  awaited-Leaves es id (some false) h =
      stopped_with-Leaves (es ++ started id ∷ []) id not_ready (created_in_first id es _ h)

  await_ready-Leaves :
      (es : List Effect) (id : String)
      → created_in id es ≡ true
      → LeavesIf cm (some (await_ready cm (es ++ started id ∷ []) client s id))
  unfolding await_ready
  await_ready-Leaves es id h = elim (List-cases s.ready_string) [
    | inl e ↦ rw (e, await_ready) (registered-Leaves es id h)
    | inr (c, cs, e) ↦ rw (e, await_ready) (awaited-Leaves es id _ h)
  ]

  after_wait-LeavesIf :
      (es : List Effect) (id : String) (w : Wait)
      → created_in id es ≡ true
      → LeavesIf cm (after_wait cm (es ++ started id ∷ []) client s id w)
  unfolding after_wait
  after_wait-LeavesIf es id pending h = tt
  after_wait-LeavesIf es id broke_off h =
      stopped_with-Leaves (es ++ started id ∷ []) id inspect_failed (created_in_first id es _ h)
  after_wait-LeavesIf es id running h = await_ready-Leaves es id h

  start_container-LeavesIf :
      (fuel : ℕ) (es : List Effect) (id : String)
      → created_in id es ≡ true
      → LeavesIf cm (start_container fuel cm es client s id)
  unfolding start_container
  start_container-LeavesIf fuel es id h = elim (Bool-cases (client.container_start id)) [
    | inl e ↦ rw (e, start_container) (after_wait-LeavesIf es id _ h)
    | inr e ↦ rw (e, start_container) (stopped_with-Leaves es id start_failed h)
  ]

  with_mounts-LeavesIf :
      (fuel : ℕ) (r : List Effect × Result (List Mount))
      → LeavesIf cm (with_mounts fuel cm client s r)
  with_mounts-LeavesIf fuel (es, err e) = (refl, inl refl)
  with_mounts-LeavesIf fuel (es, ok ms) =
      elim (Option-cases
        (client.container_create (config_of s) (host_config_of s (base_mounts s ++ ms)) s.label)) [
          | inl e ↦ rw (e, with_mounts) (refl, inl refl)
          | inr (id, e) ↦
              rw (e, with_mounts)
                (start_container-LeavesIf fuel (es ++ created id ∷ []) id
                  (created_in_last id es (created id ∷ []) (rw (==_refl id))))
        ]

  create-LeavesIf : (fuel : ℕ) → LeavesIf cm (create_and_run_container fuel cm client s)
  unfolding create_and_run_container
  create-LeavesIf fuel = elim (Bool-cases (client.mkdir s.working_dir)) [
    | inl e ↦ rw (e, create_and_run_container) (with_mounts-LeavesIf fuel _)
    | inr e ↦ rw (e, create_and_run_container) (refl, inl refl)
  ]

-- A call that returns an ID has registered that container as idle, after Docker created and then
-- started it, and started no task; one that fails has left the registry as it was, and the only task
-- that it may have started is to stop a container that it made Docker create.
pub create_and_run_container-Leaves :
    (fuel : ℕ) (cm : Registry) (client : Client) (s : ContainerSetup) (o : Outcome)
    → create_and_run_container fuel cm client s ≡ some o
    → Leaves cm o o.result
create_and_run_container-Leaves fuel cm client s o h =
    subst (LeavesIf cm) h (create-LeavesIf cm client s fuel)

unregistered_not_stopped :
    (cm : Registry) (id : String) (stop_ok remove_ok : Bool)
    → get cm id ≡ none
    → stop_container cm id false stop_ok remove_ok ≡ (cm, false)
unfolding stop_container container_exist
unregistered_not_stopped cm id stop_ok remove_ok h = rw (h, container_exist, stop_container)

-- The task with which a failed call would stop the new container does nothing, if the registry does
-- not hold that container's ID yet: ContainerStop is not called for a container that Docker was made
-- to create.
pub failed_create_leaks :
    (fuel : ℕ) (cm : Registry) (client : Client) (s : ContainerSetup) (o : Outcome)
    (e : CreateError) (id : String) (ts : List Task) (stop_ok remove_ok : Bool)
    → create_and_run_container fuel cm client s ≡ some o
    → o.result ≡ err e
    → o.tasks ≡ stop id ∷ ts
    → get cm id ≡ none
    → (created_in id o.effects ≡ true)
      × (stop_container o.registry id false stop_ok remove_ok ≡ (cm, false))
failed_create_leaks fuel cm client s o e id ts stop_ok remove_ok h r t g =
    let (same, how) =
      subst (Leaves cm o) r (create_and_run_container-Leaves fuel cm client s o h) in
    elim how [
      | inl t' ↦ absurd (cc)
      | inr (j, t', c) ↦
          let i : j ≡ id = stop_injective j id [] ts (sym t' ∙ t) in
          (rw (← i) c, rw same (unregistered_not_stopped cm id stop_ok remove_ok g))
    ]

-- The container shows "running" at the inspection `k`, and the ones from `n` on to that show
-- another status and no error.
abbrev pub ComesUp : Client → String → ℕ → ℕ → Type 0
ComesUp client id n zero = client.container_inspect n id ≡ some "running"
ComesUp client id n (suc k) =
    ((status : String) × (client.container_inspect n id ≡ some status)
      × ((status == "running") ≡ false))
    × ComesUp client id (suc n) k

-- The wait for a container that comes up after `k` more rounds ends with "running", given fuel for
-- more than `k` rounds.
pub wait_running_ends :
    (client : Client) (id : String) (k n fuel : ℕ)
    → ComesUp client id n k
    → k < fuel
    → wait_running fuel n client id ≡ running
unfolding wait_running
wait_running_ends client id k n zero u h = absurd (omega arith)
wait_running_ends client id zero n (suc fuel) u h = rw (u, wait_running)
wait_running_ends client id (suc k) n (suc fuel) ((status, e, other), u) h =
    rw (e, wait_running) (rw other (wait_running_ends client id k (suc n) fuel u (omega arith)))
