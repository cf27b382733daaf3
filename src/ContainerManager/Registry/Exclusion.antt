-- ===== src/ContainerManager/Registry/Exclusion.antt =====
-- Mutual exclusion by setBusy of containermanager/containers.go, and what Stats shows.
use goblocks.Prelude.Eq.{◌==◌, ==_refl, nat_eq, int_eq, string_eq}
use goblocks.Prelude.Int.{ℤ, ◌≤ℤ◌, ◌<ℤ◌}
use goblocks.Prelude.Map.{Map, Distinct, get, put, delete, get-put, get-delete}
use goblocks.Prelude.{
  String, ◌≡◌, refl, ◌∙◌, ◌⊎◌, inl, inr, true, false, Option, none, some, List, [], ◌∷◌, ◌++◌,
  arith, Bool-cases, Option-cases,
}
use goblocks.ContainerManager.Registry.{
  ContainerState, idle, busy, Registry, register_container, unregister_container, is_busy, set_busy,
  set_idle, state_name, stats_into, stats, became_idle, not_found, timed_out, wait_for_idle, Call,
  registers, unregisters, takes, frees, step, run,
}

-- No call registers, unregisters or frees `id`.
abbrev pub Holds : String → List Call → Type 0
Holds id [] = Unit
Holds id (registers j ∷ cs) = ((j == id) ≡ false) × Holds id cs
Holds id (unregisters j ∷ cs) = ((j == id) ≡ false) × Holds id cs
Holds id (frees j ∷ cs) = ((j == id) ≡ false) × Holds id cs
Holds id (takes j ∷ cs) = Holds id cs

set_busy-busy :
    (cm : Registry) (j id : String) → get cm id ≡ some busy → get (set_busy cm j).0 id ≡ some busy
unfolding set_busy
set_busy-busy cm j id h = elim (Bool-cases (is_busy (get cm j))) [
  | inl b ↦ rw (b, set_busy) h
  | inr b ↦ rw (b, set_busy) (get-put cm j id busy ∙ (ground (arith)))
]

set_idle_other :
    (cm : Registry) (j id : String) → (j == id) ≡ false → get (set_idle cm j) id ≡ get cm id
unfolding set_idle
set_idle_other cm j id h = elim (Option-cases (get cm j)) [
  | inl e ↦ rw (e, set_idle)
  | inr (s, e) ↦ rw (e, set_idle) (get-put cm j id idle ∙ (rw h))
]

step-busy :
    (cm : Registry) (c : Call) (id : String)
    → Holds id (c ∷ [])
    → get cm id ≡ some busy
    → get (step cm c) id ≡ some busy
unfolding step register_container unregister_container
step-busy cm (registers j) id k h = get-put cm j id idle ∙ (rw k.0 h)
step-busy cm (unregisters j) id k h = get-delete cm j id ∙ (rw k.0 h)
step-busy cm (takes j) id k h = set_busy-busy cm j id h
step-busy cm (frees j) id k h = set_idle_other cm j id k.0 ∙ h

run-busy :
    (cm : Registry) (cs : List Call) (id : String)
    → Holds id cs
    → get cm id ≡ some busy
    → get (run cm cs) id ≡ some busy
unfolding run
run-busy cm [] id k h = h
run-busy cm (registers j ∷ cs) id k h =
    run-busy (step cm (registers j)) cs id k.1 (step-busy cm (registers j) id (k.0, tt) h)
run-busy cm (unregisters j ∷ cs) id k h =
    run-busy (step cm (unregisters j)) cs id k.1 (step-busy cm (unregisters j) id (k.0, tt) h)
run-busy cm (takes j ∷ cs) id k h =
    run-busy (step cm (takes j)) cs id k (step-busy cm (takes j) id tt h)
run-busy cm (frees j ∷ cs) id k h =
    run-busy (step cm (frees j)) cs id k.1 (step-busy cm (frees j) id (k.0, tt) h)

pub set_busy_takes :
    (cm d : Registry) (id : String) → set_busy cm id ≡ (d, true) → get d id ≡ some busy
unfolding set_busy
set_busy_takes cm d id h = elim (Bool-cases (is_busy (get cm id))) [
  | inl b ↦ absurd (ground (arith))
  | inr b ↦
      let e : put cm id busy ≡ d = ground (arith) in
      rw (← e) (get-put cm id id busy ∙ (rw (==_refl id)))
]

pub set_busy_refuses :
    (cm : Registry) (id : String) → get cm id ≡ some busy → set_busy cm id ≡ (cm, false)
unfolding set_busy
set_busy_refuses cm id h = rw (h, set_busy)

pub set_busy_cases :
    (cm : Registry) (id : String)
    → ((get cm id ≡ some busy) × (set_busy cm id ≡ (cm, false)))
      ⊎ ((get (put cm id busy) id ≡ some busy) × (set_busy cm id ≡ (put cm id busy, true)))
unfolding set_busy
set_busy_cases cm id = elim (Option-cases (get cm id)) [
  | inl e ↦ inr (get-put cm id id busy ∙ (rw (==_refl id)), rw (e, set_busy))
  | inr (idle, e) ↦ inr (get-put cm id id busy ∙ (rw (==_refl id)), rw (e, set_busy))
  | inr (busy, e) ↦ inl (e, rw (e, set_busy))
]

pub delete_gone : (cm : Registry) (id : String) → get (delete cm id) id ≡ none
delete_gone cm id = get-delete cm id id ∙ (rw (==_refl id))

pub set_idle_busy :
    (cm : Registry) (id : String) → get cm id ≡ some busy → get (set_idle cm id) id ≡ some idle
unfolding set_idle
set_idle_busy cm id h = rw (h, set_idle) (get-put cm id id idle ∙ (rw (==_refl id)))

-- Once setBusy has accepted a container, it refuses that container and changes nothing, after any
-- calls by any goroutines among which none registers, unregisters or frees it: a container runs one
-- command at a time.
pub set_busy_excludes :
    (cm d : Registry) (cs : List Call) (id : String)
    → set_busy cm id ≡ (d, true)
    → Holds id cs
    → set_busy (run d cs) id ≡ (run d cs, false)
set_busy_excludes cm d cs id h k =
    set_busy_refuses (run d cs) id (run-busy d cs id k (set_busy_takes cm d id h))

get-stats_into :
    (r : Map String String) (cm : Registry) (id : String)
    → Distinct cm
    → get (stats_into r cm) id
      ≡ elim (get cm id) [ none ↦ get r id | some st ↦ some (state_name st) ]
unfolding get
get-stats_into r [] id d = refl
get-stats_into r ((j, st) ∷ cm) id d = ground (
  arith,
  get-stats_into (put r j (state_name st)) cm id d.1,
  get-put r j id (state_name st),
  string_eq.beq_iff j id,
  d.0,
)

-- Stats shows each registered container once, with its state, and no other container.
pub get-stats :
    (cm : Registry) (id : String)
    → Distinct cm
    → get (stats cm) id ≡ elim (get cm id) [ none ↦ none | some st ↦ some (state_name st) ]
unfolding stats
get-stats cm id d = get-stats_into [] cm id d ∙ (unfold get in ground (arith))

-- The rounds before this one found the container busy and ran no longer than the timeout.
abbrev pub Waiting : ℤ → List (Option ContainerState × ℤ) → Type 0
Waiting timeout [] = Unit
Waiting timeout ((st, elapsed) ∷ polls) =
    (st ≡ some busy) × (elapsed ≤ℤ timeout) × Waiting timeout polls

-- WaitForIdle goes on as long as it finds the container busy within the timeout; the first other
-- round decides: not found, idle, or busy past the timeout.
pub wait_for_idle_lem :
    (timeout : ℤ) (before after : List (Option ContainerState × ℤ)) (st : Option ContainerState)
    (elapsed : ℤ)
    → Waiting timeout before
    → (st ≡ some busy → timeout <ℤ elapsed)
    → wait_for_idle timeout (before ++ (st, elapsed) ∷ after) ≡ elim st [
      | none ↦ some not_found
      | some s ↦ elim s [ idle ↦ some became_idle | busy ↦ some timed_out ]
    ]
unfolding wait_for_idle
wait_for_idle_lem timeout [] after none elapsed w h = refl
wait_for_idle_lem timeout [] after (some idle) elapsed w h = refl
wait_for_idle_lem timeout [] after (some busy) elapsed w h = ground (arith, h refl)
wait_for_idle_lem timeout ((none, t) ∷ before) after st elapsed w h = absurd (cc (w.0))
wait_for_idle_lem timeout ((some idle, t) ∷ before) after st elapsed w h = absurd (cc (w.0))
wait_for_idle_lem timeout ((some busy, t) ∷ before) after st elapsed w h =
    ground (arith, w.1, wait_for_idle_lem timeout before after st elapsed w.2 h)
