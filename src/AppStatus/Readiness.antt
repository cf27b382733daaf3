-- ===== src/AppStatus/Readiness.antt =====
-- What the probes of appstatus/appstatus.go answer after any sequence of calls.
use goblocks.Prelude.Eq.{◌==◌, ==_refl, nat_eq, int_eq, string_eq}
use goblocks.Prelude.Map.{Map, Distinct, get, put, get-put, put-Distinct}
use goblocks.Prelude.{
  String, ◌≡◌, refl, sym, ap, ◌∙◌, ◌↔◌, inl, inr, Bool, true, false, not, Option, none, some, List,
  [], ◌∷◌, arith, if◌then◌else◌, Bool-cases, Option-cases,
}
use goblocks.AppStatus.{
  StatusReporter, Call, err, already_registered, registers, reports_ready, reports_not_ready,
  reports_dead, new, get_service_reporter, ready, not_ready, dead, all_ready, is_ready, is_alive,
  step, run,
}

-- The last status that the calls gave to `name`, from the status `r` that it had before them. A
-- registration counts only if the name is new.
abbrev pub last_status : String → Option Bool → List Call → Option Bool
last_status name r [] = r
last_status name r (registers n ∷ cs) =
    last_status name (if n == name then elim r [ none ↦ some false | some b ↦ some b ] else r) cs
last_status name r (reports_ready p ∷ cs) =
    last_status name (if p.service_name == name then some true else r) cs
last_status name r (reports_not_ready p ∷ cs) =
    last_status name (if p.service_name == name then some false else r) cs
last_status name r (reports_dead p ∷ cs) = last_status name r cs

abbrev pub reports_death : List Call → Bool
reports_death [] = false
reports_death (reports_dead p ∷ cs) = true
reports_death (_ ∷ cs) = reports_death cs

abbrev pub status : StatusReporter → String → Option Bool
status s name = get s.service_ready name

pub step-last_status :
    (s : StatusReporter) (c : Call) (name : String)
    → status (step s c) name ≡ last_status name (status s name) (c ∷ [])
unfolding step get_service_reporter ready not_ready dead
step-last_status s (registers n) name =
    ground (arith, get-put s.service_ready n name false, string_eq.beq_iff n name)
step-last_status s (reports_ready p) name = get-put s.service_ready p.service_name name true
step-last_status s (reports_not_ready p) name = get-put s.service_ready p.service_name name false
step-last_status s (reports_dead p) name = refl

last_status-cons :
    (name : String) (r : Option Bool) (c : Call) (cs : List Call)
    → last_status name r (c ∷ cs) ≡ last_status name (last_status name r (c ∷ [])) cs
last_status-cons name r (registers n) cs = refl
last_status-cons name r (reports_ready p) cs = refl
last_status-cons name r (reports_not_ready p) cs = refl
last_status-cons name r (reports_dead p) cs = refl

pub status-run :
    (s : StatusReporter) (cs : List Call) (name : String)
    → status (run s cs) name ≡ last_status name (status s name) cs
unfolding run
status-run s [] name = refl
status-run s (c ∷ cs) name =
    status-run (step s c) cs name
    ∙ ap (λ r. last_status name r cs) (step-last_status s c name)
    ∙ sym (last_status-cons name (status s name) c cs)

step-Distinct :
    (s : StatusReporter) (c : Call) → Distinct s.service_ready → Distinct (step s c).service_ready
unfolding step get_service_reporter ready not_ready dead
step-Distinct s (registers n) d = ground (arith, put-Distinct s.service_ready n false d)
step-Distinct s (reports_ready p) d = put-Distinct s.service_ready p.service_name true d
step-Distinct s (reports_not_ready p) d = put-Distinct s.service_ready p.service_name false d
step-Distinct s (reports_dead p) d = d

run-Distinct :
    (s : StatusReporter) (cs : List Call)
    → Distinct s.service_ready
    → Distinct (run s cs).service_ready
unfolding run
run-Distinct s [] d = d
run-Distinct s (c ∷ cs) d = run-Distinct (step s c) cs (step-Distinct s c d)

all_ready_sound :
    (m : Map String Bool) (name : String) (r : Bool)
    → all_ready m ≡ true
    → get m name ≡ some r
    → r ≡ true
unfolding all_ready get
all_ready_sound [] name r a h = cc
all_ready_sound ((n, b) ∷ m) name r a h = ground (arith, all_ready_sound m name r)

all_ready_complete :
    (m : Map String Bool)
    → Distinct m
    → ((name : String) (r : Bool) → get m name ≡ some r → r ≡ true)
    → all_ready m ≡ true
unfolding all_ready get
all_ready_complete [] d h = refl
all_ready_complete ((n, b) ∷ m) d h =
    let here : b ≡ true = h n b (rw (==_refl n)) in
    let rest : all_ready m ≡ true =
      all_ready_complete m d.1
        (λ name r g. h name r (ground (arith, string_eq.beq_iff n name, d.0))) in
    ground arith

-- After any sequence of calls on a new reporter, IsReady answers true exactly when the last status
-- given to each name, a registration giving "not ready" to a new name, is "ready".
pub is_ready-run :
    (cs : List Call)
    → (is_ready (run new cs) ≡ true)
      ↔ ((name : String) (r : Bool) → last_status name none cs ≡ some r → r ≡ true)
unfolding is_ready new get
is_ready-run cs =
    let names : (name : String) → status (run new cs) name ≡ last_status name none cs =
      λ name. status-run new cs name in
    (
      (λ a name r h. all_ready_sound (run new cs).service_ready name r a (names name ∙ h)),
      (λ h.
          all_ready_complete (run new cs).service_ready (run-Distinct new cs tt)
            (λ name r g. h name r (sym (names name) ∙ g))),
    )

run_dead : (s : StatusReporter) (cs : List Call) → is_alive s ≡ false → is_alive (run s cs) ≡ false
unfolding run step is_alive get_service_reporter ready not_ready dead
run_dead s [] h = h
run_dead s (registers n ∷ cs) h = run_dead (step s (registers n)) cs (ground arith)
run_dead s (reports_ready p ∷ cs) h = run_dead (step s (reports_ready p)) cs h
run_dead s (reports_not_ready p ∷ cs) h = run_dead (step s (reports_not_ready p)) cs h
run_dead s (reports_dead p ∷ cs) h = run_dead (step s (reports_dead p)) cs refl

run_alive :
    (s : StatusReporter) (cs : List Call)
    → is_alive s ≡ true
    → is_alive (run s cs) ≡ not (reports_death cs)
unfolding run step is_alive get_service_reporter ready not_ready dead
run_alive s [] h = h
run_alive s (registers n ∷ cs) h = run_alive (step s (registers n)) cs (ground arith)
run_alive s (reports_ready p ∷ cs) h = run_alive (step s (reports_ready p)) cs h
run_alive s (reports_not_ready p ∷ cs) h = run_alive (step s (reports_not_ready p)) cs h
run_alive s (reports_dead p ∷ cs) h = run_dead (step s (reports_dead p)) cs refl

-- After any sequence of calls on a new reporter, IsAlive answers false exactly when some reporter
-- has called Dead: no later call revives the application.
pub is_alive-run : (cs : List Call) → is_alive (run new cs) ≡ not (reports_death cs)
unfolding is_alive new
is_alive-run cs = run_alive new cs refl

-- What a registration does, by the status that the reporter holds for the name.
abbrev pub Registers : StatusReporter → String → Option Bool → Type 0
Registers s name (some b) = get_service_reporter s name ≡ (s, err already_registered)
Registers s name none = is_ready (get_service_reporter s name).0 ≡ false

-- A name that the reporter knows is refused and changes nothing; a new one is registered as not
-- ready, which leaves the application not ready.
pub register_lem :
    (s : StatusReporter) (name : String) → Registers s name (get s.service_ready name)
unfolding get_service_reporter is_ready
register_lem s name = elim (Option-cases (get s.service_ready name)) [
  | inr (b, h) ↦ rw (h) (rw (get_service_reporter, h) refl)
  | inl h ↦ rw (h) (
      rw (get_service_reporter, h)
        (elim (Bool-cases (all_ready (put s.service_ready name false))) [
          | inl a ↦ absurd (
              cc (
                all_ready_sound (put s.service_ready name false) name false a
                  (get-put s.service_ready name name false ∙ (rw (==_refl name)))))
          | inr a ↦ a
        ]))
]

-- A service that has reported "not ready" last leaves the application not ready.
pub not_ready-is_ready : (s : StatusReporter) (name : String) → is_ready (not_ready s name) ≡ false
unfolding not_ready is_ready
not_ready-is_ready s name = elim (Bool-cases (all_ready (put s.service_ready name false))) [
  | inl a ↦ absurd (
      cc (
        all_ready_sound (put s.service_ready name false) name false a
          (get-put s.service_ready name name false ∙ (rw (==_refl name)))))
  | inr a ↦ a
]

-- An application with a name whose status is "not ready" is not ready.
pub unready_lem :
    (s : StatusReporter) (name : String) → status s name ≡ some false → is_ready s ≡ false
unfolding is_ready
unready_lem s name h = elim (Bool-cases (all_ready s.service_ready)) [
  | inl a ↦ absurd (cc (all_ready_sound s.service_ready name false a h))
  | inr a ↦ a
]
