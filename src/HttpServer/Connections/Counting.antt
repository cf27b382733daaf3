-- ===== src/HttpServer/Connections/Counting.antt =====
-- The counts of httpserver/connection_watcher.go, by what the HTTP server documents of its callbacks.
use goblocks.Prelude.Int.{ℤ, pos, negsuc, ◌+ℤ◌, pos_part, neg_part, +ℤ_parts, eq_of_parts}
use goblocks.Prelude.{ℕ, suc, ◌+◌, ◌-◌, ◌≤◌, ◌≡◌, refl, ap, ◌∙◌, List, [], ◌∷◌, arith}
use goblocks.HttpServer.Connections.{
  ConnState, state_new, state_active, state_idle, state_hijacked, state_closed, ConnectionWatcher,
  new_connection_watcher, on_state_change, count, observe,
}

-- How often a connection became new, and how often one was closed or hijacked.
abbrev pub news : List ConnState → ℕ
news [] = 0
news (state_new ∷ sts) = suc (news sts)
news (_ ∷ sts) = news sts

abbrev pub ends : List ConnState → ℕ
ends [] = 0
ends (state_hijacked ∷ sts) = suc (ends sts)
ends (state_closed ∷ sts) = suc (ends sts)
ends (_ ∷ sts) = ends sts

raise_one : (a : ℤ) (n : ℕ) → (a +ℤ pos 1) +ℤ pos n ≡ a +ℤ pos (suc n)
raise_one a n =
    eq_of_parts _ _
      (omega (arith, +ℤ_parts (a +ℤ pos 1) (pos n), +ℤ_parts a (pos 1), +ℤ_parts a (pos (suc n))))

lower_one :
    (x a : ℤ) (m n : ℕ) → x +ℤ pos m ≡ (a +ℤ negsuc 0) +ℤ pos n → x +ℤ pos (suc m) ≡ a +ℤ pos n
lower_one x a m n h = eq_of_parts _ _ (
    omega (
      arith,
      ap pos_part h,
      ap neg_part h,
      +ℤ_parts x (pos m),
      +ℤ_parts (a +ℤ negsuc 0) (pos n),
      +ℤ_parts a (negsuc 0),
      +ℤ_parts x (pos (suc m)),
      +ℤ_parts a (pos n),
    ))

observe_lem :
    (cw : ConnectionWatcher) (sts : List ConnState)
    → (observe cw sts).currently_open +ℤ pos (ends sts) ≡ cw.currently_open +ℤ pos (news sts)
unfolding observe on_state_change
observe_lem cw [] = refl
observe_lem cw (state_new ∷ sts) =
    observe_lem (on_state_change cw state_new) sts ∙ raise_one cw.currently_open (news sts)
observe_lem cw (state_active ∷ sts) = observe_lem cw sts
observe_lem cw (state_idle ∷ sts) = observe_lem cw sts
observe_lem cw (state_hijacked ∷ sts) =
    lower_one _ _ (ends sts) (news sts) (observe_lem (on_state_change cw state_hijacked) sts)
observe_lem cw (state_closed ∷ sts) =
    lower_one _ _ (ends sts) (news sts) (observe_lem (on_state_change cw state_closed) sts)

difference : (x : ℤ) (m n : ℕ) → x +ℤ pos m ≡ pos 0 +ℤ pos n → m ≤ n → x ≡ pos (n - m)
difference x m n h le =
    eq_of_parts _ _
      (omega (arith, ap pos_part h, ap neg_part h, +ℤ_parts x (pos m), +ℤ_parts (pos 0) (pos n)))

observe_counters :
    (cw : ConnectionWatcher) (sts : List ConnState)
    → ((observe cw sts).opened ≡ cw.opened + news sts)
      × ((observe cw sts).closed ≡ cw.closed + ends sts)
      × (cw.connections_gauge ≡ cw.currently_open
          → (observe cw sts).connections_gauge ≡ (observe cw sts).currently_open)
unfolding observe on_state_change
observe_counters cw [] = (omega arith, omega arith, λ e. e)
observe_counters cw (state_new ∷ sts) =
    let r = observe_counters (on_state_change cw state_new) sts in
    (omega (arith, r.0), omega (arith, r.1), λ e. r.2 refl)
observe_counters cw (state_active ∷ sts) = observe_counters cw sts
observe_counters cw (state_idle ∷ sts) = observe_counters cw sts
observe_counters cw (state_hijacked ∷ sts) =
    let r = observe_counters (on_state_change cw state_hijacked) sts in
    (omega (arith, r.0), omega (arith, r.1), λ e. r.2 refl)
observe_counters cw (state_closed ∷ sts) =
    let r = observe_counters (on_state_change cw state_closed) sts in
    (omega (arith, r.0), omega (arith, r.1), λ e. r.2 refl)

-- From a new watcher, after callbacks in which no more connections ended than became new, Count is
-- the number of those that became new less the number of those that were closed or hijacked; the
-- gauge shows Count, and the two counters show the two numbers.
pub count-observe :
    (sts : List ConnState)
    → ends sts ≤ news sts
    → let cw = observe new_connection_watcher sts in
      (count cw ≡ pos (news sts - ends sts))
      × (cw.connections_gauge ≡ count cw)
      × (cw.opened ≡ news sts)
      × (cw.closed ≡ ends sts)
unfolding count new_connection_watcher
count-observe sts h =
    let start : ConnectionWatcher = record {
      currently_open = pos 0;
      connections_gauge = pos 0;
      opened = 0;
      closed = 0;
    } in
    let r = observe_counters start sts in
    (
      difference _ (ends sts) (news sts) (observe_lem start sts) h,
      r.2 refl,
      omega (arith, r.0),
      omega (arith, r.1),
    )
