-- ===== src/ConnCount/Counter.antt =====
-- The counter of conncount/transport.go under every interleaving.
use goblocks.Prelude.Int.{ℤ, pos, ◌+ℤ◌, ◌-ℤ◌, ◌≤ℤ◌}
use goblocks.Prelude.{
  ℕ, zero, suc, ◌+◌, ◌≡◌, refl, inl, inr, Bool, true, false, some, List, [], ◌∷◌, ◌++◌, arith,
  if◌then◌else◌, Bool-cases, Option-cases, get_elem?, All,
}
use goblocks.ConnCount.{
  Transport, Event, dial_fails, dials, closes, loads, calls_back, nth_or, set_true, without,
  new_transport, dial, close, load_counter, call_back, step, run,
}

-- Connections on which closeOnce has not run.
abbrev pub open_conns : List Bool → ℕ
open_conns [] = 0
open_conns (done ∷ cs) = if done then open_conns cs else suc (open_conns cs)

open_conns-append : (cs : List Bool) → open_conns (cs ++ false ∷ []) ≡ open_conns cs + 1
open_conns-append [] = refl
open_conns-append (c ∷ cs) = ground (arith, open_conns-append cs)

open_conns-set_true :
    (cs : List Bool) (i : ℕ)
    → nth_or cs i true ≡ false
    → open_conns (set_true cs i) + 1 ≡ open_conns cs
open_conns-set_true [] i h = cc
open_conns-set_true (c ∷ cs) zero h = ground arith
open_conns-set_true (c ∷ cs) (suc i) h = ground (arith, open_conns-set_true cs i)

abbrev IsNonneg : ℤ → Type 0
IsNonneg n = pos 0 ≤ℤ n

pub record Inv (t : Transport) : Type 0 where
  pub counts : t.conn_counter ≡ pos (open_conns t.close_once)
  pub loaded_nonneg : All IsNonneg t.loaded
  pub reported_nonneg : All IsNonneg t.reported

IsNonneg-of_elem :
    (ns : List ℤ) (i : ℕ) (n : ℤ) → All IsNonneg ns → get_elem? ns i ≡ some n → IsNonneg n
IsNonneg-of_elem [] i n a h = absurd (cc)
IsNonneg-of_elem (m ∷ ns) zero n a h = ground arith
IsNonneg-of_elem (m ∷ ns) (suc i) n a h = IsNonneg-of_elem ns i n a.1 h

All-without : (ns : List ℤ) (i : ℕ) → All IsNonneg ns → All IsNonneg (without ns i)
All-without [] i a = a
All-without (m ∷ ns) zero a = a.1
All-without (m ∷ ns) (suc i) a = (a.0, All-without ns i a.1)

close-Inv : (t : Transport) (c : ℕ) → Inv t → Inv (close t c)
unfolding close ◌-ℤ◌
close-Inv t c v = elim (Bool-cases (nth_or t.close_once c true)) [
  | inl p ↦ rw p v
  | inr p ↦ rw p (record {
    counts = ground (arith, v.counts, open_conns-set_true t.close_once c p);
    loaded_nonneg = v.loaded_nonneg;
    reported_nonneg = v.reported_nonneg;
  })
]

step-Inv : (t : Transport) (ev : Event) → Inv t → Inv (step t ev)
unfolding step dial load_counter call_back ◌+ℤ◌
step-Inv t dial_fails v = v
step-Inv t dials v = record {
  counts = ground (arith, v.counts, open_conns-append t.close_once);
  loaded_nonneg = v.loaded_nonneg;
  reported_nonneg = v.reported_nonneg;
}
step-Inv t (closes c) v = close-Inv t c v
step-Inv t loads v = ground (arith, v.counts)
step-Inv t (calls_back i) v = elim (Option-cases (get_elem? t.loaded i)) [
  | inl h ↦ rw (h, call_back) v
  | inr (n, h) ↦
      rw (h, call_back)
        (record {
          counts = v.counts;
          loaded_nonneg = All-without t.loaded i v.loaded_nonneg;
          reported_nonneg = (IsNonneg-of_elem t.loaded i n v.loaded_nonneg h, v.reported_nonneg);
        })
]

run-Inv : (t : Transport) (evs : List Event) → Inv t → Inv (run t evs)
unfolding run
run-Inv t [] v = v
run-Inv t (ev ∷ evs) v = run-Inv (step t ev) evs (step-Inv t ev v)

-- Under every interleaving of dials, closes, loads and callbacks, the counter is the number of
-- connections that were opened and on which Close has not been called yet, however often Close is
-- called on one; and no value that the callback receives is negative.
pub counter-run :
    (evs : List Event)
    → ((run new_transport evs).conn_counter ≡ pos (open_conns (run new_transport evs).close_once))
      × All (λ n. pos 0 ≤ℤ n) (run new_transport evs).reported
unfolding new_transport
counter-run evs =
    let v : Inv (run new_transport evs) =
      run-Inv new_transport evs
        (record { counts = refl; loaded_nonneg = tt; reported_nonneg = tt }) in
    (v.counts, v.reported_nonneg)
