-- ===== src/ConnCount.antt =====
-- conncount/transport.go: a transport that counts its open connections, with its goroutines
-- interleaved. The counter is an atomic int64; AddInt64, LoadInt64 and the call of the callback are
-- steps of their own, so that another goroutine may run between them.
pub mod Counter
pub mod Dialers
mod Tests
use goblocks.Prelude.Eq.{nat_eq, int_eq, string_eq}
use goblocks.Prelude.Int.{ℤ, pos, ◌+ℤ◌, ◌-ℤ◌}
use goblocks.Prelude.Map
use goblocks.Prelude.Map.{Map}
use goblocks.Prelude.{
  ℕ, zero, suc, ◌+◌, Bool, true, false, none, some, List, [], ◌∷◌, ◌++◌, if◌then◌else◌, get_elem?,
}

-- A connWithCounter is named by its place in the list of all that were made; its entry says whether
-- closeOnce has run.
pub record Transport : Type 0 where
  pub conn_counter : ℤ
  pub close_once : List Bool
  -- goroutines between AddInt64 and LoadInt64
  pub to_load : ℕ
  -- what goroutines between LoadInt64 and the callback have read
  pub loaded : List ℤ
  -- what the callback was called with, newest first
  pub reported : List ℤ

pub data Event : Type 0 where
  -- the wrapped dialer returned an error
  dial_fails : Event
  dials : Event
  closes : ℕ → Event
  loads : Event
  calls_back : ℕ → Event

abbrev pub nth_or : List Bool → ℕ → Bool → Bool
nth_or [] i d = d
nth_or (x ∷ xs) zero d = x
nth_or (x ∷ xs) (suc i) d = nth_or xs i d

abbrev pub set_true : List Bool → ℕ → List Bool
set_true [] i = []
set_true (x ∷ xs) zero = true ∷ xs
set_true (x ∷ xs) (suc i) = x ∷ set_true xs i

abbrev pub without : List ℤ → ℕ → List ℤ
without [] i = []
without (x ∷ xs) zero = xs
without (x ∷ xs) (suc i) = x ∷ without xs i

-- NewTransport, before any dial
pub new_transport : Transport
new_transport = record {
  conn_counter = pos 0;
  close_once = [];
  to_load = 0;
  loaded = [];
  reported = [];
}

-- the dialer of dialWithCounter, after the wrapped dialer returned a connection
pub dial : Transport → Transport
dial t = record t {
  conn_counter = t.conn_counter +ℤ pos 1;
  close_once = t.close_once ++ false ∷ [];
  to_load = t.to_load + 1;
}

-- Close; a second call for the connection finds closeOnce done
pub close : Transport → ℕ → Transport
close t conn = if nth_or t.close_once conn true then t else record t {
  conn_counter = t.conn_counter -ℤ pos 1;
  close_once = set_true t.close_once conn;
  to_load = t.to_load + 1;
}

-- atomic.LoadInt64
pub load_counter : Transport → Transport
load_counter t = elim t.to_load [
  | zero ↦ t
  | suc n ↦ record t { to_load = n; loaded = t.conn_counter ∷ t.loaded }
]

-- callback(n), by the goroutine whose value stands at place `i`
pub call_back : Transport → ℕ → Transport
call_back t i = elim (get_elem? t.loaded i) [
  | none ↦ t
  | some n ↦ record t { loaded = without t.loaded i; reported = n ∷ t.reported }
]

pub step : Transport → Event → Transport
step t dial_fails = t
step t dials = dial t
step t (closes conn) = close t conn
step t loads = load_counter t
step t (calls_back i) = call_back t i

pub run : Transport → List Event → Transport
run t [] = t
run t (ev ∷ evs) = run (step t ev) evs
