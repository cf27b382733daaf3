-- ===== src/DbCache/Steps.antt =====
-- cache/dbcache/dbcache.go with the goroutines of www/www.go, EnqueueDownload: calls of GetURL and
-- GetContent, and the attempts of the delayed downloads, in any order. Each call and each attempt is
-- one step.
pub mod Stable
mod Tests
use goblocks.Prelude.Eq.{nat_eq, int_eq, string_eq}
use goblocks.Prelude.Map
use goblocks.Prelude.Map.{Map}
use goblocks.Prelude.{
  ℕ, zero, suc, String, Option, none, some, List, [], ◌∷◌, if◌then◌else◌, get_elem?,
}
use goblocks.File.{Os}
use goblocks.Www.{Network, World, Fetched, download}
use goblocks.Www.Delayed.{Retry, is_timeout}
use goblocks.DbCache.{Db, State, content_type_update, get_url, get_content}

pub data Call : Type 0 where
  gets_url gets_content : String → Call
  -- goroutine `i` of those that are pending wakes up
  wakes : ℕ → Call

-- the pending goroutines without number `i`, and with another in its place
abbrev pub without : List Retry → ℕ → List Retry
without [] i = []
without (r ∷ rs) zero = rs
without (r ∷ rs) (suc i) = r ∷ without rs i

abbrev pub with_retry : List Retry → ℕ → Retry → List Retry
with_retry [] i q = []
with_retry (r ∷ rs) zero q = q ∷ rs
with_retry (r ∷ rs) (suc i) q = r ∷ with_retry rs i q

abbrev pub state_of {ℓ} : {A : Type ℓ} → Option (State × A) → Option State
state_of none = none
state_of (some (st, a)) = some st

module _ (db : Db) (os : Os) (net : Network) (cache_dir : String) where
  -- an attempt of goroutine `i`, from the outcome of Download on
  abbrev pub attempted : State → ℕ → Retry → List ℕ → World × Fetched → State
  attempted st i r delays (w, f) =
      if is_timeout f.error
      then record st { world = w; pending = with_retry st.pending i (record r { delays = delays }) }
      else content_type_update db (record st { world = w; pending = without st.pending i }) r.url
          f.content_type f.file_size

  -- the goroutine `i` after its sleep; without a delay left it has ended
  abbrev pub attempt : State → ℕ → Retry → List ℕ → State
  attempt st i r [] = record st { pending = without st.pending i }
  attempt st i r (d ∷ delays) =
      attempted st i r delays (download os net st.world r.url r.root r.path r.fname [])

  abbrev pub woken : State → ℕ → Option Retry → State
  woken st i none = st
  woken st i (some r) = attempt st i r r.delays

  -- `none` if the rounds for a name do not suffice
  pub step : ℕ → State → Call → Option State
  step rounds st (gets_url url) = state_of (get_url db os net cache_dir rounds st url)
  step rounds st (gets_content url) = state_of (get_content db os net cache_dir rounds st url)
  step rounds st (wakes i) = some (woken st i (get_elem? st.pending i))

  pub run : ℕ → State → List Call → Option State
  unfolding step
  run rounds st [] = some st
  run rounds st (c ∷ cs) = elim (step rounds st c) [ none ↦ none | some t ↦ run rounds t cs ]
