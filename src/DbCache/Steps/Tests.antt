-- ===== src/DbCache/Steps/Tests.antt =====
-- A cached page, other calls and a goroutine that wakes up.
use goblocks.Prelude.Eq.{nat_eq, int_eq, string_eq}
use goblocks.Prelude.Map.{get}
use goblocks.Prelude.{refl, inr, none, List, [], ◌∷◌}
use goblocks.File.{exists, regular}
use goblocks.File.Example.{os}
use goblocks.Www.{timed_out, Network}
use goblocks.Www.Delayed.{Retry}
use goblocks.DbCache.{Db, State, CacheRow}
use goblocks.DbCache.Steps.{Call, gets_url, gets_content, wakes, run}
use goblocks.DbCache.Steps.Stable.{Held, HeldIf, run-HeldIf}

abbrev net : Network
net = record { answer = λ n url. timed_out; gunzip = λ text e. inr (text, e) }

abbrev db : Db
db = record { query_failure = λ rows url. none; exec_failure = λ rows url. none }

abbrev row : CacheRow
row = record { file_path = "a"; content_type = "text/html"; file_size = 1; last_read_at = 7 }

abbrev retry : Retry
retry = record { url = "v"; root = "c"; path = "d"; fname = "b"; delays = 2 ∷ [] }

abbrev cached : State
cached = record {
  rows = ("u", row) ∷ [];
  world = record { fs = ("a", regular (1 ∷ [])) ∷ []; requests = 1; names = 1 };
  pending = retry ∷ [];
  now = 7;
  today = "d";
}

abbrev calls : List Call
calls = wakes 0 ∷ gets_url "u" ∷ gets_content "v" ∷ []

shop_cached : Held db os net "c" (λ fs path name h. h) "u" "a" cached
unfolding exists get
shop_cached = (refl, refl)

run-HeldIf_example :
    HeldIf db os net "c" (λ fs path name h. h) "u" "a" (run db os net "c" 1 cached calls)
run-HeldIf_example =
    run-HeldIf db os net "c" (λ fs path name h. h) (λ st url. refl) 1 cached calls "u" "a"
      shop_cached
