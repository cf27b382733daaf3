-- ===== src/DbCache/Tests.antt =====
-- The cache tried out: a page is downloaded, and found again.
use goblocks.Prelude.Eq.{nat_eq, int_eq, string_eq}
use goblocks.Prelude.Map.{get, put}
use goblocks.Prelude.{◌≡◌, refl, inr, true, none, some, [], ◌∷◌}
use goblocks.File.{regular, exists, generate_random_filename}
use goblocks.File.Example.{os}
use goblocks.Www.{
  Response, responds, Network, download, fetch, get_response, check_status_code, has_opt,
}
use goblocks.Www.Delayed.{enqueue_download}
use goblocks.DbCache.{Db, State, CacheRow, get_cache_record, set_cache_record, is_cached, get_url}
use goblocks.DbCache.Again.{Reread, get_url-again}

abbrev response : Response
response = record {
  status_code = 200;
  content_type = "text/html";
  content_encoding = "";
  body = 1 ∷ [];
  body_error = none;
  request_url = none;
}

abbrev net : Network
net = record { answer = λ n url. responds response; gunzip = λ text e. inr (text, e) }

abbrev db : Db
db = record { query_failure = λ rows url. none; exec_failure = λ rows url. none }

abbrev start : State
start = record {
  rows = [];
  world = record { fs = []; requests = 0; names = 0 };
  pending = [];
  now = 7;
  today = "d";
}

abbrev row : CacheRow
row = record { file_path = "a"; content_type = "text/html"; file_size = 1; last_read_at = 7 }

abbrev downloaded : State
downloaded = record start {
  rows = ("u", row) ∷ [];
  world = record { fs = ("a", regular (1 ∷ [])) ∷ []; requests = 1; names = 1 };
}

first_call : get_url db os net "c" 1 start "u" ≡ some (downloaded, ("a", none))
unfolding get_url get_cache_record set_cache_record enqueue_download generate_random_filename exists
    download fetch get_response check_status_code has_opt get put
first_call = refl

file_is_there : is_cached db os net "c" downloaded "a" ≡ true
unfolding exists get
file_is_there = refl

get_url-again_example :
    (found : CacheRow) × (again : State) × (get downloaded.rows "u" ≡ some found)
    × (found.file_path ≡ "a")
    × (get_url db os net "c" 1 downloaded "u" ≡ some (again, ("a", none)))
    × Reread db os net "c" downloaded again "u" found
get_url-again_example =
    get_url-again db os net "c" 1 1 start downloaded "u" "a" first_call file_is_there refl
