-- ===== src/Www.antt =====
-- www/www.go: downloads. The answers to the HTTP client's requests, in the order of the requests, and
-- gzip are parameters; the file's `copy_failure` says when io.Copy fails to write. The buffer that a
-- caller can pass is what it received.
pub mod Delayed
pub mod Growth
pub mod Saved
mod Tests
use goblocks.Prelude.Text.{Text}
use goblocks.Prelude.Eq.{◌==◌, nat_eq, int_eq, string_eq}
use goblocks.Prelude.Map
use goblocks.Prelude.Map.{Map, get, put}
use goblocks.Prelude.{
  ℕ, suc, ◌+◌, String, ◌⊎◌, inl, inr, Bool, true, false, not, ◌||◌, Option, none, some, List, [],
  ◌∷◌, nat_beq, if◌then◌else◌, length, take,
}
use goblocks.File.{regular, CopyFailure, FileSystem, Os, exists}

-- http.Response: the body's bytes as far as they can be read, and the error that then comes
pub record Response : Type 0 where
  pub status_code : ℕ
  pub content_type : String
  pub content_encoding : String
  pub body : Text
  pub body_error : Option ℕ
  -- the URL of the last request, if the response has its request
  pub request_url : Option String

-- client.Do
pub data Answer : Type 0 where
  timed_out : Answer
  not_sent : ℕ → Answer
  responds : Response → Answer

pub record Network : Type 0 where
  -- the answer to the n-th request
  pub answer : ℕ → String → Answer
  -- gzip.NewReader with what it then reads
  pub gunzip : Text → Option ℕ → (ℕ ⊎ (Text × Option ℕ))

pub data WwwError : Type 0 where
  timeout : WwwError
  request_failed : ℕ → WwwError
  bad_status : ℕ → Text → WwwError
  bad_gzip mkdir_failed create_failed copy_failed : ℕ → WwwError

pub data RequestOpt : Type 0 where
  req_ignore_403 req_ignore_404 req_ignore_406 req_ignore_410 req_ignore_451 : RequestOpt

-- the number of an option
abbrev pub opt_value : RequestOpt → ℕ
opt_value req_ignore_403 = 1
opt_value req_ignore_404 = 2
opt_value req_ignore_406 = 3
opt_value req_ignore_410 = 4
opt_value req_ignore_451 = 5

unfoldable pub has_opt : List RequestOpt → RequestOpt → Bool
has_opt [] chk = false
has_opt (o ∷ opts) chk = nat_beq (opt_value o) (opt_value chk) || has_opt opts chk

-- ignorableStatus
unfoldable pub ignorable_status : Map ℕ RequestOpt
ignorable_status =
    (403, req_ignore_403)
    ∷ (404, req_ignore_404)
    ∷ (406, req_ignore_406)
    ∷ (410, req_ignore_410)
    ∷ (451, req_ignore_451)
    ∷ []

-- checkStatusCode; `true` is no error
unfoldable pub check_status_code : Response → List RequestOpt → Bool
unfolding has_opt
check_status_code response opts =
    nat_beq response.status_code 200 || elim (get ignorable_status response.status_code) [
      | none ↦ false
      | some opt ↦ has_opt opts opt
    ]

-- What getResponse returns: a body that is open, or an error; with the new URL.
pub data Got : Type 0 where
  got : Text → Option ℕ → String → Option String → Got
  fails : WwwError → Option String → Got

-- wrapGzipBody and the rest of getResponse
abbrev pub wrap_gzip_body : Network → Response → Got
wrap_gzip_body net r =
    if not (r.content_encoding == "gzip")
    then got r.body r.body_error r.content_type r.request_url
    else elim (net.gunzip r.body r.body_error) [
      | inl e ↦ fails (bad_gzip e) none
      | inr (text, e) ↦ got text e r.content_type r.request_url
    ]

-- getResponse, from the answer to its request on
unfoldable pub get_response : Network → Answer → List RequestOpt → Got
unfolding check_status_code
get_response net timed_out opts = fails timeout none
get_response net (not_sent e) opts = fails (request_failed e) none
get_response net (responds r) opts =
    if check_status_code r opts
    then wrap_gzip_body net r
    else fails (bad_status r.status_code r.body) r.request_url

-- The results of Fetch, and what the buffer received.
pub record Fetched : Type 0 where
  pub content_type : String
  pub new_url : Option String
  pub file_size : ℕ
  pub buf : Text
  pub error : Option WwwError

abbrev pub copied : String → Option String → Text → Bool → Option ℕ → Fetched
copied ct url text to_buf e = record {
  content_type = ct;
  new_url = url;
  file_size = length text;
  buf = if to_buf then text else [];
  error = elim e [ none ↦ none | some n ↦ some (copy_failed n) ];
}

-- io.Copy that fails to write: the TeeReader has given the buffer what was read ahead too
abbrev pub cut_short : String → Option String → Text → Bool → CopyFailure → Fetched
cut_short ct url text to_buf f = record {
  content_type = ct;
  new_url = url;
  file_size = length (take f.written text);
  buf = if to_buf then take (f.written + f.ahead) text else [];
  error = some (copy_failed f.error);
}

abbrev pub not_copied : String → Option String → WwwError → Fetched
not_copied ct url e = record {
  content_type = ct;
  new_url = url;
  file_size = 0;
  buf = [];
  error = some e;
}

pub record World : Type 0 where
  pub fs : FileSystem
  -- how many requests were made, and how many names
  pub requests : ℕ
  pub names : ℕ

module _ (os : Os) (net : Network) where
  -- Fetch, once the body is open and a file is to be written
  abbrev pub save :
      FileSystem
      → String
      → String
      → Bool
      → Text
      → Option ℕ
      → String
      → Option String
      → FileSystem × Fetched
  save fs fpath fname to_buf text e ct url =
      let made : FileSystem × Option ℕ =
        if exists os fs fpath then (fs, none) else os.mkdir_all fs fpath in
      let full_path = os.join fpath fname in
      elim made.1 [
        | some n ↦ (made.0, not_copied ct url (mkdir_failed n))
        | none ↦ elim (os.create_failure full_path) [
          | some n ↦ (made.0, not_copied ct url (create_failed n))
          | none ↦ elim (os.copy_failure full_path text) [
            | none ↦ (put made.0 full_path (regular text), copied ct url text to_buf e)
            | some f ↦ (
              put made.0 full_path (regular (take f.written text)),
              cut_short ct url text to_buf f,
            )
          ]
        ]
      ]

  -- Fetch, from the outcome of getResponse on
  abbrev pub fetch_got : FileSystem → String → String → String → Bool → Got → FileSystem × Fetched
  fetch_got fs root path fname to_buf (fails e url) = (fs, not_copied "" url e)
  fetch_got fs root path fname to_buf (got text e ct url) =
      if fname == ""
      then (fs, copied ct url text to_buf e)
      else save fs (os.join root path) fname to_buf text e ct url

  -- Fetch
  unfoldable pub fetch :
      World → String → String → String → String → Bool → List RequestOpt → World × Fetched
  unfolding get_response
  fetch w url root path fname to_buf opts =
      let end =
        fetch_got w.fs root path fname to_buf (get_response net (net.answer w.requests url) opts) in
      (record w { fs = end.0; requests = suc w.requests }, end.1)

  -- Download
  unfoldable pub download :
      World → String → String → String → String → List RequestOpt → World × Fetched
  unfolding fetch
  download w url root path fname opts = fetch w url root path fname false opts

  -- FetchContent
  pub fetch_content : World → String → List RequestOpt → World × Fetched
  unfolding fetch
  fetch_content w url opts = fetch w url "" "" "" true opts
