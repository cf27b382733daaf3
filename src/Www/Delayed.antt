-- ===== src/Www/Delayed.antt =====
-- www/www.go, DownloadContent and EnqueueDownload: downloads to a file with a new name, and the goroutine
-- of a download that timed out.
pub mod Retries
use goblocks.Prelude.Eq.{nat_eq, int_eq, string_eq}
use goblocks.Prelude.Map
use goblocks.Prelude.Map.{Map}
use goblocks.Prelude.{
  ℕ, ◌+◌, String, Bool, true, false, Option, none, some, List, [], ◌∷◌, if◌then◌else◌,
}
use goblocks.File.{Os, generate_random_filename}
use goblocks.Www.{
  Network, WwwError, timeout, request_failed, bad_status, bad_gzip, mkdir_failed, create_failed,
  copy_failed, Fetched, World, fetch, download,
}

abbrev pub is_timeout : Option WwwError → Bool
is_timeout (some timeout) = true
is_timeout (some (request_failed e)) = false
is_timeout (some (bad_status code text)) = false
is_timeout (some (bad_gzip e)) = false
is_timeout (some (mkdir_failed e)) = false
is_timeout (some (create_failed e)) = false
is_timeout (some (copy_failed e)) = false
is_timeout none = false

-- The goroutine of a delayed download.
pub record Retry : Type 0 where
  pub url : String
  pub root : String
  pub path : String
  pub fname : String
  pub delays : List ℕ

-- What EnqueueDownload returns, and the goroutine that it may have started.
pub record Enqueued : Type 0 where
  pub ext_path : String
  pub content_type : String
  pub file_size : ℕ
  pub error : Option WwwError
  pub retry : Option Retry

abbrev pub retry_policy : List ℕ
retry_policy = 2 ∷ 4 ∷ 8 ∷ 16 ∷ 32 ∷ 64 ∷ 128 ∷ []

-- EnqueueDownload, from the outcome of Download on
abbrev pub enqueued : String → String → String → String → String → Fetched → Enqueued
enqueued url root path ext_path fname f = record {
  ext_path = ext_path;
  content_type = f.content_type;
  file_size = f.file_size;
  error = if is_timeout f.error then none else f.error;
  retry =
      if is_timeout f.error
      then some
          (record { url = url; root = root; path = path; fname = fname; delays = retry_policy })
      else none;
}

module _ (os : Os) (net : Network) where
  -- GenerateRandomFilename in this world. The clock and the random text make the names that come
  -- after: the counter passes all the rounds, also those that were not needed.
  abbrev pub new_name : ℕ → World → String → String → String → Option (String × String)
  new_name rounds w url root path = generate_random_filename os rounds w.fs url root path w.names

  -- DownloadContent; `none` if the rounds for a name do not suffice
  unfoldable pub download_content :
      ℕ → World → String → String → String → Option (World × (String × Fetched))
  unfolding fetch
  download_content rounds w url root path = elim (new_name rounds w url root path) [
    | none ↦ none
    | some (ext_path, fname) ↦
        let end =
          fetch os net (record w { names = w.names + rounds }) url root path fname true [] in
        some (end.0, (ext_path, end.1))
  ]

  -- EnqueueDownload; `none` if the rounds for a name do not suffice
  unfoldable pub enqueue_download : ℕ → World → String → String → String → Option (World × Enqueued)
  unfolding download
  enqueue_download rounds w url root path = elim (new_name rounds w url root path) [
    | none ↦ none
    | some (ext_path, fname) ↦
        let end = download os net (record w { names = w.names + rounds }) url root path fname [] in
        some (end.0, enqueued url root path ext_path fname end.1)
  ]

  -- The loop of the goroutine, with the seconds slept before and the call of SetContentType, if it
  -- comes to one: the URL, the content type and the size.
  pub retry_loop : World → Retry → List ℕ → ℕ → World × (ℕ × Option (String × String × ℕ))
  unfolding download
  retry_loop w r [] slept = (w, (slept, none))
  retry_loop w r (delay ∷ delays) slept =
      let end = download os net w r.url r.root r.path r.fname [] in
      let again = retry_loop end.0 r delays (slept + delay) in
      if is_timeout end.1.error
      then again
      else (end.0, (slept + delay, some (r.url, end.1.content_type, end.1.file_size)))
