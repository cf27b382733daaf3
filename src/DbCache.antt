-- ===== src/DbCache.antt =====
-- cache/dbcache/dbcache.go: the cache of downloads whose records are in a database. The table
-- file_cache is a map from source_url; the statements are written out as changes of it, and what makes
-- a statement fail is a parameter. The default of last_read_at is taken to be the time. The messages to the logger are left out.
pub mod Again
pub mod Steps
mod Tests
use goblocks.Prelude.Text.{Text}
use goblocks.Prelude.Eq.{◌==◌, nat_eq, int_eq, string_eq}
use goblocks.Prelude.Map
use goblocks.Prelude.Map.{Map, get, put}
use goblocks.Prelude.{
  ℕ, String, ◌⊎◌, inl, inr, Bool, not, ◌&&◌, Option, none, some, List, [], ◌∷◌, ◌++◌, if◌then◌else◌,
}
use goblocks.File.{FileError, Os, exists, read}
use goblocks.Www.{Network, World, WwwError, Fetched}
use goblocks.Www.Delayed.{Retry, Enqueued, enqueue_download, download_content, retry_loop}

-- A row of file_cache, with the columns that the statements name.
pub record CacheRow : Type 0 where
  pub file_path : String
  pub content_type : String
  pub file_size : ℕ
  pub last_read_at : ℕ

abbrev pub FileCache : Type 0
FileCache = Map String CacheRow

-- What makes QueryRow and Exec fail.
pub record Db : Type 0 where
  pub query_failure : FileCache → String → Option ℕ
  pub exec_failure : FileCache → String → Option ℕ

-- The table, the files and the network, the goroutines of delayed downloads, the time of the database
-- and the day as a path.
pub record State : Type 0 where
  pub rows : FileCache
  pub world : World
  pub pending : List Retry
  pub now : ℕ
  pub today : String

pub data CacheError : Type 0 where
  download_failed : WwwError → CacheError
  exec_failed : ℕ → CacheError
  read_failed : FileError → CacheError

-- cacheRec as far as getCacheRecord returns it: file_path and content_type
abbrev pub Found : Type 0
Found = String × String

module _ (db : Db) where
  -- getCacheRecord; a query that fails changes nothing
  pub get_cache_record : State → String → State × Found
  get_cache_record st url = elim (db.query_failure st.rows url) [
    | some e ↦ (st, ("", ""))
    | none ↦ elim (get st.rows url) [
      | none ↦ (st, ("", ""))
      | some row ↦ (
        record st { rows = put st.rows url (record row { last_read_at = st.now }) },
        (row.file_path, row.content_type),
      )
    ]
  ]

  -- the row that setCacheRecord's statement leaves: on a conflict it keeps the size
  abbrev pub upserted : State → Option CacheRow → String → String → ℕ → CacheRow
  upserted st (some row) ext_path content_type file_size = record row {
    file_path = ext_path;
    content_type = content_type;
  }
  upserted st none ext_path content_type file_size = record {
    file_path = ext_path;
    content_type = content_type;
    file_size = file_size;
    last_read_at = st.now;
  }

  -- setCacheRecord
  pub set_cache_record : State → String → String → String → ℕ → State × Option CacheError
  set_cache_record st url ext_path content_type file_size = elim (db.exec_failure st.rows url) [
    | some e ↦ (st, some (exec_failed e))
    | none ↦ (
      record st {
        rows = put st.rows url (upserted st (get st.rows url) ext_path content_type file_size);
      },
      none,
    )
  ]

  -- contentTypeUpdate, whose error is logged
  pub content_type_update : State → String → String → ℕ → State
  content_type_update st url content_type file_size = elim (db.exec_failure st.rows url) [
    | some e ↦ st
    | none ↦ elim (get st.rows url) [
      | none ↦ st
      | some row ↦ record st {
        rows = put st.rows url (record row { content_type = content_type; file_size = file_size });
      }
    ]
  ]

  -- after a download, whose goroutine may go on
  abbrev pub with_download : State → World → Enqueued → State
  with_download st w d = record st {
    world = w;
    pending = st.pending ++ elim d.retry [ none ↦ [] | some r ↦ r ∷ [] ];
  }

  module _ (os : Os) (net : Network) (cache_dir : String) where
    -- the test of GetURL and GetContent
    abbrev pub is_cached : State → String → Bool
    is_cached st ext_path =
        not (ext_path == "") && exists os st.world.fs (os.join cache_dir ext_path)

    -- GetURL, from the outcome of requestURL on
    abbrev pub store_url :
        State → String → Option (World × Enqueued) → Option (State × (String × Option CacheError))
    store_url st url none = none
    store_url st url (some (w, d)) =
        let started = with_download st w d in
        elim d.error [
          | some e ↦ some (started, (d.ext_path, some (download_failed e)))
          | none ↦
              let set = set_cache_record started url d.ext_path d.content_type d.file_size in
              some (set.0, (d.ext_path, set.1))
        ]

    -- GetURL: the path and the error; `none` if the rounds for a name do not suffice
    pub get_url : ℕ → State → String → Option (State × (String × Option CacheError))
    unfolding get_cache_record set_cache_record
    get_url rounds st url =
        let (seen, (ext_path, content_type)) = get_cache_record st url in
        if is_cached seen ext_path
        then some (seen, (ext_path, none))
        else store_url seen url (enqueue_download os net rounds seen.world url cache_dir seen.today)

    -- GetContent, from the outcome of fetchURL on
    abbrev pub store_content :
        State
        → String
        → Option (World × (String × Fetched))
        → Option (State × (Text × (String × Option CacheError)))
    store_content st url none = none
    store_content st url (some (w, (ext_path, f))) =
        let st' : State = record st { world = w } in
        elim f.error [
          | some e ↦ some (st', (f.buf, (f.content_type, some (download_failed e))))
          | none ↦
              let set = set_cache_record st' url ext_path f.content_type f.file_size in
              some (set.0, (f.buf, (f.content_type, set.1)))
        ]

    abbrev pub read_content : FileError ⊎ Text → String → Text × (String × Option CacheError)
    read_content (inl e) content_type = ([], (content_type, some (read_failed e)))
    read_content (inr body) content_type = (body, (content_type, none))

    -- GetContent: the body, the content type and the error
    pub get_content : ℕ → State → String → Option (State × (Text × (String × Option CacheError)))
    unfolding get_cache_record set_cache_record
    get_content rounds st url =
        let (seen, (ext_path, content_type)) = get_cache_record st url in
        if is_cached seen ext_path
        then some
            (seen, read_content (read os seen.world.fs (os.join cache_dir ext_path)) content_type)
        else store_content seen url
            (download_content os net rounds seen.world url cache_dir seen.today)

    -- a goroutine of a delayed download, run to its end, with contentTypeUpdate if it comes to it
    pub finish_retry : State → Retry → State
    unfolding content_type_update
    finish_retry st r =
        let end = retry_loop os net st.world r r.delays 0 in
        elim end.1.1 [
          | none ↦ record st { world = end.0 }
          | some (url, content_type, size) ↦
              content_type_update (record st { world = end.0 }) url content_type size
        ]
