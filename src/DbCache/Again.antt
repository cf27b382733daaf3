-- ===== src/DbCache/Again.antt =====
-- What GetURL remembers.
use goblocks.Prelude.Eq.{◌==◌, ==_refl, nat_eq, int_eq, string_eq}
use goblocks.Prelude.Map.{get, get-put}
use goblocks.Prelude.{
  ℕ, String, ◌≡◌, refl, sym, ◌∙◌, ◌⊎◌, inl, inr, true, false, Option, none, some, arith, Bool-cases,
  Option-cases,
}
use mathlib.Core.Path.{subst}
use goblocks.File.{Os}
use goblocks.Www.{Network, World}
use goblocks.Www.Delayed.{Enqueued, enqueue_download}
use goblocks.DbCache.{
  CacheRow, Db, State, CacheError, get_cache_record, upserted, with_download, set_cache_record,
  is_cached, store_url, get_url,
}

-- the path that the table has for a URL; the empty path for none
abbrev pub recorded : State → String → String
recorded st url = elim (get st.rows url) [ none ↦ "" | some row ↦ row.file_path ]

module _ (db : Db) where
  -- getCacheRecord gives what is recorded, or nothing, and leaves it recorded.
  get_cache_record-recorded :
      (st : State) (url : String)
      → (recorded (get_cache_record db st url).0 url ≡ recorded st url)
        × (((get_cache_record db st url).1.0 ≡ recorded st url)
            ⊎ ((get_cache_record db st url).1.0 ≡ ""))
  unfolding get_cache_record
  get_cache_record-recorded st url = elim (Option-cases (get st.rows url)) [
    | inl q ↦ ground (arith, q)
    | inr (row, q) ↦
        ground
          (arith, q, get-put st.rows url url (record row { last_read_at = st.now }), ==_refl url)
  ]

  set_cache_record-recorded :
      (st : State) (url path content_type : String) (size : ℕ)
      → (set_cache_record db st url path content_type size).1 ≡ none
      → recorded (set_cache_record db st url path content_type size).0 url ≡ path
  unfolding set_cache_record
  set_cache_record-recorded st url path content_type size q =
      let row = upserted db st (get st.rows url) path content_type size in
      ground (arith, q, get-put st.rows url url row, ==_refl url)

  module _ (os : Os) (net : Network) (cache_dir : String) where
    -- What GetURL returns without an error is recorded.
    abbrev pub Remembered : String → Option (State × (String × Option CacheError)) → Type 0
    Remembered url none = Unit
    Remembered url (some (st, (path, some e))) = Unit
    Remembered url (some (st, (path, none))) = recorded st url ≡ path

    set-Remembered :
        (st : State) (url path content_type : String) (size : ℕ)
        → Remembered url (
            some (
              (set_cache_record db st url path content_type size).0,
              (path, (set_cache_record db st url path content_type size).1),
            ))
    set-Remembered st url path content_type size =
        elim (Option-cases (set_cache_record db st url path content_type size).1) [
          | inl q ↦ rw q (set_cache_record-recorded st url path content_type size q)
          | inr (e, q) ↦ rw q tt
        ]

    store_url-Remembered :
        (st : State) (url : String) (r : Option (World × Enqueued))
        → Remembered url (store_url db os net cache_dir st url r)
    store_url-Remembered st url none = tt
    store_url-Remembered st url (some (w, d)) = elim (Option-cases d.error) [
      | inl q ↦
          rw q (set-Remembered (with_download db st w d) url d.ext_path d.content_type d.file_size)
      | inr (e, q) ↦ rw q tt
    ]

    is_cached_nil :
        (st : State) (path : String) → path ≡ "" → is_cached db os net cache_dir st path ≡ false
    is_cached_nil st path p = rw p refl

    is_cached-recorded :
        (st : State) (url : String)
        → let seen = get_cache_record db st url in
          is_cached db os net cache_dir seen.0 seen.1.0 ≡ true → recorded seen.0 url ≡ seen.1.0
    is_cached-recorded st url q =
        let seen = get_cache_record db st url in
        let found = get_cache_record-recorded st url in
        elim found.1 [ inl p ↦ found.0 ∙ sym p | inr p ↦ cc (q, is_cached_nil seen.0 seen.1.0 p) ]

    get_url-Remembered :
        (rounds : ℕ) (st : State) (url : String)
        → Remembered url (get_url db os net cache_dir rounds st url)
    unfolding get_url
    get_url-Remembered rounds st url =
        let seen = get_cache_record db st url in
        elim (Bool-cases (is_cached db os net cache_dir seen.0 seen.1.0)) [
          | inl q ↦ rw (q) (is_cached-recorded st url q)
          | inr q ↦ rw (q) (
              store_url-Remembered seen.0 url
                (enqueue_download os net rounds seen.0.world url cache_dir seen.0.today))
        ]

    get_url-recorded :
        (rounds : ℕ) (st end : State) (url path : String)
        → get_url db os net cache_dir rounds st url ≡ some (end, (path, none))
        → recorded end url ≡ path
    get_url-recorded rounds st end url path q =
        subst (Remembered url) q (get_url-Remembered rounds st url)

    -- A query that succeeds gives what is recorded.
    pub get_cache_record-found :
        (st : State) (url : String)
        → db.query_failure st.rows url ≡ none
        → (get_cache_record db st url).1.0 ≡ recorded st url
    unfolding get_cache_record
    get_cache_record-found st url q = ground (arith, q)

    pub get_cache_record-world :
        (st : State) (url : String) → (get_cache_record db st url).0.world ≡ st.world
    unfolding get_cache_record
    get_cache_record-world st url = ground arith

    nil-is_cached :
        (st : State) (path : String) → is_cached db os net cache_dir st path ≡ true → ¬ (path ≡ "")
    nil-is_cached st path q p = cc (q, is_cached_nil st path p)

    -- A path that is recorded and cached stands in a row.
    recorded-row :
        (st : State) (url path : String)
        → recorded st url ≡ path
        → is_cached db os net cache_dir st path ≡ true
        → (row : CacheRow) × (get st.rows url ≡ some row) × (row.file_path ≡ path)
    recorded-row st url path p q = elim (Option-cases (get st.rows url)) [
      | inl g ↦ absurd (nil-is_cached st path q (sym p ∙ (rw (recorded, g) refl)))
      | inr (row, g) ↦ (row, g, (sym (rw (recorded, g) refl) ∙ p))
    ]

    -- `again` is `st` but for the time of the last reading of `url`, whose row is `row`.
    pub record Reread (st again : State) (url : String) (row : CacheRow) : Type 0 where
      pub row_of_url :
          get again.rows url
          ≡ some (record {
            file_path = row.file_path;
            content_type = row.content_type;
            file_size = row.file_size;
            last_read_at = st.now;
          })
      pub other_rows : (j : String) → (url == j) ≡ false → get again.rows j ≡ get st.rows j
      pub same_world : again.world ≡ st.world
      pub same_pending : again.pending ≡ st.pending
      pub same_now : again.now ≡ st.now
      pub same_today : again.today ≡ st.today

    get_cache_record-Reread :
        (st : State) (url : String) (row : CacheRow)
        → db.query_failure st.rows url ≡ none
        → get st.rows url ≡ some row
        → Reread st (get_cache_record db st url).0 url row
    unfolding get_cache_record
    get_cache_record-Reread st url row f g =
        let read : CacheRow = record row { last_read_at = st.now } in
        rw (get_cache_record, f, g)
          (record {
            row_of_url = get-put st.rows url url read ∙ (rw (==_refl url) refl);
            other_rows = λ j n. get-put st.rows url j read ∙ (rw (n) refl);
            same_world = refl;
            same_pending = refl;
            same_now = refl;
            same_today = refl;
          })

    -- GetURL after GetURL. If the first call gave a path without an error, the file stands there, and
    -- the query of the second call succeeds, then the second call gives that path without an error,
    -- and makes no request: the row of the URL, which has that path, keeps its path, content type and
    -- size and gets the time of the call as its last reading, the rows of other URLs, the files, the
    -- network and the goroutines that are still to run stay as they were.
    pub get_url-again :
        (rounds more : ℕ) (st end : State) (url path : String)
        → get_url db os net cache_dir rounds st url ≡ some (end, (path, none))
        → is_cached db os net cache_dir end path ≡ true
        → db.query_failure end.rows url ≡ none
        → (row : CacheRow) × (again : State) × (get end.rows url ≡ some row)
          × (row.file_path ≡ path)
          × (get_url db os net cache_dir more end url ≡ some (again, (path, none)))
          × Reread end again url row
    unfolding get_url
    get_url-again rounds more st end url path q cached found =
        let seen = get_cache_record db end url in
        let was = get_url-recorded rounds st end url path q in
        let same : seen.1.0 ≡ path = get_cache_record-found end url found ∙ was in
        let hit : is_cached db os net cache_dir seen.0 seen.1.0 ≡ true =
          rw (same, get_cache_record-world end url) cached in
        let (row, g, p) = recorded-row end url path was cached in
        (row, seen.0, g, p, (rw (hit, same) refl), get_cache_record-Reread end url row found g)
