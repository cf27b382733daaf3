-- ===== src/DbCache/Steps/Stable.antt =====
-- What stays cached.
use goblocks.Prelude.Eq.{◌==◌, nat_eq, int_eq, string_eq}
use goblocks.Prelude.Map.{get, get-put}
use goblocks.Prelude.{
  ℕ, String, ◌≡◌, refl, sym, ◌∙◌, inl, inr, true, false, Option, none, some, List, [], ◌∷◌, arith,
  Bool-cases, Option-cases, get_elem?,
}
use mathlib.Core.Path.{subst}
use goblocks.File.{Os}
use goblocks.Www.{Network, World, Fetched, download}
use goblocks.Www.Delayed.{Retry, Enqueued, enqueue_download, download_content, is_timeout}
use goblocks.Www.Growth.{
  Grows, MkdirGrows, fetch-Grows, EnqueuedGrows, enqueue_download-Grows, download_content-Grows,
}
use goblocks.DbCache.{
  Db, State, get_cache_record, upserted, with_download, set_cache_record, content_type_update,
  is_cached, store_url, get_url, store_content, get_content,
}
use goblocks.DbCache.Again.{recorded, get_cache_record-found, get_cache_record-world}
use goblocks.DbCache.Steps.{
  Call, gets_url, gets_content, wakes, without, state_of, attempt, woken, step, run,
}

module _ (db : Db) (os : Os) (net : Network) (cache_dir : String) (law : MkdirGrows os) where
  -- `url` is recorded with `path`, and the file is there.
  abbrev pub Held : String → String → State → Type 0
  Held url path st = (recorded st url ≡ path) × (is_cached db os net cache_dir st path ≡ true)

  -- What `st` has recorded for `url` and what exists, `end` has too.
  abbrev Kept : String → State → State → Type 0
  Kept url st end = (recorded end url ≡ recorded st url) × Grows os st.world.fs end.world.fs

  Kept-Held :
      (url path : String) (st end : State) → Kept url st end → Held url path st → Held url path end
  Kept-Held url path st end k h = (k.0 ∙ h.0, ground (arith, h.1, k.1 (os.join cache_dir path)))

  get_cache_record-Kept :
      (st : State) (url other : String) → Kept url st (get_cache_record db st other).0
  unfolding get_cache_record
  get_cache_record-Kept st url other = elim (Option-cases (get st.rows other)) [
    | inl q ↦ (ground (arith, q), λ name h. ground (arith, q, h))
    | inr (row, q) ↦ (
      ground (
        arith,
        q,
        get-put st.rows other url (record row { last_read_at = st.now }),
        string_eq.beq_iff other url,
      ),
      λ name h. ground (arith, q, h),
    )
  ]

  set_cache_record-Kept :
      (st : State) (url other path ct : String) (size : ℕ)
      → (other == url) ≡ false
      → Kept url st (set_cache_record db st other path ct size).0
  unfolding set_cache_record
  set_cache_record-Kept st url other path ct size ne = (
    ground (arith, ne, get-put st.rows other url (upserted db st (get st.rows other) path ct size)),
    λ name h. ground (arith, h),
  )

  content_type_update-Kept :
      (st : State) (url other ct : String) (size : ℕ)
      → Kept url st (content_type_update db st other ct size)
  unfolding content_type_update
  content_type_update-Kept st url other ct size = elim (Option-cases (get st.rows other)) [
    | inl q ↦ (ground (arith, q), λ name h. ground (arith, q, h))
    | inr (row, q) ↦ (
      ground (
        arith,
        q,
        get-put st.rows other url (record row { content_type = ct; file_size = size }),
        string_eq.beq_iff other url,
      ),
      λ name h. ground (arith, q, h),
    )
  ]

  Kept-trans : (url : String) (st t end : State) → Kept url st t → Kept url t end → Kept url st end
  Kept-trans url st t end a b = (b.0 ∙ a.0, λ name h. b.1 name (a.1 name h))

  set-Kept_trans :
      (url : String) (st t : State) (other path ct : String) (size : ℕ)
      → (other == url) ≡ false
      → Kept url st t
      → Kept url st (set_cache_record db t other path ct size).0
  set-Kept_trans url st t other path ct size ne k =
      Kept-trans url st t (set_cache_record db t other path ct size).0 k
        (set_cache_record-Kept t url other path ct size ne)

  -- The same for a step that may not return.
  abbrev KeptIf : String → State → Option State → Type 0
  KeptIf url st none = Unit
  KeptIf url st (some end) = Kept url st end

  KeptIf-trans :
      (url : String) (st t : State) (end : Option State)
      → Kept url st t
      → KeptIf url t end
      → KeptIf url st end
  KeptIf-trans url st t none a b = tt
  KeptIf-trans url st t (some end) a b = Kept-trans url st t end a b

  abbrev pub HeldIf : String → String → Option State → Type 0
  HeldIf url path none = Unit
  HeldIf url path (some end) = Held url path end

  KeptIf-HeldIf :
      (url path : String) (st : State) (end : Option State)
      → KeptIf url st end
      → Held url path st
      → HeldIf url path end
  KeptIf-HeldIf url path st none k h = tt
  KeptIf-HeldIf url path st (some end) k h = Kept-Held url path st end k h

  store_url-KeptIf :
      (st : State) (url other : String) (r : Option (World × Enqueued))
      → (other == url) ≡ false
      → EnqueuedGrows os net law st.world.fs r
      → KeptIf url st (state_of (store_url db os net cache_dir st other r))
  store_url-KeptIf st url other none ne g = tt
  store_url-KeptIf st url other (some (w, d)) ne g = elim (Option-cases d.error) [
    | inr (e, q) ↦ rw q (refl, g)
    | inl q ↦ rw q (
        set-Kept_trans url st (with_download db st w d) other d.ext_path d.content_type d.file_size
          ne (refl, g))
  ]

  get_url-KeptIf :
      (rounds : ℕ) (st : State) (url other : String)
      → (other == url) ≡ false
      → KeptIf url st (state_of (get_url db os net cache_dir rounds st other))
  unfolding get_url
  get_url-KeptIf rounds st url other ne =
      let seen = get_cache_record db st other in
      let first = get_cache_record-Kept st url other in
      elim (Bool-cases (is_cached db os net cache_dir seen.0 seen.1.0)) [
        | inl q ↦ rw q first
        | inr q ↦ rw q (
            KeptIf-trans url st seen.0 _ first (
              store_url-KeptIf seen.0 url other
                (enqueue_download os net rounds seen.0.world other cache_dir seen.0.today) ne
                (enqueue_download-Grows os net law rounds seen.0.world other cache_dir
                  seen.0.today)))
      ]

  store_content-KeptIf :
      (st : State) (url other : String) (r : Option (World × (String × Fetched)))
      → (other == url) ≡ false
      → EnqueuedGrows os net law {A = String × Fetched} st.world.fs r
      → KeptIf url st (state_of (store_content db os net cache_dir st other r))
  store_content-KeptIf st url other none ne g = tt
  store_content-KeptIf st url other (some (w, (path, f))) ne g = elim (Option-cases f.error) [
    | inr (e, q) ↦ rw q (refl, g)
    | inl q ↦ rw q (
        set-Kept_trans url st (record st { world = w }) other path f.content_type f.file_size ne
          (refl, g))
  ]

  get_content-KeptIf :
      (rounds : ℕ) (st : State) (url other : String)
      → (other == url) ≡ false
      → KeptIf url st (state_of (get_content db os net cache_dir rounds st other))
  unfolding get_content
  get_content-KeptIf rounds st url other ne =
      let seen = get_cache_record db st other in
      let first = get_cache_record-Kept st url other in
      elim (Bool-cases (is_cached db os net cache_dir seen.0 seen.1.0)) [
        | inl q ↦ rw q first
        | inr q ↦ rw q (
            KeptIf-trans url st seen.0 _ first (
              store_content-KeptIf seen.0 url other
                (download_content os net rounds seen.0.world other cache_dir seen.0.today) ne
                (download_content-Grows os net law rounds seen.0.world other cache_dir
                  seen.0.today)))
      ]

  module _ (asked : (st : State) (url : String) → db.query_failure st.rows url ≡ none) where
    -- getCacheRecord of a URL that is held: the test of GetURL and GetContent succeeds.
    Held-hit :
        (st : State) (url path : String)
        → Held url path st
        → is_cached db os net cache_dir
            (get_cache_record db st url).0
            (get_cache_record db st url).1.0
          ≡ true
    Held-hit st url path h =
        rw
          (
            get_cache_record-found db os net cache_dir st url (asked st url),
            h.0,
            get_cache_record-world db os net cache_dir st url,
          )
          h.1

    same-KeptIf :
        (rounds : ℕ) (st : State) (url path : String)
        → Held url path st
        → KeptIf url st (state_of (get_url db os net cache_dir rounds st url))
          × KeptIf url st (state_of (get_content db os net cache_dir rounds st url))
    unfolding get_url get_content
    same-KeptIf rounds st url path h =
        let hit = Held-hit st url path h in
        let first = get_cache_record-Kept st url url in (rw hit first, rw hit first)

    attempt-Kept :
        (st : State) (url : String) (i : ℕ) (r : Retry) (delays : List ℕ)
        → Kept url st (attempt db os net cache_dir st i r delays)
    unfolding download
    attempt-Kept st url i r [] = (refl, λ name h. h)
    attempt-Kept st url i r (d ∷ delays) =
        let end = download os net st.world r.url r.root r.path r.fname [] in
        let g : Grows os st.world.fs end.0.fs =
          fetch-Grows os net law st.world r.url r.root r.path r.fname false [] in
        let t : State = record st { world = end.0; pending = without st.pending i } in
        elim (Bool-cases (is_timeout end.1.error)) [
          | inl q ↦ rw q (refl, g)
          | inr q ↦ rw q (
              Kept-trans url st t
                (content_type_update db t r.url end.1.content_type end.1.file_size) (refl, g)
                (content_type_update-Kept t url r.url end.1.content_type end.1.file_size))
        ]

    woken-Kept :
        (st : State) (url : String) (i : ℕ) (r : Option Retry)
        → Kept url st (woken db os net cache_dir st i r)
    woken-Kept st url i none = (refl, λ name h. h)
    woken-Kept st url i (some r) = attempt-Kept st url i r r.delays

    step-HeldIf :
        (rounds : ℕ) (st : State) (c : Call) (url path : String)
        → Held url path st
        → HeldIf url path (step db os net cache_dir rounds st c)
    unfolding step
    step-HeldIf rounds st (wakes i) url path h =
        Kept-Held url path st (woken db os net cache_dir st i (get_elem? st.pending i))
          (woken-Kept st url i (get_elem? st.pending i)) h
    step-HeldIf rounds st (gets_url other) url path h = elim (Bool-cases (other == url)) [
      | inl eq ↦
          subst (λ u. HeldIf url path (state_of (get_url db os net cache_dir rounds st u)))
            (sym ((string_eq.beq_iff other url).0 eq))
            (KeptIf-HeldIf url path st (state_of (get_url db os net cache_dir rounds st url))
              (same-KeptIf rounds st url path h).0 h)
      | inr ne ↦
          KeptIf-HeldIf url path st (state_of (get_url db os net cache_dir rounds st other))
            (get_url-KeptIf rounds st url other ne) h
    ]
    step-HeldIf rounds st (gets_content other) url path h = elim (Bool-cases (other == url)) [
      | inl eq ↦
          subst (λ u. HeldIf url path (state_of (get_content db os net cache_dir rounds st u)))
            (sym ((string_eq.beq_iff other url).0 eq))
            (KeptIf-HeldIf url path st (state_of (get_content db os net cache_dir rounds st url))
              (same-KeptIf rounds st url path h).1 h)
      | inr ne ↦
          KeptIf-HeldIf url path st (state_of (get_content db os net cache_dir rounds st other))
            (get_content-KeptIf rounds st url other ne) h
    ]

    -- What is cached stays cached. If a URL is recorded with a path at which a file stands, then after
    -- any calls of GetURL and GetContent and any attempts of delayed downloads, in any order, that
    -- returned, it is recorded with the same path, and a file stands there. MkdirAll is taken to
    -- remove nothing, and the query for a record not to fail.
    pub run-HeldIf :
        (rounds : ℕ) (st : State) (cs : List Call) (url path : String)
        → Held url path st
        → HeldIf url path (run db os net cache_dir rounds st cs)
    unfolding run
    run-HeldIf rounds st [] url path h = h
    run-HeldIf rounds st (c ∷ cs) url path h =
        elim (Option-cases (step db os net cache_dir rounds st c)) [
          | inl q ↦ rw (run, q) tt
          | inr (t, q) ↦
              let held : Held url path t =
                subst (HeldIf url path) q (step-HeldIf rounds st c url path h) in
              rw (run, q) (run-HeldIf rounds t cs url path held)
        ]
