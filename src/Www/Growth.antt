-- ===== src/Www/Growth.antt =====
-- Downloads only add to the file system.
use goblocks.Prelude.Text.{Text}
use goblocks.Prelude.Eq.{nat_eq, int_eq, string_eq}
use goblocks.Prelude.Map.{put, get-put}
use goblocks.Prelude.{
  ℕ, ◌+◌, String, Bool, true, false, Option, none, some, List, [], arith, inl, inr, ◌≡◌, take,
  if◌then◌else◌, Option-cases,
}
use goblocks.File.{Node, regular, FileSystem, Os, exists}
use goblocks.Www.{
  Network, RequestOpt, Got, got, fails, get_response, Fetched, World, save, fetch_got, fetch,
  download,
}
use goblocks.Www.Delayed.{enqueue_download, enqueued, new_name, download_content}

module _ (os : Os) where
  -- What exists in `fs` exists in `end`.
  abbrev pub Grows : FileSystem → FileSystem → Type 0
  Grows fs end = (name : String) → exists os fs name ≡ true → exists os end name ≡ true

  -- MkdirAll removes nothing.
  abbrev pub MkdirGrows : Type 0
  MkdirGrows = (fs : FileSystem) (path : String) → Grows fs (os.mkdir_all fs path).0

  put-Grows : (fs : FileSystem) (path : String) (n : Node) → Grows fs (put fs path n)
  unfolding exists
  put-Grows fs path n name h = ground (arith, h, get-put fs path name n)

  module _ (net : Network) (law : MkdirGrows) where
    save-Grows :
        (fs : FileSystem) (fpath fname : String) (to_buf : Bool) (text : Text) (e : Option ℕ)
        (ct : String) (url : Option String)
        → Grows fs (save os net fs fpath fname to_buf text e ct url).0
    save-Grows fs fpath fname to_buf text e ct url name h =
        let full_path = os.join fpath fname in
        let made : FileSystem =
          (if exists os fs fpath then (fs, none) else os.mkdir_all fs fpath).0 in
        let base : exists os made name ≡ true = ground (arith, h, law fs fpath name h) in
        elim (Option-cases (os.copy_failure full_path text)) [
          | inl q ↦ ground (arith, q, base, put-Grows made full_path (regular text) name base)
          | inr (f, q) ↦
              let part = take f.written text in
              ground (arith, q, base, put-Grows made full_path (regular part) name base)
        ]

    fetch_got-Grows :
        (fs : FileSystem) (root path fname : String) (to_buf : Bool) (g : Got)
        → Grows fs (fetch_got os net fs root path fname to_buf g).0
    fetch_got-Grows fs root path fname to_buf (fails e url) name h = h
    fetch_got-Grows fs root path fname to_buf (got text e ct url) name h =
        ground (arith, h, save-Grows fs (os.join root path) fname to_buf text e ct url name h)

    pub fetch-Grows :
        (w : World) (url root path fname : String) (to_buf : Bool) (opts : List RequestOpt)
        → Grows w.fs (fetch os net w url root path fname to_buf opts).0.fs
    unfolding fetch
    fetch-Grows w url root path fname to_buf opts =
        fetch_got-Grows w.fs root path fname to_buf
          (get_response net (net.answer w.requests url) opts)

    abbrev pub EnqueuedGrows : {A : Type 0} → FileSystem → Option (World × A) → Type 0
    EnqueuedGrows fs none = Unit
    EnqueuedGrows fs (some (w, d)) = Grows fs w.fs

    pub enqueue_download-Grows :
        (rounds : ℕ) (w : World) (url root path : String)
        → EnqueuedGrows w.fs (enqueue_download os net rounds w url root path)
    unfolding enqueue_download download
    enqueue_download-Grows rounds w url root path =
        elim (new_name os net rounds w url root path)
          as (λ n. EnqueuedGrows w.fs (elim n [
            | none ↦ none
            | some (ext_path, fname) ↦
                let end =
                  download os net (record w { names = w.names + rounds }) url root path fname [] in
                some (end.0, enqueued url root path ext_path fname end.1)
          ])) [
            | none ↦ tt
            | some (ext_path, fname) ↦
                fetch-Grows (record w { names = w.names + rounds }) url root path fname false []
          ]

    pub download_content-Grows :
        (rounds : ℕ) (w : World) (url root path : String)
        → EnqueuedGrows w.fs (download_content os net rounds w url root path)
    unfolding download_content
    download_content-Grows rounds w url root path =
        elim (new_name os net rounds w url root path)
          as (λ n. EnqueuedGrows {A = String × Fetched} w.fs (elim n [
            | none ↦ none
            | some (ext_path, fname) ↦
                let end =
                  fetch os net (record w { names = w.names + rounds }) url root path fname true
                    [] in
                some (end.0, (ext_path, end.1))
          ])) [
            | none ↦ tt
            | some (ext_path, fname) ↦
                fetch-Grows (record w { names = w.names + rounds }) url root path fname true []
          ]
