-- ===== src/Www/Saved.antt =====
-- What a download leaves in the file system.
use goblocks.Prelude.Text.{Text}
use goblocks.Prelude.Eq.{◌==◌, ==_refl, nat_eq, int_eq, string_eq}
use goblocks.Prelude.Map.{get, put, get-put}
use goblocks.Prelude.{
  ℕ, ◌+◌, String, ◌≡◌, refl, ◌∙◌, ◌⊎◌, inl, inr, Bool, true, false, ◌||◌, Option, none, some, List,
  [], ◌∷◌, arith, nat_beq, if◌then◌else◌, length, take,
}
use goblocks.File.{CopyFailure, regular, FileSystem, Os, exists}
use goblocks.Www.{
  Response, Answer, timed_out, not_sent, responds, Network, WwwError, timeout, request_failed,
  bad_status, bad_gzip, mkdir_failed, create_failed, copy_failed, RequestOpt, req_ignore_403,
  req_ignore_404, req_ignore_406, req_ignore_410, req_ignore_451, ignorable_status, has_opt,
  check_status_code, got, fails, wrap_gzip_body, get_response, Fetched, copied, cut_short,
  not_copied, World, save, fetch_got, fetch,
}

-- the status that an option accepts
abbrev pub status_of : RequestOpt → ℕ
status_of req_ignore_403 = 403
status_of req_ignore_404 = 404
status_of req_ignore_406 = 406
status_of req_ignore_410 = 410
status_of req_ignore_451 = 451

-- 200, and what the options accept
abbrev pub accepted : ℕ → List RequestOpt → Bool
accepted code [] = nat_beq code 200
accepted code (o ∷ opts) = nat_beq code (status_of o) || accepted code opts

-- the results of a request without a body to save
abbrev pub refused : Option String → WwwError → Fetched
refused url e = record { content_type = ""; new_url = url; file_size = 0; buf = []; error = some e }

-- the results of a request whose body was there to save
abbrev pub told : Response → ℕ → Text → Option WwwError → Fetched
told r size buf e = record {
  content_type = r.content_type;
  new_url = r.request_url;
  file_size = size;
  buf = buf;
  error = e;
}

abbrev pub broke_off : Option ℕ → Option WwwError
broke_off none = none
broke_off (some n) = some (copy_failed n)

-- Whether a status outside 200 is accepted, by the table and by the options.
ignored : ℕ → List RequestOpt → Bool
ignored code opts = elim (get ignorable_status code) [ none ↦ false | some opt ↦ has_opt opts opt ]

ignored-nil : (code : ℕ) → ignored code [] ≡ false
unfolding ignored has_opt ignorable_status get
ignored-nil code = ground arith

ignored-cons :
    (code : ℕ) (o : RequestOpt) (opts : List RequestOpt)
    → ignored code (o ∷ opts) ≡ (nat_beq code (status_of o) || ignored code opts)
unfolding ignored has_opt ignorable_status get
ignored-cons code req_ignore_403 opts = ground arith
ignored-cons code req_ignore_404 opts = ground arith
ignored-cons code req_ignore_406 opts = ground arith
ignored-cons code req_ignore_410 opts = ground arith
ignored-cons code req_ignore_451 opts = ground arith

ignored-accepted :
    (code : ℕ) (opts : List RequestOpt)
    → (nat_beq code 200 || ignored code opts) ≡ accepted code opts
ignored-accepted code [] = ground (arith, ignored-nil code)
ignored-accepted code (o ∷ opts) =
    ground (arith, ignored-cons code o opts, ignored-accepted code opts)

check_status_code-accepted :
    (r : Response) (opts : List RequestOpt) → check_status_code r opts ≡ accepted r.status_code opts
unfolding check_status_code ignored
check_status_code-accepted r opts = ignored-accepted r.status_code opts

module _ (os : Os) (net : Network) where
  -- What becomes of a body that was there to save: it stands in the file, as far as it could be read,
  -- and the error tells if it broke off; or io.Copy failed to write, and the file holds what was
  -- written; or the file or its directory could not be made.
  abbrev pub Stored :
      FileSystem
      → String
      → String
      → Bool
      → Response
      → Text
      → Option ℕ
      → FileSystem × Fetched
      → Type 0
  Stored fs fpath full_path to_buf r text e (end, f) =
      ((os.copy_failure full_path text ≡ none)
        × (get end full_path ≡ some (regular text))
        × (f ≡ told r (length text) (if to_buf then text else []) (broke_off e)))
      ⊎ (((c : CopyFailure) × (os.copy_failure full_path text ≡ some c)
            × (get end full_path ≡ some (regular (take c.written text)))
            × (f
                ≡ told r (length (take c.written text))
                    (if to_buf then take (c.written + c.ahead) text else [])
                    (some (copy_failed c.error))))
          ⊎ (((n : ℕ) × (os.create_failure full_path ≡ some n)
                × (f ≡ told r 0 [] (some (create_failed n))))
              ⊎ ((n : ℕ) × (exists os fs fpath ≡ false)
                  × ((os.mkdir_all fs fpath).1 ≡ some n)
                  × (f ≡ told r 0 [] (some (mkdir_failed n))))))

  -- a gzip body, by what gzip reads of it
  abbrev pub Unzipped :
      FileSystem
      → String
      → String
      → Bool
      → Response
      → (ℕ ⊎ (Text × Option ℕ))
      → FileSystem × Fetched
      → Type 0
  Unzipped fs fpath full_path to_buf r (inl e) (end, f) =
      (end ≡ fs) × (f ≡ refused none (bad_gzip e))
  Unzipped fs fpath full_path to_buf r (inr (text, e)) out =
      Stored fs fpath full_path to_buf r text e out

  -- a response, by whether its status is accepted and whether its body is in gzip
  abbrev pub Taken :
      FileSystem → String → String → Bool → Response → Bool → Bool → FileSystem × Fetched → Type 0
  Taken fs fpath full_path to_buf r false zipped (end, f) =
      (end ≡ fs) × (f ≡ refused r.request_url (bad_status r.status_code r.body))
  Taken fs fpath full_path to_buf r true false out =
      Stored fs fpath full_path to_buf r r.body r.body_error out
  Taken fs fpath full_path to_buf r true true out =
      Unzipped fs fpath full_path to_buf r (net.gunzip r.body r.body_error) out

  abbrev pub Saved :
      FileSystem → String → String → Bool → List RequestOpt → Answer → FileSystem × Fetched → Type 0
  Saved fs fpath full_path to_buf opts timed_out (end, f) = (end ≡ fs) × (f ≡ refused none timeout)
  Saved fs fpath full_path to_buf opts (not_sent e) (end, f) =
      (end ≡ fs) × (f ≡ refused none (request_failed e))
  Saved fs fpath full_path to_buf opts (responds r) out =
      Taken fs fpath full_path to_buf r (accepted r.status_code opts) (r.content_encoding == "gzip")
        out

  module _ (fs : FileSystem) (fpath fname : String) (to_buf : Bool) (r : Response) (text : Text)
      (e : Option ℕ) where
    abbrev IsStored : FileSystem × Fetched → Type 0
    IsStored out = Stored fs fpath (os.join fpath fname) to_buf r text e out

    copied-told :
        (e : Option ℕ)
        → copied r.content_type r.request_url text to_buf e
          ≡ told r (length text) (if to_buf then text else []) (broke_off e)
    copied-told none = refl
    copied-told (some n) = refl

    get-written :
        (base : FileSystem) (full_path : String) (part : Text)
        → get (put base full_path (regular part)) full_path ≡ some (regular part)
    get-written base full_path part =
        get-put base full_path full_path (regular part) ∙ (rw (==_refl full_path) refl)

    written-IsStored :
        (base : FileSystem) (o : Option CopyFailure)
        → os.copy_failure (os.join fpath fname) text ≡ o
        → IsStored (elim o [
          | none ↦ (
            put base (os.join fpath fname) (regular text),
            copied r.content_type r.request_url text to_buf e,
          )
          | some c ↦ (
            put base (os.join fpath fname) (regular (take c.written text)),
            cut_short r.content_type r.request_url text to_buf c,
          )
        ])
    written-IsStored base none q =
        inl (q, get-written base (os.join fpath fname) text, copied-told e)
    written-IsStored base (some c) q =
        inr (inl (c, q, get-written base (os.join fpath fname) (take c.written text), refl))

    created-IsStored :
        (base : FileSystem) (o : Option ℕ)
        → os.create_failure (os.join fpath fname) ≡ o
        → IsStored (elim o [
          | some n ↦ (base, not_copied r.content_type r.request_url (create_failed n))
          | none ↦ elim (os.copy_failure (os.join fpath fname) text) [
            | none ↦ (
              put base (os.join fpath fname) (regular text),
              copied r.content_type r.request_url text to_buf e,
            )
            | some c ↦ (
              put base (os.join fpath fname) (regular (take c.written text)),
              cut_short r.content_type r.request_url text to_buf c,
            )
          ]
        ])
    created-IsStored base (some n) q = inr (inr (inl (n, q, refl)))
    created-IsStored base none q =
        written-IsStored base (os.copy_failure (os.join fpath fname) text) refl

    made-IsStored :
        (base : FileSystem) (o : Option ℕ)
        → ((n : ℕ)
            → o ≡ some n
            → (exists os fs fpath ≡ false) × ((os.mkdir_all fs fpath).1 ≡ some n))
        → IsStored (elim o [
          | some n ↦ (base, not_copied r.content_type r.request_url (mkdir_failed n))
          | none ↦ elim (os.create_failure (os.join fpath fname)) [
            | some n ↦ (base, not_copied r.content_type r.request_url (create_failed n))
            | none ↦ elim (os.copy_failure (os.join fpath fname) text) [
              | none ↦ (
                put base (os.join fpath fname) (regular text),
                copied r.content_type r.request_url text to_buf e,
              )
              | some c ↦ (
                put base (os.join fpath fname) (regular (take c.written text)),
                cut_short r.content_type r.request_url text to_buf c,
              )
            ]
          ]
        ])
    made-IsStored base (some n) why = inr (inr (inr (n, (why n refl).0, (why n refl).1, refl)))
    made-IsStored base none why =
        created-IsStored base (os.create_failure (os.join fpath fname)) refl

    save-IsStored : IsStored (save os net fs fpath fname to_buf text e r.content_type r.request_url)
    save-IsStored =
        let made : FileSystem × Option ℕ =
          if exists os fs fpath then (fs, none) else os.mkdir_all fs fpath in
        made-IsStored made.0 made.1 (λ n q. ground (arith, q))

  gunzip-Unzipped :
      (fs : FileSystem) (root path fname : String) (to_buf : Bool) (r : Response)
      (z : ℕ ⊎ (Text × Option ℕ))
      → (fname == "") ≡ false
      → Unzipped fs (os.join root path) (os.join (os.join root path) fname) to_buf r z (
          fetch_got os net fs root path fname to_buf (elim z [
            | inl e ↦ fails (bad_gzip e) none
            | inr (text, e) ↦ got text e r.content_type r.request_url
          ]))
  gunzip-Unzipped fs root path fname to_buf r (inl e) ne = (refl, refl)
  gunzip-Unzipped fs root path fname to_buf r (inr (text, e)) ne =
      rw ne (save-IsStored fs (os.join root path) fname to_buf r text e)

  responds-Taken :
      (fs : FileSystem) (root path fname : String) (to_buf : Bool) (r : Response)
      (valid zipped : Bool)
      → (fname == "") ≡ false
      → (r.content_encoding == "gzip") ≡ zipped
      → Taken fs (os.join root path) (os.join (os.join root path) fname) to_buf r valid zipped (
          fetch_got os net fs root path fname to_buf (
            if valid
            then wrap_gzip_body net r
            else fails (bad_status r.status_code r.body) r.request_url))
  responds-Taken fs root path fname to_buf r false zipped ne q = (refl, refl)
  responds-Taken fs root path fname to_buf r true false ne q =
      rw (q, ne) (save-IsStored fs (os.join root path) fname to_buf r r.body r.body_error)
  responds-Taken fs root path fname to_buf r true true ne q =
      rw q (gunzip-Unzipped fs root path fname to_buf r (net.gunzip r.body r.body_error) ne)

  answer-Saved :
      (fs : FileSystem) (root path fname : String) (to_buf : Bool) (opts : List RequestOpt)
      (a : Answer)
      → (fname == "") ≡ false
      → Saved fs
          (os.join root path)
          (os.join (os.join root path) fname)
          to_buf
          opts
          a
          (fetch_got os net fs root path fname to_buf (get_response net a opts))
  unfolding get_response
  answer-Saved fs root path fname to_buf opts timed_out ne = (refl, refl)
  answer-Saved fs root path fname to_buf opts (not_sent e) ne = (refl, refl)
  answer-Saved fs root path fname to_buf opts (responds r) ne =
      rw (check_status_code-accepted r opts) (
        responds-Taken fs root path fname to_buf r (accepted r.status_code opts)
          (r.content_encoding == "gzip") ne refl)

  -- Fetch into a file. A request that gets no answer, a status other than 200 and those that the
  -- options accept, and a gzip body that cannot be opened change no file and give their error.
  -- Otherwise the body, decompressed if its encoding is gzip and as it is if not, stands in the file
  -- as far as it could be read, and with its size; that it broke off is told by the error, and the
  -- file stays. If the directory or the file cannot be made, the error says so, and nothing is
  -- counted; if a write fails, the file holds what was written before, with its size and the error.
  pub fetch-Saved :
      (w : World) (url root path fname : String) (to_buf : Bool) (opts : List RequestOpt)
      → (fname == "") ≡ false
      → Saved w.fs
          (os.join root path)
          (os.join (os.join root path) fname)
          to_buf
          opts
          (net.answer w.requests url)
          (
            (fetch os net w url root path fname to_buf opts).0.fs,
            (fetch os net w url root path fname to_buf opts).1,
          )
  unfolding fetch
  fetch-Saved w url root path fname to_buf opts ne =
      answer-Saved w.fs root path fname to_buf opts (net.answer w.requests url) ne
