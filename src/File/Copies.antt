-- ===== src/File/Copies.antt =====
-- What copying, touching and clearing leave in the file system.
use goblocks.Prelude.Text.{Text}
use goblocks.Prelude.Eq.{◌==◌, ==_refl, nat_eq, int_eq, string_eq}
use goblocks.Prelude.Map.{get, put, get-put}
use goblocks.Prelude.{
  ℕ, String, ◌≡◌, refl, ap, ◌∙◌, ◌≢◌, ◌⊎◌, inl, inr, true, false, ◌++◌, sym, take, drop,
  take-append-drop, Option, none, some, [], arith, if◌then◌else◌, Bool-cases, length,
}
use goblocks.File.{
  CopyFailure, Written, copy_error, Node, regular, directory, device, FileSystem, FileError, failed,
  Os, contents, stat, exists, open_file, copy_opened, copy_stat, copy, touch_with_path, touch_made,
}

-- The regular files of `fs` stand in `end` as they are.
abbrev pub Keeps : FileSystem → FileSystem → Type 0
Keeps fs end =
    (name : String) (t : Text) → get fs name ≡ some (regular t) → get end name ≡ some (regular t)

-- MkdirAll changes no file.
abbrev pub MkdirKeeps : Os → Type 0
MkdirKeeps os = (fs : FileSystem) (path : String) → Keeps fs (os.mkdir_all fs path).0

module _ (os : Os) where
  -- The files other than `name` stand in `end` as they are.
  abbrev pub KeepsOthers : FileSystem → String → FileSystem → Type 0
  KeepsOthers fs name end =
      (other : String) (t : Text)
      → (name == other) ≡ false
      → get fs other ≡ some (regular t)
      → get end other ≡ some (regular t)

  -- what is read of the source when the destination has been emptied
  abbrev pub readable : FileSystem → String → String → Text
  readable fs src dest = if src == dest then [] else contents fs src

  -- A copy that succeeds leaves the source's text at the destination, but an empty file when they
  -- are one. One that breaks off leaves the part of it that was written; one that fails before changes
  -- no file.
  abbrev pub Copied : FileSystem → String → String → FileSystem × (FileError ⊎ Written) → Type 0
  Copied fs src dest (end, inl e) = Keeps fs end
  Copied fs src dest (end, inr (n, some e)) =
      KeepsOthers fs dest end
      × (part : Text) × (rest : Text) × (readable fs src dest ≡ part ++ rest)
      × (get end dest ≡ some (regular part))
      × (n ≡ length part)
  Copied fs src dest (end, inr (n, none)) =
      KeepsOthers fs dest end
      × (get end dest ≡ some (regular (readable fs src dest)))
      × (n ≡ length (readable fs src dest))

  contents-created :
      (fs made : FileSystem) (src dest : String) (t : Text)
      → Keeps fs made
      → get fs src ≡ some (regular t)
      → contents (put made dest (regular [])) src ≡ (if src == dest then [] else contents fs src)
  contents-created fs made src dest t keeps q = ground (
    arith,
    get-put made dest src (regular []),
    keeps src t q,
    q,
    string_eq.beq_iff src dest,
    string_eq.beq_iff dest src,
  )

  -- After Create and the write of a text, the other files are as they were.
  written-KeepsOthers :
      (fs made : FileSystem) (dest : String) (text : Text)
      → Keeps fs made
      → KeepsOthers fs dest (put (put made dest (regular [])) dest (regular text))
  written-KeepsOthers fs made dest text keeps other t ne q =
      let created = put made dest (regular []) in
      get-put created dest other (regular text)
      ∙ (rw (ne) (get-put made dest other (regular []) ∙ (rw (ne) (keeps other t q))))

  written_at :
      (created : FileSystem) (dest : String) (text : Text)
      → get (put created dest (regular text)) dest ≡ some (regular text)
  written_at created dest text = get-put created dest dest (regular text) ∙ (rw (==_refl dest) refl)

  copy_opened-Copied :
      (fs made : FileSystem) (src dest : String) (t : Text)
      → Keeps fs made
      → get fs src ≡ some (regular t)
      → Copied fs src dest (copy_opened os made src dest)
  copy_opened-Copied fs made src dest t keeps q =
      let created = put made dest (regular []) in
      let text = contents created src in
      let same = contents-created fs made src dest t keeps q in
      let part : CopyFailure → Text = λ f. take f.written text in
      elim (os.create_failure dest)
        as (λ o. Copied fs src dest (elim o [
          | some e ↦ (made, inl (failed e))
          | none ↦ elim (os.copy_failure dest text) [
            | none ↦ (put created dest (regular text), inr (length text, none))
            | some f ↦ (put created dest (regular (part f)), inr (length (part f), some f.error))
          ]
        ])) [
          | some e ↦ keeps
          | none ↦
              elim (os.copy_failure dest text)
                as (λ o. Copied fs src dest (elim o [
                  | none ↦ (put created dest (regular text), inr (length text, none))
                  | some f ↦
                      (put created dest (regular (part f)), inr (length (part f), some f.error))
                ])) [
                  | none ↦ (
                    written-KeepsOthers fs made dest text keeps,
                    written_at created dest text ∙ (rw (same) refl),
                    ap length same,
                  )
                  | some f ↦ (
                    written-KeepsOthers fs made dest (part f) keeps,
                    part f,
                    drop f.written text,
                    sym same ∙ sym (take-append-drop f.written text),
                    written_at created dest (part f),
                    refl,
                  )
                ]
        ]

  copy_stat-Copied :
      (fs : FileSystem) (src dest : String) (r : FileError ⊎ Node)
      → MkdirKeeps os
      → ((t : Text) → r ≡ inr (regular t) → get fs src ≡ some (regular t))
      → Copied fs src dest (copy_stat os fs src dest r)
  copy_stat-Copied fs src dest (inl e) law q = λ name t p. p
  copy_stat-Copied fs src dest (inr directory) law q = λ name t p. p
  copy_stat-Copied fs src dest (inr device) law q = λ name t p. p
  copy_stat-Copied fs src dest (inr (regular t)) law q =
      let made = os.mkdir_all fs (os.dir dest) in
      let keeps = law fs (os.dir dest) in
      elim (open_file os fs src)
        as (λ o. Copied fs src dest (elim o [
          | some e ↦ (fs, inl e)
          | none ↦ elim made.1 [
            | some e ↦ (made.0, inl (failed e))
            | none ↦ copy_opened os made.0 src dest
          ]
        ])) [
          | some e ↦ λ name t p. p
          | none ↦
              elim made.1
                as (λ o. Copied fs src dest (elim o [
                  | some e ↦ (made.0, inl (failed e))
                  | none ↦ copy_opened os made.0 src dest
                ])) [
                  | some e ↦ keeps
                  | none ↦ copy_opened-Copied fs made.0 src dest t keeps (q t refl)
                ]
        ]

  stat-get :
      (fs : FileSystem) (name : String) (t : Text)
      → stat os fs name ≡ inr (regular t)
      → get fs name ≡ some (regular t)
  stat-get fs name t q = ground (arith, q)

  -- Copy, when MkdirAll changes no file. On success the destination holds the source's text, and its
  -- length is returned, except that a file copied onto itself is left empty. If io.Copy fails, the
  -- destination holds the part of that text that was written, whose length is returned with the error.
  -- In both cases every other file holds what it held. After an error from before, every file does.
  pub copy-Copied :
      (fs : FileSystem) (src dest : String)
      → MkdirKeeps os
      → Copied fs src dest (copy os fs src dest)
  unfolding copy
  copy-Copied fs src dest law =
      copy_stat-Copied fs src dest (stat os fs src) law (λ t. stat-get fs src t)

  exists-get :
      (fs : FileSystem) (name : String) (n : Node)
      → (name == "") ≡ false
      → get fs name ≡ some n
      → exists os fs name ≡ true
  unfolding exists
  exists-get fs name n ne q = ground (arith, ne, q)

  -- what TouchWithPath leaves: no file is changed, and without an error `fname` exists
  abbrev pub Touched : FileSystem → String → FileSystem × Option FileError → Type 0
  Touched fs fname (end, some e) = Keeps fs end
  Touched fs fname (end, none) = Keeps fs end × (exists os end fname ≡ true)

  Copied-Touched :
      (fs base : FileSystem) (src fname : String) (r : FileSystem × (FileError ⊎ Written))
      → (fname == "") ≡ false
      → Copied base src fname r
      → Keeps fs r.0
      → Touched fs fname (r.0, copy_error r.1)
  Copied-Touched fs base src fname (end, inl e) ne c keeps = keeps
  Copied-Touched fs base src fname (end, inr (n, none)) ne c keeps =
      (keeps, exists-get end fname _ ne c.1)
  Copied-Touched fs base src fname (end, inr (n, some e)) ne c keeps = keeps

  KeepsOthers-Keeps :
      (fs end : FileSystem) (dest : String)
      → ((t : Text) → get fs dest ≢ some (regular t))
      → KeepsOthers fs dest end
      → Keeps fs end
  KeepsOthers-Keeps fs end dest free keeps name t q = elim (Bool-cases (dest == name)) [
    | inl e ↦ absurd (free t (ap (get fs) ((string_eq.beq_iff dest name).0 e) ∙ q))
    | inr ne ↦ keeps name t ne q
  ]

  Copied-Keeps :
      (fs : FileSystem) (src dest : String) (r : FileSystem × (FileError ⊎ Written))
      → ((t : Text) → get fs dest ≢ some (regular t))
      → Copied fs src dest r
      → Keeps fs r.0
  Copied-Keeps fs src dest (end, inl e) free c = c
  Copied-Keeps fs src dest (end, inr (n, none)) free c = KeepsOthers-Keeps fs end dest free c.0
  Copied-Keeps fs src dest (end, inr (n, some e)) free c = KeepsOthers-Keeps fs end dest free c.0

  -- A copy to a path where no file stands changes no file.
  copy_new-Keeps :
      (fs : FileSystem) (src dest : String)
      → MkdirKeeps os
      → ((t : Text) → get fs dest ≢ some (regular t))
      → Keeps fs (copy os fs src dest).0
  copy_new-Keeps fs src dest law free =
      Copied-Keeps fs src dest (copy os fs src dest) free (copy-Copied fs src dest law)

  touch_made-Touched :
      (fs made : FileSystem) (fname template : String) (o : Option ℕ)
      → (fname == "") ≡ false
      → MkdirKeeps os
      → Keeps fs made
      → Touched fs fname (touch_made os made fname template o)
  touch_made-Touched fs made fname template (some e) ne law keeps = keeps
  touch_made-Touched fs made fname template none ne law keeps =
      let copied = copy os made template fname in
      elim (Bool-cases (exists os made fname)) [
        | inl x ↦ rw x (keeps, x)
        | inr x ↦
            let free : (t : Text) → get made fname ≢ some (regular t) =
              λ t q. cc (x, exists-get made fname (regular t) ne q) in
            rw x (
              Copied-Touched fs made template fname copied ne (copy-Copied made template fname law)
                (λ name t q. copy_new-Keeps made template fname law free name t (keeps name t q)))
      ]

  -- TouchWithPath of a path that is not empty, when MkdirAll changes no file: every file holds what it
  -- held, and if no error is returned, the path exists.
  pub touch_with_path-Touched :
      (fs : FileSystem) (fname template : String)
      → (fname == "") ≡ false
      → MkdirKeeps os
      → Touched fs fname (touch_with_path os fs fname template)
  unfolding touch_with_path
  touch_with_path-Touched fs fname template ne law =
      let made = os.mkdir_all fs (os.dir fname) in
      touch_made-Touched fs made.0 fname template made.1 ne law (law fs (os.dir fname))
