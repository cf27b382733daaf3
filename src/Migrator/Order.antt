-- ===== src/Migrator/Order.antt =====
-- The order in which the migrator applies the files of a directory.
use goblocks.Prelude.Text.{Text}
use goblocks.Prelude.{ℕ, String, ◌≡◌, refl, sym, ap, ◌∙◌, Option, none, some, List, [], ◌∷◌, ◌++◌}
use goblocks.Migrator.{
  Entries, no_more, file, dir, Failures, Error, Db, Migration, and_then, apply_migration,
  apply_files, apply_dirs, process_files_in, sort_by_name,
}
use goblocks.Migrator.Sorted.{Reordered, IsSorted, sort_by_name-Reordered, sort_by_name-IsSorted}

-- The migrations of the files of a directory itself, in its order.
abbrev pub files_of : List String → Entries → List Migration
files_of path no_more = []
files_of path (dir name sub rest) = files_of path rest
files_of path (file name contents rest) =
    record { path = path ++ name ∷ []; base = name; contents = contents } ∷ files_of path rest

-- The migrations of its directories: each directory's own directories first, then its files.
abbrev pub nested : List String → Entries → List Migration
nested path no_more = []
nested path (file name contents rest) = nested path rest
nested path (dir name sub rest) =
    (nested (path ++ name ∷ []) sub ++ files_of (path ++ name ∷ []) sub) ++ nested path rest

abbrev pub in_order : List String → Entries → List Migration
in_order path es = nested path es ++ files_of path es

module _ {S : Type 0} (exec : S → Text → Option S) (hash : Text → ℕ)
    (failures : List String → Failures) where
  -- one migration after another, until one returns an error
  unfoldable pub apply_all : List Migration → Db S → Db S × Option Error
  apply_all [] db = (db, none)
  apply_all (m ∷ ms) db = and_then (apply_migration exec hash failures db m) (apply_all ms)

  and_then_assoc :
      (r : Db S × Option Error) (f g : Db S → Db S × Option Error)
      → and_then (and_then r f) g ≡ and_then r (λ d. and_then (f d) g)
  and_then_assoc (d, none) f g = refl
  and_then_assoc (d, some e) f g = refl

  and_then_cong :
      (r : Db S × Option Error) (f g : Db S → Db S × Option Error)
      → ((d : Db S) → f d ≡ g d)
      → and_then r f ≡ and_then r g
  and_then_cong (d, none) f g h = h d
  and_then_cong (d, some e) f g h = refl

  apply_all-append :
      (ms ns : List Migration) (db : Db S)
      → apply_all (ms ++ ns) db ≡ and_then (apply_all ms db) (apply_all ns)
  unfolding apply_all
  apply_all-append [] ns db = refl
  apply_all-append (m ∷ ms) ns db =
      and_then_cong (apply_migration exec hash failures db m) (apply_all (ms ++ ns))
        (λ d. and_then (apply_all ms d) (apply_all ns)) (λ d. apply_all-append ms ns d)
      ∙ sym (and_then_assoc (apply_migration exec hash failures db m) (apply_all ms) (apply_all ns))

  apply_files_lem :
      (path : List String) (es : Entries) (db : Db S)
      → apply_files exec hash failures path es db ≡ apply_all (files_of path es) db
  unfolding apply_files apply_all
  apply_files_lem path no_more db = refl
  apply_files_lem path (dir name sub rest) db = apply_files_lem path rest db
  apply_files_lem path (file name contents rest) db =
      and_then_cong
        (apply_migration exec hash failures db
          (record { path = path ++ name ∷ []; base = name; contents = contents }))
        (apply_files exec hash failures path rest) (apply_all (files_of path rest))
        (apply_files_lem path rest)

  apply_dirs_lem :
      (path : List String) (es : Entries) (db : Db S)
      → apply_dirs exec hash failures path es db ≡ apply_all (nested path es) db
  unfolding apply_dirs apply_all
  apply_dirs_lem path no_more db = refl
  apply_dirs_lem path (file name contents rest) db = apply_dirs_lem path rest db
  apply_dirs_lem path (dir name sub rest) db =
      let inner = path ++ name ∷ [] in
      rw
        (
          apply_all-append (nested inner sub ++ files_of inner sub) (nested path rest) db,
          apply_all-append (nested inner sub) (files_of inner sub) db,
          apply_dirs_lem inner sub db,
        )
        (ap (λ r. and_then r (apply_dirs exec hash failures path rest))
            (and_then_cong (apply_all (nested inner sub) db)
              (apply_files exec hash failures inner sub) (apply_all (files_of inner sub))
              (apply_files_lem inner sub))
          ∙ and_then_cong
              (and_then (apply_all (nested inner sub) db) (apply_all (files_of inner sub)))
              (apply_dirs exec hash failures path rest) (apply_all (nested path rest))
              (apply_dirs_lem path rest))

  -- processFilesIn applies the migrations of a directory one after another, until one fails, by name,
  -- however the directory is listed. Its entries and those of the directories within it, reordered,
  -- stand by name; first come all migrations that lie in its directories, each directory in the same
  -- manner, and then its own files.
  pub process-apply_all :
      (path : List String) (es : Entries) (db : Db S)
      → (sorted : Entries) × Reordered es sorted
        × IsSorted sorted
        × (process_files_in exec hash failures path (some es) db
            ≡ apply_all (in_order path sorted) db)
  unfolding process_files_in
  process-apply_all path es db =
      let sorted = sort_by_name es in
      (
        sorted,
        sort_by_name-Reordered es,
        sort_by_name-IsSorted es,
        rw
            (
              apply_all-append (nested path sorted) (files_of path sorted) db,
              apply_dirs_lem path sorted db,
            )
            (and_then_cong (apply_all (nested path sorted) db)
              (apply_files exec hash failures path sorted) (apply_all (files_of path sorted))
              (apply_files_lem path sorted)),
      )
