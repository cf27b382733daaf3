-- ===== src/Migrator.antt =====
-- dbase/migrator.go: the files of a migration directory, applied to the database in order, each at
-- most once by its hash. The SQL engine, SHA-1 and the failures of the file system and the driver are
-- parameters.
pub mod Sorted
pub mod Order
pub mod Repeated
mod Tests
use goblocks.Prelude.Text.{Text, codes}
use goblocks.Prelude.Eq.{nat_eq, int_eq, string_eq}
use goblocks.Prelude.Map
use goblocks.Prelude.Map.{Map, put}
use goblocks.Prelude.{
  ℕ, String, Bool, ltb, true, false, not, ◌||◌, Option, none, some, List, [], ◌∷◌, ◌++◌, nat_beq,
  if◌then◌else◌,
}

-- A directory as os.ReadDir lists it, in any order.
pub data Entries : Type 0 where
  no_more : Entries
  file : String → Text → Entries → Entries
  dir : String → Entries → Entries → Entries

-- the lexical order of texts
pub text_ltb : Text → Text → Bool
text_ltb [] [] = false
text_ltb [] (y ∷ ys) = true
text_ltb (x ∷ xs) [] = false
text_ltb (x ∷ xs) (y ∷ ys) =
    let rest = text_ltb xs ys in if ltb x y then true else if ltb y x then false else rest

-- strings.Compare(a, b) < 0; UTF-8 keeps the order of the characters
abbrev pub less : String → String → Bool
less a b = text_ltb (codes a) (codes b)

-- sort.Slice by name, as an insertion sort: a file goes before the entries that are not less
abbrev pub put_file : String → Text → Entries → Entries
put_file n t no_more = file n t no_more
put_file n t (file m u rest) =
    let later = put_file n t rest in if less m n then file m u later else file n t (file m u rest)
put_file n t (dir m sub rest) =
    let later = put_file n t rest in if less m n then dir m sub later else file n t (dir m sub rest)

abbrev pub put_dir : String → Entries → Entries → Entries
put_dir n es no_more = dir n es no_more
put_dir n es (file m u rest) =
    let later = put_dir n es rest in if less m n then file m u later else dir n es (file m u rest)
put_dir n es (dir m sub rest) =
    let later = put_dir n es rest in if less m n then dir m sub later else dir n es (dir m sub rest)

-- The entries by name; those of the directories are sorted at once, not when the walk comes to them.
unfoldable pub sort_by_name : Entries → Entries
sort_by_name no_more = no_more
sort_by_name (file n t rest) = put_file n t (sort_by_name rest)
sort_by_name (dir n sub rest) = put_dir n (sort_by_name sub) (sort_by_name rest)

-- What fails for one file: reading it, the query for its hash, the begin of the transaction, the
-- insert of its hash, the commit.
pub record Failures : Type 0 where
  pub read : Bool
  pub query : Bool
  pub begin : Bool
  pub insert : Bool
  pub commit : Bool

pub data Error : Type 0 where
  read_failed query_failed begin_failed exec_failed insert_failed : Error
  dir_not_found not_supported bad_path : Error

-- The database: what the migrations change, and schema_migrations, by object_name.
pub record Db (S : Type 0) : Type 0 where
  pub content : S
  pub hashes : Map String ℕ

-- a file to be applied: its path, its base name and its contents
pub record Migration : Type 0 where
  pub path : List String
  pub base : String
  pub contents : Text

-- exists (select from public.schema_migrations where hash = $1)
pub has_hash : Map String ℕ → ℕ → Bool
has_hash [] h = false
has_hash ((k, v) ∷ m) h = nat_beq v h || has_hash m h

-- One step after another, unless the first returns an error.
abbrev pub and_then {ℓ} :
    {D : Type ℓ} → D × Option Error → (D → D × Option Error) → D × Option Error
and_then (d, some e) next = (d, some e)
and_then (d, none) next = next d

module _ {S : Type 0} (exec : S → Text → Option S) (hash : Text → ℕ)
    (failures : List String → Failures) where
  -- the transaction of applyMigration; a failed commit is not reported
  pub in_transaction : Db S → Migration → Db S × Option Error
  in_transaction db m =
      if (failures m.path).begin
      then (db, some begin_failed)
      else elim (exec db.content m.contents) [
        | none ↦ (db, some exec_failed)
        | some s ↦
            if (failures m.path).insert
            then (db, some insert_failed)
            else if (failures m.path).commit
            then (db, none)
            else (record { content = s; hashes = put db.hashes m.base (hash m.contents) }, none)
      ]

  -- applyMigration
  pub apply_migration : Db S → Migration → Db S × Option Error
  unfolding in_transaction has_hash
  apply_migration db m =
      if (failures m.path).read
      then (db, some read_failed)
      else if (failures m.path).query
      then (db, some query_failed)
      else if has_hash db.hashes (hash m.contents)
      then (db, none)
      else in_transaction db m

  -- the second loop of processFilesIn, over the files
  pub apply_files : List String → Entries → Db S → Db S × Option Error
  unfolding apply_migration
  apply_files path no_more db = (db, none)
  apply_files path (dir name sub rest) db = apply_files path rest db
  apply_files path (file name contents rest) db =
      and_then
        (apply_migration db (record { path = path ++ name ∷ []; base = name; contents = contents }))
        (apply_files path rest)

  -- the first loop of processFilesIn, over the directories
  pub apply_dirs : List String → Entries → Db S → Db S × Option Error
  unfolding apply_files
  apply_dirs path no_more db = (db, none)
  apply_dirs path (file name contents rest) db = apply_dirs path rest db
  apply_dirs path (dir name sub rest) db =
      let inner = path ++ name ∷ [] in
      and_then (and_then (apply_dirs inner sub db) (apply_files inner sub)) (apply_dirs path rest)

  -- processFilesIn of a directory, which is sorted first, or of one that does not exist
  pub process_files_in : List String → Option Entries → Db S → Db S × Option Error
  unfolding sort_by_name apply_dirs apply_files
  process_files_in path none db = (db, none)
  process_files_in path (some es) db =
      let sorted = sort_by_name es in and_then (apply_dirs path sorted db) (apply_files path sorted)

  -- the loop of Migrate over the five directories
  pub process_all : (String → Option Entries) → List String → Db S → Db S × Option Error
  unfolding process_files_in
  process_all tree [] db = (db, none)
  process_all tree (object ∷ objects) db =
      and_then (process_files_in (object ∷ []) (tree object) db) (process_all tree objects)

  -- Migrate: `supported` is what assureMigrationSupported returns, `path_ok` whether NormalizePath
  -- succeeds, and `tree` is none if the base path does not exist.
  pub migrate :
      Bool → Option Error → Bool → Option (String → Option Entries) → Db S → Db S × Option Error
  unfolding process_all
  migrate base_path_empty supported path_ok tree db =
      if base_path_empty then (db, none) else elim supported [
        | some e ↦ (db, some e)
        | none ↦ if not path_ok then (db, some bad_path) else elim tree [
          | none ↦ (db, some dir_not_found)
          | some t ↦
              process_all t ("Schemas" ∷ "Tables" ∷ "Procedures" ∷ "Triggers" ∷ "Migrations" ∷ [])
                db
        ]
      ]
