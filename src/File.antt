-- ===== src/File.antt =====
-- file/file.go: the helpers on files. The file system is a map from paths to what stands there; what
-- the operating system decides besides (permissions, MkdirAll, the shape of paths) are parameters, and
-- an error of its is a number. What io.Copy wrote before it failed stays in the file. The reads and
-- closes of os.ReadFile and Close are taken not to fail. Mkdir, Rmdir, Move, URLFileExtension and
-- NormalizePath only call the standard library.
pub mod Copies
pub mod Example
pub mod Fresh
pub mod Normal
mod Tests
use goblocks.Prelude.Text.{Text}
use goblocks.Prelude.Eq.{◌==◌, nat_eq, int_eq, string_eq}
use goblocks.Prelude.Map
use goblocks.Prelude.Map.{Map, get, put, delete}
use goblocks.Prelude.{
  ℕ, zero, suc, String, ◌⊎◌, inl, inr, Bool, true, false, not, ◌&&◌, Option, none, some, List, [],
  ◌∷◌, if◌then◌else◌, length, take,
}

pub data Node : Type 0 where
  regular : Text → Node
  directory device : Node

abbrev pub FileSystem : Type 0
FileSystem = Map String Node

pub data FileError : Type 0 where
  not_exist not_regular : FileError
  failed : ℕ → FileError

-- A copy that io.Copy does not complete: the bytes that it has written, those that it has read ahead
-- of them, and its error.
pub record CopyFailure : Type 0 where
  pub written : ℕ
  pub ahead : ℕ
  pub error : ℕ

pub record Os : Type 0 where
  -- os.Stat fails although the file exists
  pub stat_failure : String → Option ℕ
  pub open_failure : String → Option ℕ
  -- os.Create, for a path where no directory stands
  pub create_failure : String → Option ℕ
  -- io.Copy of a text into a file that is open
  pub copy_failure : String → Text → Option CopyFailure
  pub remove_failure : String → Option ℕ
  pub mkdir_all : FileSystem → String → FileSystem × Option ℕ
  -- filepath.Dir
  pub dir : String → String
  -- filepath.Join of two paths
  pub join : String → String → String
  -- path + "/" + name
  pub entry : String → String → String
  -- os.ReadDir: the names with IsDir
  pub read_dir : FileSystem → String → (ℕ ⊎ List (String × Bool))
  -- os.RemoveAll
  pub remove_all : FileSystem → String → FileSystem × Option ℕ
  -- the n-th name that GenerateRandomFilename makes for a URL, with the URL's extension
  pub random_name : String → ℕ → String

-- the number of bytes that io.Copy wrote, and its error
abbrev pub Written : Type 0
Written = ℕ × Option ℕ

-- the error of Copy
abbrev pub copy_error : (FileError ⊎ Written) → Option FileError
copy_error (inl e) = some e
copy_error (inr (n, none)) = none
copy_error (inr (n, some e)) = some (failed e)

abbrev pub contents : FileSystem → String → Text
contents fs name = elim (get fs name) [
  | some (regular text) ↦ text
  | some directory ↦ []
  | some device ↦ []
  | none ↦ []
]

module _ (os : Os) where
  -- os.Stat
  abbrev pub stat : FileSystem → String → (FileError ⊎ Node)
  stat fs name = elim (get fs name) [
    | none ↦ inl not_exist
    | some node ↦ elim (os.stat_failure name) [ none ↦ inr node | some e ↦ inl (failed e) ]
  ]

  abbrev pub is_not_exist : (FileError ⊎ Node) → Bool
  is_not_exist (inl not_exist) = true
  is_not_exist (inl not_regular) = false
  is_not_exist (inl (failed e)) = false
  is_not_exist (inr node) = false

  -- Exists
  unfoldable pub exists : FileSystem → String → Bool
  exists fs fname = if fname == "" then false else not (is_not_exist (stat fs fname))

  -- os.Open of a file whose Stat succeeded
  abbrev pub open_file : FileSystem → String → Option FileError
  open_file fs name = elim (get fs name) [
    | none ↦ some not_exist
    | some node ↦ elim (os.open_failure name) [ none ↦ none | some e ↦ some (failed e) ]
  ]

  -- Copy, from os.Create on: Create empties a file that is there, the source's too
  abbrev pub copy_opened : FileSystem → String → String → FileSystem × (FileError ⊎ Written)
  copy_opened fs src dest = elim (os.create_failure dest) [
    | some e ↦ (fs, inl (failed e))
    | none ↦
        let created = put fs dest (regular []) in
        let text = contents created src in
        elim (os.copy_failure dest text) [
          | none ↦ (put created dest (regular text), inr (length text, none))
          | some f ↦
              let part = take f.written text in
              (put created dest (regular part), inr (length part, some f.error))
        ]
  ]

  -- Copy, from the test of the source's mode on
  abbrev pub copy_stat :
      FileSystem → String → String → (FileError ⊎ Node) → FileSystem × (FileError ⊎ Written)
  copy_stat fs src dest (inl e) = (fs, inl e)
  copy_stat fs src dest (inr directory) = (fs, inl not_regular)
  copy_stat fs src dest (inr device) = (fs, inl not_regular)
  copy_stat fs src dest (inr (regular text)) = elim (open_file fs src) [
    | some e ↦ (fs, inl e)
    | none ↦
        let made = os.mkdir_all fs (os.dir dest) in
        elim made.1 [ some e ↦ (made.0, inl (failed e)) | none ↦ copy_opened made.0 src dest ]
  ]

  -- Copy: an error from before io.Copy, with which no bytes are returned, or what io.Copy gives
  pub copy : FileSystem → String → String → FileSystem × (FileError ⊎ Written)
  copy fs src dest = copy_stat fs src dest (stat fs src)

  -- Delete
  pub delete_file : FileSystem → String → FileSystem × Option FileError
  delete_file fs fname =
      if is_not_exist (stat fs fname)
      then (fs, some not_exist)
      else elim (os.remove_failure fname) [
        | none ↦ (delete fs fname, none)
        | some e ↦ (fs, some (failed e))
      ]

  -- Read
  pub read : FileSystem → String → (FileError ⊎ Text)
  read fs fname = elim (open_file fs fname) [ some e ↦ inl e | none ↦ inr (contents fs fname) ]

  -- TouchWithPath, from the outcome of Mkdir on
  abbrev pub touch_made : FileSystem → String → String → Option ℕ → FileSystem × Option FileError
  touch_made fs fname template (some e) = (fs, some (failed e))
  touch_made fs fname template none =
      let copied = copy fs template fname in
      if exists fs fname then (fs, none) else (copied.0, copy_error copied.1)

  -- TouchWithPath
  pub touch_with_path : FileSystem → String → String → FileSystem × Option FileError
  unfolding exists copy
  touch_with_path fs fname template =
      let made = os.mkdir_all fs (os.dir fname) in touch_made made.0 fname template made.1

  -- the loop of ClearDirectory
  abbrev pub clear_entries :
      FileSystem → String → Bool → List (String × Bool) → FileSystem × Option ℕ
  clear_entries fs path flat [] = (fs, none)
  clear_entries fs path flat ((name, is_dir) ∷ entries) =
      let removed = os.remove_all fs (os.entry path name) in
      let skipped = clear_entries fs path flat entries in
      let rest = clear_entries removed.0 path flat entries in
      if flat && is_dir
      then skipped
      else elim removed.1 [ some e ↦ (removed.0, some e) | none ↦ rest ]

  -- ClearDirectory
  pub clear_directory : FileSystem → String → Bool → FileSystem × Option ℕ
  clear_directory fs path flat = elim (os.read_dir fs path) [
    | inl e ↦ (fs, some e)
    | inr entries ↦ clear_entries fs path flat entries
  ]

  -- GenerateRandomFilename, whose n-th name is the first tried: the external name and the file's name;
  -- `none` if the rounds do not suffice
  unfoldable pub generate_random_filename :
      ℕ → FileSystem → String → String → String → ℕ → Option (String × String)
  unfolding exists
  generate_random_filename zero fs url root path n = none
  generate_random_filename (suc rounds) fs url root path n =
      let again = generate_random_filename rounds fs url root path (suc n) in
      let fname = os.random_name url n in
      if exists fs (os.join root (os.join path fname))
      then again
      else some (os.join path fname, fname)
