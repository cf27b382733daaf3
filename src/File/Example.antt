-- ===== src/File/Example.antt =====
-- An operating system for the tests on files.
use goblocks.Prelude.Eq.{nat_eq, int_eq, string_eq}
use goblocks.Prelude.Map.{delete}
use goblocks.Prelude.{inr, none, [], nat_beq, if◌then◌else◌}
use goblocks.File.{Os}

-- nothing fails, and the directories are there
abbrev pub os : Os
os = record {
  stat_failure = λ name. none;
  open_failure = λ name. none;
  create_failure = λ name. none;
  copy_failure = λ name text. none;
  remove_failure = λ name. none;
  mkdir_all = λ fs path. (fs, none);
  dir = λ path. "/";
  join = λ a b. b;
  entry = λ a b. b;
  read_dir = λ fs path. inr [];
  remove_all = λ fs path. (delete fs path, none);
  random_name = λ url n. if nat_beq n 0 then "a" else "b";
}
