-- ===== src/Migrator/Tests.antt =====
-- The theorems on dbase/migrator.go at concrete inputs.
use goblocks.Prelude.Text.{Text, codes}
use goblocks.Prelude.Eq.{nat_eq, int_eq, string_eq}
use goblocks.Prelude.Map.{get, put}
use goblocks.Prelude.{ℕ, ◌+◌, String, ◌≡◌, refl, false, Option, none, some, List, [], ◌∷◌, length}
use goblocks.Migrator.{
  Entries, no_more, file, dir, Failures, Db, Migration, process_files_in, apply_migration,
  in_transaction, has_hash,
}
use goblocks.Migrator.Sorted.{Reordered, IsSorted}
use goblocks.Migrator.Order.{in_order, apply_all, process-apply_all}
use goblocks.Migrator.Repeated.{apply_all_again}

-- an engine that counts the bytes it runs, and refuses an empty script
abbrev counting : ℕ → Text → Option ℕ
counting n [] = none
counting n (b ∷ bs) = some (n + length (b ∷ bs))

abbrev healthy : List String → Failures
healthy path = record { read = false; query = false; begin = false; insert = false; commit = false }

abbrev empty_db : Db ℕ
empty_db = record { content = 0; hashes = [] }

abbrev tree : Entries
tree = file "b.sql" (codes "drop") (dir "a" (file "c.sql" (codes "alter") no_more) no_more)

process-apply_all_example :
    (sorted : Entries) × Reordered tree sorted
    × IsSorted sorted
    × (process_files_in counting length healthy ("Tables" ∷ []) (some tree) empty_db
        ≡ apply_all counting length healthy (in_order ("Tables" ∷ []) sorted) empty_db)
process-apply_all_example = process-apply_all counting length healthy ("Tables" ∷ []) tree empty_db

abbrev migrations : List Migration
migrations = in_order ("Tables" ∷ []) tree

abbrev migrated : Db ℕ
migrated = record { content = 9; hashes = ("c.sql", 5) ∷ ("b.sql", 4) ∷ [] }

apply_all_again_example : apply_all counting length healthy migrations migrated ≡ (migrated, none)
unfolding get put apply_all apply_migration has_hash in_transaction
apply_all_again_example =
    apply_all_again counting length healthy migrations empty_db migrated
      (refl, (refl, tt), (refl, tt, tt)) (refl, (refl, tt)) refl
