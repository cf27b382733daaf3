-- ===== src/Migrator/Repeated.antt =====
-- What a second run of the migrator does, and when it applies a file again.
use goblocks.Prelude.Text.{Text}
use goblocks.Prelude.Eq.{◌==◌, nat_eq, int_eq, string_eq}
use goblocks.Prelude.Map.{Map, get, put, get-put}
use goblocks.Prelude.{
  ℕ, String, ◌≡◌, refl, sym, ap, ◌⊎◌, inl, inr, true, false, Option, none, some, List, [], ◌∷◌,
  arith, All,
}
use goblocks.Migrator.{
  Failures, Error, Db, Migration, and_then, has_hash, in_transaction, apply_migration,
}
use goblocks.Migrator.Order.{apply_all}

-- No object has the base name, or another migration of the list.
abbrev pub Apart : List Migration → Map String ℕ → Type 0
Apart [] hashes = Unit
Apart (m ∷ ms) hashes =
    (get hashes m.base ≡ none) × All (λ n. (m.base == n.base) ≡ false) ms × Apart ms hashes

has_hash-put : (hs : Map String ℕ) (k : String) (h : ℕ) → has_hash (put hs k h) h ≡ true
unfolding has_hash put
has_hash-put [] k h = ground arith
has_hash-put ((j, v) ∷ hs) k h = ground (arith, has_hash-put hs k h)

has_hash-put_new :
    (hs : Map String ℕ) (k : String) (h v : ℕ)
    → get hs k ≡ none
    → has_hash hs h ≡ true
    → has_hash (put hs k v) h ≡ true
unfolding has_hash put get
has_hash-put_new [] k h v new old = ground arith
has_hash-put_new ((j, u) ∷ hs) k h v new old = ground (arith, has_hash-put_new hs k h v)

Apart-put :
    (ms : List Migration) (hs : Map String ℕ) (k : String) (v : ℕ)
    → All (λ n. (k == n.base) ≡ false) ms
    → Apart ms hs
    → Apart ms (put hs k v)
Apart-put [] hs k v other apart = tt
Apart-put (m ∷ ms) hs k v other apart =
    (rw (get-put hs k m.base v, other.0) (apart.0), apart.1, Apart-put ms hs k v other.1 apart.2)

and_then_done :
    {D : Type 0} (r : D × Option Error) (next : D → D × Option Error) (d : D)
    → and_then r next ≡ (d, none)
    → (r ≡ (r.0, none)) × (next r.0 ≡ (d, none))
and_then_done (d', none) next d done = (refl, done)
and_then_done (d', some e) next d done = ground (arith)

module _ {S : Type 0} (exec : S → Text → Option S) (hash : Text → ℕ)
    (failures : List String → Failures) where
  -- a migration that can be read and queried, and whose hash is recorded
  abbrev IsApplied : Db S → Migration → Type 0
  IsApplied d m =
      ((failures m.path).read ≡ false)
      × ((failures m.path).query ≡ false)
      × (has_hash d.hashes (hash m.contents) ≡ true)

  apply_lem :
      (db d : Db S) (m : Migration)
      → (failures m.path).commit ≡ false
      → apply_migration exec hash failures db m ≡ (d, none)
      → IsApplied d m × ((d ≡ db) ⊎ (d.hashes ≡ put db.hashes m.base (hash m.contents)))
  unfolding apply_migration in_transaction
  apply_lem db d m committed h = ground (arith, has_hash-put db.hashes m.base (hash m.contents))

  apply_again :
      (d : Db S) (m : Migration)
      → IsApplied d m
      → apply_migration exec hash failures d m ≡ (d, none)
  unfolding apply_migration
  apply_again d m (read, query, known) = rw (apply_migration, read, query, known) refl

  abbrev pub Commits : List Migration → Type 0
  Commits ms = All (λ m. (failures m.path).commit ≡ false) ms

  has_hash-apply :
      (db d : Db S) (m : Migration) (h : ℕ)
      → get db.hashes m.base ≡ none
      → (d ≡ db) ⊎ (d.hashes ≡ put db.hashes m.base (hash m.contents))
      → has_hash db.hashes h ≡ true
      → has_hash d.hashes h ≡ true
  has_hash-apply db d m h new (inl same) old = rw (same) old
  has_hash-apply db d m h new (inr added) old =
      rw (added) (has_hash-put_new db.hashes m.base h (hash m.contents) new old)

  Apart-apply :
      (db d : Db S) (m : Migration) (ms : List Migration)
      → All (λ n. (m.base == n.base) ≡ false) ms
      → (d ≡ db) ⊎ (d.hashes ≡ put db.hashes m.base (hash m.contents))
      → Apart ms db.hashes
      → Apart ms d.hashes
  Apart-apply db d m ms other (inl same) apart = rw (same) apart
  Apart-apply db d m ms other (inr added) apart =
      rw (added) (Apart-put ms db.hashes m.base (hash m.contents) other apart)

  -- A successful run keeps the hashes that are recorded, and leaves every migration applied.
  apply_all-IsApplied :
      (ms : List Migration) (db d : Db S)
      → Apart ms db.hashes
      → Commits ms
      → apply_all exec hash failures ms db ≡ (d, none)
      → All (IsApplied d) ms × ((h : ℕ) → has_hash db.hashes h ≡ true → has_hash d.hashes h ≡ true)
  unfolding apply_all
  apply_all-IsApplied [] db d apart commits done = (tt, λ h old. rw (sym (ap (λ r. r.0) done)) old)
  apply_all-IsApplied (m ∷ ms) db d apart commits done =
      let d1 = (apply_migration exec hash failures db m).0 in
      let (one, next) =
        and_then_done (apply_migration exec hash failures db m) (apply_all exec hash failures ms) d
          done in
      let (applied, change) = apply_lem db d1 m commits.0 one in
      let (rest, kept) =
        apply_all-IsApplied ms d1 d (Apart-apply db d1 m ms apart.1 change apart.2) commits.1
          next in
      (
        ((applied.0, applied.1, kept (hash m.contents) applied.2), rest),
        λ h old. kept h (has_hash-apply db d1 m h apart.0 change old),
      )

  again :
      (ms : List Migration) (d : Db S)
      → All (IsApplied d) ms
      → apply_all exec hash failures ms d ≡ (d, none)
  unfolding apply_all
  again [] d applied = refl
  again (m ∷ ms) d applied = rw (apply_again d m applied.0) (again ms d applied.1)

-- A run of migrations that returned no error and whose commits all succeeded, over files with
-- different base names that the database has not recorded, leaves a database on which the same run
-- changes nothing and returns no error.
pub apply_all_again :
    {S : Type 0} (exec : S → Text → Option S) (hash : Text → ℕ) (failures : List String → Failures)
    (ms : List Migration) (db d : Db S)
    → Apart ms db.hashes
    → Commits exec hash failures ms
    → apply_all exec hash failures ms db ≡ (d, none)
    → apply_all exec hash failures ms d ≡ (d, none)
apply_all_again exec hash failures ms db d apart commits done =
    again exec hash failures ms d
      (apply_all-IsApplied exec hash failures ms db d apart commits done).0
