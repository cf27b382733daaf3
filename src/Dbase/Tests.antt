-- ===== src/Dbase/Tests.antt =====
-- Runs of dbase/constructor.go.
use goblocks.Prelude.Text.{Text, codes}
use goblocks.Prelude.{
  ℕ, zero, suc, ◌≡◌, refl, ◌⊎◌, inl, inr, true, Option, none, some, [], ◌∷◌, arith, ltb,
}
use goblocks.Dbase.{Config, db_name, new, skips, closed_at_end}
use goblocks.Conftool.EnvVars.{is_prefix, word_prefix}
use goblocks.Dbase.Connected.{new-Given, fails}

-- the first attempt fails
second_time : ℕ → (ℕ ⊎ ℕ)
second_time zero = inl 7
second_time (suc n) = inr 3

answers : ℕ → Option ℕ
answers p = none

migrated : Text → ℕ → ℕ × Option ℕ
migrated path n = (suc n, none)

abbrev local : Config
local = record {
  typ = "postgres";
  conn_string = codes "host=db dbname=site port=5432";
  migrations = codes "sql";
}

local_name : db_name local.conn_string ≡ codes "site"
unfolding db_name is_prefix word_prefix
local_name = refl

failed_before : (j : ℕ) → ltb j 1 ≡ true → fails (second_time j) ≡ true
unfolding second_time
failed_before zero h = refl
failed_before (suc j) h = ground (arith, h)

new-Given_example :
    ((new second_time answers migrated local [] 0).slept ≡ 1_000_000_000 ∷ [])
    × ((new second_time answers migrated local [] 0).pool ≡ closed_at_end)
    × ((new second_time answers migrated local [] 0).store ≡ 1)
    × ((new second_time answers migrated local [] 0).db ≡ some 3)
unfolding second_time answers migrated skips
new-Given_example =
    new-Given second_time answers migrated local [] 0 1 3 refl refl failed_before refl
