-- ===== src/Postgres/Tests.antt =====
-- A transaction tried out, on a database that counts its statements.
use goblocks.Prelude.{ℕ, suc, refl, inl, inr, none, some}
use goblocks.Postgres.{in_tx, Driver, Psql, commit, rollback, row_failed}
use goblocks.Postgres.Finished.{IsOver, commit-IsOver}

abbrev pgx : Driver
pgx = record {
  D = ℕ;
  Tx = ℕ;
  R = ℕ;
  A = ℕ;
  pool_begin = λ d. (d, inr 0);
  tx_begin = λ d t. (d, inr (suc t));
  tx_commit = λ d t. (suc d, none);
  tx_rollback = λ d t. (d, none);
  ping = λ d. none;
  select = λ d q sql args. (d, inr args);
  get_row = λ d q sql args. (d, inl (row_failed 1));
  scan_row = λ d q sql args. (d, inl (row_failed 1));
  execute = λ d q sql args. (suc d, none);
  close_pool = λ d. d;
}

abbrev handle : Psql pgx
handle = record { conn = in_tx 0; tx = some 0 }

commit-IsOver_example :
    IsOver pgx ((commit pgx 5 handle).0, (commit pgx 5 handle).1.0)
    × IsOver pgx ((rollback pgx 5 handle).0, (rollback pgx 5 handle).1.0)
commit-IsOver_example = commit-IsOver pgx 5 handle refl
