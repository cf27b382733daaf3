-- ===== src/Postgres.antt =====
-- dbase/postgresql/impl.go: a handle on the pool of connections, with its current transaction. pgx is a
-- parameter, whose state `D` holds the database and the connections; an error of its is a number.
pub mod Finished
mod Tests
use goblocks.Prelude.Eq.{nat_eq, int_eq, string_eq}
use goblocks.Prelude.Map
use goblocks.Prelude.Map.{Map}
use goblocks.Prelude.{ℕ, String, ◌⊎◌, inl, inr, Option, none, some, List}

-- What a statement is sent to.
pub data Querier (Tx : Type 0) : Type 0 where
  pool : Querier Tx
  in_tx : Tx → Querier Tx

-- The error of a query for one row.
pub data RowError : Type 0 where
  no_rows : RowError
  row_failed : ℕ → RowError

-- pgx, with rows `R` and arguments `A`
pub record Driver : Type 1 where
  pub D : Type 0
  pub Tx : Type 0
  pub R : Type 0
  pub A : Type 0
  pub pool_begin : D → D × (ℕ ⊎ Tx)
  pub tx_begin : D → Tx → D × (ℕ ⊎ Tx)
  pub tx_commit : D → Tx → D × Option ℕ
  pub tx_rollback : D → Tx → D × Option ℕ
  pub ping : D → Option ℕ
  -- pgxscan.Select, pgxscan.Get, QueryRow with Scan, and Exec
  pub select : D → Querier Tx → String → List A → D × (ℕ ⊎ List R)
  pub get_row : D → Querier Tx → String → List A → D × (RowError ⊎ R)
  pub scan_row : D → Querier Tx → String → List A → D × (RowError ⊎ R)
  pub execute : D → Querier Tx → String → List A → D × Option ℕ
  pub close_pool : D → D

pub data PsqlError : Type 0 where
  no_transaction_on_rollback no_transaction_on_commit : PsqlError
  driver_failed : ℕ → PsqlError

module _ (pgx : Driver) where
  -- Psql
  pub record Psql : Type 0 where
    pub conn : Querier pgx.Tx
    pub tx : Option pgx.Tx

  -- New, once the pool is connected
  pub new : Psql
  new = record { conn = pool; tx = none }

  abbrev pub begun : pgx.D × (ℕ ⊎ pgx.Tx) → pgx.D × (PsqlError ⊎ Psql)
  begun (d, inl e) = (d, inl (driver_failed e))
  begun (d, inr t) = (d, inr (record { conn = in_tx t; tx = some t }))

  -- BeginTransaction: another handle, on a transaction inside that of `p` if it has one
  pub begin_transaction : pgx.D → Psql → pgx.D × (PsqlError ⊎ Psql)
  begin_transaction d p = begun (elim p.tx [ some t ↦ pgx.tx_begin d t | none ↦ pgx.pool_begin d ])

  abbrev pub finished : pgx.D × Option ℕ → pgx.D × (Psql × Option PsqlError)
  finished (d, e) = (
    d,
    (record { conn = pool; tx = none }, elim e [ none ↦ none | some n ↦ some (driver_failed n) ]),
  )

  -- Rollback
  pub rollback : pgx.D → Psql → pgx.D × (Psql × Option PsqlError)
  rollback d p = elim p.tx [
    | none ↦ (d, (p, some no_transaction_on_rollback))
    | some t ↦ finished (pgx.tx_rollback d t)
  ]

  -- Commit
  pub commit : pgx.D → Psql → pgx.D × (Psql × Option PsqlError)
  commit d p = elim p.tx [
    | none ↦ (d, (p, some no_transaction_on_commit))
    | some t ↦ finished (pgx.tx_commit d t)
  ]

  -- Connect
  pub connect : pgx.D → Psql → Option ℕ
  connect d p = pgx.ping d

  -- Query
  pub query : pgx.D → Psql → String → List pgx.A → pgx.D × (ℕ ⊎ List pgx.R)
  query d p sql args = pgx.select d p.conn sql args

  abbrev pub found_row : RowError ⊎ pgx.R → (ℕ ⊎ Option pgx.R)
  found_row (inl no_rows) = inr none
  found_row (inl (row_failed e)) = inl e
  found_row (inr r) = inr (some r)

  -- QueryRow: no row is no error
  pub query_row : pgx.D → Psql → String → List pgx.A → pgx.D × (ℕ ⊎ Option pgx.R)
  query_row d p sql args =
      let answer = pgx.get_row d p.conn sql args in (answer.0, found_row answer.1)

  -- QueryValue
  pub query_value : pgx.D → Psql → String → List pgx.A → pgx.D × (RowError ⊎ pgx.R)
  query_value d p sql args = pgx.scan_row d p.conn sql args

  -- Exec
  pub exec : pgx.D → Psql → String → List pgx.A → pgx.D × Option ℕ
  exec d p sql args = pgx.execute d p.conn sql args

  -- Close
  pub close : pgx.D → Psql → pgx.D
  close d p = pgx.close_pool d
