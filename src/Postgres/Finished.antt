-- ===== src/Postgres/Finished.antt =====
-- Handles after their transaction, and the deferred Rollback.
use goblocks.Prelude.{
  ℕ, String, ◌≡◌, refl, sym, ap, ◌∙◌, ◌⊎◌, inl, inr, Option, none, some, List, Option-cases,
}
use mathlib.Core.Path.{subst}
use goblocks.Postgres.{
  pool, in_tx, Driver, PsqlError, no_transaction_on_rollback, no_transaction_on_commit, Psql, new,
  begun, begin_transaction, finished, rollback, commit, exec,
}

module _ (pgx : Driver) where
  -- Statements go to the current transaction, or to the pool if there is none.
  abbrev pub IsValid : Psql pgx → Type 0
  IsValid p = p.conn ≡ elim p.tx [ none ↦ pool | some t ↦ in_tx t ]

  abbrev pub Begun : PsqlError ⊎ Psql pgx → Type 0
  Begun (inl e) = Unit
  Begun (inr p) = IsValid p

  new-IsValid : IsValid (new pgx)
  unfolding new
  new-IsValid = refl

  begun-IsValid : (r : pgx.D × (ℕ ⊎ pgx.Tx)) → Begun (begun pgx r).1
  begun-IsValid (d, inl e) = tt
  begun-IsValid (d, inr t) = refl

  begin_transaction-IsValid : (d : pgx.D) (p : Psql pgx) → Begun (begin_transaction pgx d p).1
  unfolding begin_transaction
  begin_transaction-IsValid d p =
      begun-IsValid (elim p.tx [ some t ↦ pgx.tx_begin d t | none ↦ pgx.pool_begin d ])

  -- A finished handle: it has no transaction, its statements go to the pool, and finishing it again
  -- changes nothing and gives the errors for that.
  abbrev pub IsOver : pgx.D × Psql pgx → Type 0
  IsOver (d, p) =
      (p ≡ new pgx)
      × (rollback pgx d p ≡ (d, (p, some no_transaction_on_rollback)))
      × (commit pgx d p ≡ (d, (p, some no_transaction_on_commit)))
      × ((sql : String) (args : List pgx.A) → exec pgx d p sql args ≡ pgx.execute d pool sql args)

  finished-IsOver : (r : pgx.D × Option ℕ) → IsOver ((finished pgx r).0, (finished pgx r).1.0)
  unfolding new rollback commit exec
  finished-IsOver (d, e) = (refl, refl, refl, λ sql args. refl)

  without_tx : (p : Psql pgx) → IsValid p → p.tx ≡ none → p ≡ new pgx
  unfolding new
  without_tx p v q =
      ap (λ c. record { conn = c; tx = p.tx }) (v ∙ (rw q refl))
      ∙ ap (λ t. record { conn = pool; tx = t }) q

  new-IsOver :
      (d : pgx.D)
      → IsOver ((commit pgx d (new pgx)).0, (commit pgx d (new pgx)).1.0)
        × IsOver ((rollback pgx d (new pgx)).0, (rollback pgx d (new pgx)).1.0)
  unfolding new rollback commit exec
  new-IsOver d = ((refl, refl, refl, λ sql args. refl), (refl, refl, refl, λ sql args. refl))

  -- Commit and Rollback of a valid handle, with an error or without: afterwards it has no
  -- transaction and its statements go to the pool; a Rollback that follows, as a deferred one does,
  -- and a Commit that follows only give their errors and leave the database alone.
  pub commit-IsOver :
      (d : pgx.D) (p : Psql pgx)
      → IsValid p
      → IsOver ((commit pgx d p).0, (commit pgx d p).1.0)
        × IsOver ((rollback pgx d p).0, (rollback pgx d p).1.0)
  unfolding commit rollback
  commit-IsOver d p v = elim (Option-cases p.tx) [
    | inl q ↦
        subst
          (λ x.
            IsOver ((commit pgx d x).0, (commit pgx d x).1.0)
            × IsOver ((rollback pgx d x).0, (rollback pgx d x).1.0))
          (sym (without_tx p v q)) (new-IsOver d)
    | inr (t, q) ↦ rw q (finished-IsOver (pgx.tx_commit d t), finished-IsOver (pgx.tx_rollback d t))
  ]
