-- ===== src/Postgres/Tx.antt =====
-- transaction.go: TransactionManager.WithinTransaction.
use Prim.Native.String.{◌++◌}
use company_service.Common.{true, String, Option, none, some, if◌then◌else◌}
use company_service.Errors.{GoError, wrap, wrapped}
use company_service.Action.{Result, ok, err, Action}
use company_service.Application.{Context, TransactionRunner}
use company_service.Postgres.{Postgres, World}

module _ (pg : Postgres) (M : Type 0) (text : GoError → String) {A : Type 0} where
  -- After an error of `fn`, with the error of the rollback.
  unfoldable pub roll_back : Option GoError → GoError → World pg.Db M → Result A × World pg.Db M
  roll_back none e w = (err e, w)
  roll_back (some rollback_err) e w =
      (err (wrapped "rollback transaction after " e (": " ++ text rollback_err)), w)

  -- After a success of `fn`, with the error of the commit. The commit makes the rows that the
  -- transaction sees the committed ones; one that fails may have done so too.
  unfoldable pub commit : Option GoError → A → World pg.Db M → Result A × World pg.Db M
  commit none a w = (ok a, record w { committed = w.working })
  commit (some commit_err) a w = (
    err (wrap "commit transaction: " commit_err),
    if pg.committed_anyway w.working then record w { committed = w.working } else w,
  )

  unfoldable pub finish : Result A × World pg.Db M → Result A × World pg.Db M
  unfolding roll_back commit
  finish (err e, w) = roll_back (pg.rollback_error w.working) e w
  finish (ok a, w) = commit (pg.commit_error w.working) a w

  unfoldable pub within_transaction :
      Context → (Context → Action (World pg.Db M) A) → Action (World pg.Db M) A
  unfolding finish
  within_transaction ctx fn w = if ctx.has_tx then fn ctx w else elim (pg.begin_error w.committed) [
    | some begin_err ↦ (err (wrap "begin transaction: " begin_err), w)
    | none ↦ finish (fn (record { has_tx = true }) (record w { working = w.committed }))
  ]

  unfoldable pub transaction_manager : TransactionRunner (World pg.Db M) A
  transaction_manager = record { within_transaction = within_transaction }
