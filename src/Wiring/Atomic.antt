-- ===== src/Wiring/Atomic.antt =====
-- A transaction commits all that its function did, or nothing, also where Commit fails.
use company_service.Common.{
  ◌≡◌, ◌⊎◌, refl, String, Option, none, some, Option-cases, Bool-cases, inl, inr,
}
use company_service.Errors.{GoError, wrap}
use company_service.Action.{Result, ok, err, Action, continue, pure}
use company_service.Action.Keeps.{Keeps}
use company_service.Application.{Context}
use company_service.Postgres.{Postgres, World}
use company_service.Postgres.Tx.{within_transaction, finish, roll_back, commit}
use company_service.Wiring.{request_ctx, tx_ctx}

module _ (pg : Postgres) {A : Type 0} where
  -- A Commit that failed, with the error `e`, on rows that are committed all the same: they were taken
  -- from `db` to `db'` as a success takes them.
  pub record InDoubt (Q : A → pg.Db → pg.Db → Type 0) (e : GoError) (db db' : pg.Db) : Type 0 where
    pub commit_err : GoError
    pub failed : pg.commit_error db' ≡ some commit_err
    pub wrapped : e ≡ wrap "commit transaction: " commit_err
    pub result : A
    pub done : Q result db db'

module _ (pg : Postgres) {M A : Type 0} where
  -- A success takes the committed rows from `db` to `db'` as `Q` says. An error leaves them as they
  -- were, unless it is the error of Commit, after which they may be those of a success.
  abbrev pub Commits :
      (A → pg.Db → pg.Db → Type 0) → World pg.Db M → Result A × World pg.Db M → Type 0
  Commits Q w (err e, w') = (w'.committed ≡ w.committed) ⊎ InDoubt pg Q e w.committed w'.committed
  Commits Q w (ok a, w') = Q a w.committed w'.committed

  pub Commits-mono :
      (Q Q' : A → pg.Db → pg.Db → Type 0) (w : World pg.Db M) (r : Result A × World pg.Db M)
      → ((a : A) (db db' : pg.Db) → Q a db db' → Q' a db db')
      → Commits Q w r
      → Commits Q' w r
  Commits-mono Q Q' w (ok a, w') weaken h = weaken a w.committed w'.committed h
  Commits-mono Q Q' w (err e, w') weaken (inl same) = inl same
  Commits-mono Q Q' w (err e, w') weaken (inr d) = inr (record {
    commit_err = d.commit_err;
    failed = d.failed;
    wrapped = d.wrapped;
    result = d.result;
    done = weaken d.result w.committed w'.committed d.done;
  })

  -- `m` does not touch the committed rows.
  abbrev pub LeavesCommitted : Action (World pg.Db M) A → Type 0
  LeavesCommitted m = (db : pg.Db) → Keeps (λ w. w.committed ≡ db) m

  roll_back-Commits :
      (text : GoError → String) (Q : A → pg.Db → pg.Db → Type 0) (o : Option GoError) (e : GoError)
      (w w' : World pg.Db M)
      → w'.committed ≡ w.committed
      → Commits Q w (roll_back pg M text o e w')
  unfolding roll_back
  roll_back-Commits text Q none e w w' same = inl same
  roll_back-Commits text Q (some _) e w w' same = inl same

  commit-Commits :
      (text : GoError → String) (Q : A → pg.Db → pg.Db → Type 0) (o : Option GoError) (a : A)
      (w w' : World pg.Db M)
      → pg.commit_error w'.working ≡ o
      → w'.committed ≡ w.committed
      → Q a w.committed w'.working
      → Commits Q w (commit pg M text o a w')
  unfolding commit
  commit-Commits text Q none a w w' is same does = does
  commit-Commits text Q (some e) a w w' is same does =
      elim (Bool-cases (pg.committed_anyway w'.working)) [
        | inl anyway ↦
            rw anyway (
              inr (record { commit_err = e; failed = is; wrapped = refl; result = a; done = does }))
        | inr undone ↦ rw undone (inl same)
      ]

  finish-Commits :
      (text : GoError → String) (Q : A → pg.Db → pg.Db → Type 0) (r : Result A)
      (w w' : World pg.Db M)
      → w'.committed ≡ w.committed
      → ((a : A) → r ≡ ok a → Q a w.committed w'.working)
      → Commits Q w (finish pg M text (r, w'))
  unfolding finish
  finish-Commits text Q (err e) w w' same does =
      roll_back-Commits text Q (pg.rollback_error w'.working) e w w' same
  finish-Commits text Q (ok a) w w' same does =
      commit-Commits text Q (pg.commit_error w'.working) a w w' refl same (does a refl)

  -- The rule for one start of the function.
  pub opened-Commits :
      (text : GoError → String) (Q : A → pg.Db → pg.Db → Type 0)
      (fn : Context → Action (World pg.Db M) A) (w : World pg.Db M)
      → LeavesCommitted (fn tx_ctx)
      → ((a : A)
          → (fn tx_ctx (record w { working = w.committed })).0 ≡ ok a
          → Q a w.committed (fn tx_ctx (record w { working = w.committed })).1.working)
      → Commits Q w (within_transaction pg M text request_ctx fn w)
  unfolding within_transaction
  opened-Commits text Q fn w local does = elim (Option-cases (pg.begin_error w.committed)) [
    | inr (e, failed) ↦ rw failed (inl refl)
    | inl began ↦
        let start : World pg.Db M = record w { working = w.committed } in
        rw began (
          finish-Commits text Q (fn tx_ctx start).0 w (fn tx_ctx start).1
            ((local w.committed).at start refl) does)
  ]

  -- A function that works on the rows of its transaction alone, and whose successes do `Q` there, is
  -- atomic under WithinTransaction: errors of Begin, of the function and of Rollback leave the
  -- committed rows as they were, a success does `Q` to them, and an error of Commit either of the two.
  pub within_transaction-Commits :
      (text : GoError → String) (Q : A → pg.Db → pg.Db → Type 0)
      (fn : Context → Action (World pg.Db M) A) (w : World pg.Db M)
      → LeavesCommitted (fn tx_ctx)
      → ((w : World pg.Db M) (a : A)
          → (fn tx_ctx w).0 ≡ ok a
          → Q a w.working (fn tx_ctx w).1.working)
      → Commits Q w (within_transaction pg M text request_ctx fn w)
  within_transaction-Commits text Q fn w local does =
      opened-Commits text Q fn w local (does (record w { working = w.committed }))

-- A result that is dropped.
pub Commits-dropped :
    (pg : Postgres) {M A : Type 0} (Q : A → pg.Db → pg.Db → Type 0) (w : World pg.Db M)
    (r : Result A) (w' : World pg.Db M)
    → Commits pg Q w (r, w')
    → Commits pg {A = Unit} (λ _ db db'. (a : A) × Q a db db') w (continue r (λ _. pure tt) w')
Commits-dropped pg Q w (ok a) w' h = (a, h)
Commits-dropped pg Q w (err e) w' (inl same) = inl same
Commits-dropped pg Q w (err e) w' (inr d) = inr (record {
  commit_err = d.commit_err;
  failed = d.failed;
  wrapped = d.wrapped;
  result = tt;
  done = (d.result, d.done);
})

module _ (pg : Postgres) where
  -- What a success has committed.
  pub Commits-of_ok :
      {M A : Type 0} (Q : A → pg.Db → pg.Db → Type 0) (w : World pg.Db M)
      (r : Result A × World pg.Db M) (a : A)
      → Commits pg Q w r
      → r.0 ≡ ok a
      → (b : A) × Q b w.committed r.1.committed
  Commits-of_ok Q w (ok b, w') a h is = (b, h)
  Commits-of_ok Q w (err e, w') a h is = cc
