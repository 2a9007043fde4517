-- ===== src/Postgres/Clock.antt =====
-- What is documented of `now()`: it does not go back from one statement to the next.
use company_service.Common.{◌≤◌}
use company_service.Postgres.{Postgres, Statement}

pub record ClockLaws (pg : Postgres) : Type 0 where
  pub forward : (st : Statement) (db : pg.Db) → pg.now db ≤ pg.now (pg.exec st db).1
