-- ===== src/Sample/RowRuns.antt =====
-- The theorem on the columns of companies at concrete rows.
use company_service.Common.{ℕ, ◌≡◌, ◌∙◌, refl, sym, ap, arith, String, Option, none, some}
use company_service.Action.{ok}
use company_service.Domain.{Company, Time}
use company_service.Postgres.Columns.{
  Cell, RowLibrary, RowLaws, lookup, stored_cell, insert_cells, update_cells, time_back, read_back,
  written-read_back,
}
use company_service.Sample.Memory.{to_micros}
use company_service.Sample.Setting.{acme}

abbrev kept_cell : Option Cell → Option Cell
kept_cell none = none
kept_cell (some cell) = some (stored_cell to_micros cell)

abbrev or_old : Option Cell → Option Cell → Option Cell
or_old none old = old
or_old (some new) old = some (stored_cell to_micros new)

-- A row is what it has in each column.
abbrev by_column : RowLibrary (String → Option Cell)
by_column = record {
  inserted = λ cells. some (λ k. kept_cell (lookup k cells));
  updated = λ cells r. some (λ k. or_old (lookup k cells) (r k));
  column = λ k r. r k;
  stored_time = to_micros;
}

abbrev Row : Type 0
Row = String → Option Cell

some_injective : (r r' : Row) → ◌≡◌ {A = Option Row} (some r) (some r') → r ≡ r'
some_injective r r' h = cc

by_column-RowLaws : RowLaws by_column
by_column-RowLaws = record {
  of_inserted =
      λ c r h k cell is. sym (ap (λ (f : Row). f k) (some_injective _ r h)) ∙ ap kept_cell is;
  of_updated = λ c r r' h k cell is.
      sym (ap (λ (f : Row). f k) (some_injective _ r' h))
      ∙ ap (λ (o : Option Cell). or_old o (r k)) is;
  of_kept = λ c r r' h k is.
      sym (ap (λ (f : Row). f k) (some_injective _ r' h))
      ∙ ap (λ (o : Option Cell). or_old o (r k)) is;
}

-- A time with nanoseconds, which the column does not keep
abbrev renamed : Company
renamed = record acme {
  name = "Acme Ltd";
  registered = company_service.Common.false;
  updated_at = record { instant = 1234567; location = company_service.Domain.local };
}

abbrev acme_row : Row
acme_row k = kept_cell (lookup k (insert_cells acme))

abbrev back : Time → Time
back = time_back by_column by_column-RowLaws

written-read_back_example :
    (read_back by_column by_column-RowLaws (λ k. kept_cell (lookup k (insert_cells renamed)))
      ≡ ok (record renamed {
        created_at = back renamed.created_at;
        updated_at = back renamed.updated_at;
      }))
    × (read_back by_column by_column-RowLaws
          (λ k. or_old (lookup k (update_cells renamed)) (acme_row k))
        ≡ ok (record renamed {
          id = acme.id;
          created_at = back acme.created_at;
          updated_at = back renamed.updated_at;
        }))
written-read_back_example =
    written-read_back by_column by_column-RowLaws renamed acme
      (λ k. kept_cell (lookup k (insert_cells renamed))) acme_row
      (λ k. or_old (lookup k (update_cells renamed)) (acme_row k)) refl refl refl
