-- ===== src/Postgres/Columns.antt =====
-- company_repository.go: the columns that Create, Update and selectCompany name, and what scanCompany
-- reads of them. A row of the table is a parameter.
use company_service.Common.{
  ◌≡◌, refl, String, Bool, Option, none, some, List, [], ◌∷◌, ◌==◌, if◌then◌else◌,
}
use company_service.Common.Int.{ℤ}
use company_service.Errors.{failure, wrap}
use company_service.Action.{Result, ok, err}
use company_service.Domain.{Uuid, Time, Company, utc}

-- An argument of a statement, or what Scan finds in a column.
pub data Cell : Type 0 where
  uuid_cell : Uuid → Cell
  text_cell : String → Cell
  int_cell : ℤ → Cell
  bool_cell : Bool → Cell
  time_cell : Time → Cell

abbrev pub Cells : Type 0
Cells = List (String × Cell)

unfoldable pub lookup : String → Cells → Option Cell
lookup k [] = none
lookup k ((name, cell) ∷ cells) =
    let later = lookup k cells in if name == k then some cell else later

-- The columns of Create, with its values
unfoldable pub insert_cells : Company → Cells
insert_cells company =
    ("id", uuid_cell company.id)
    ∷ ("name", text_cell company.name)
    ∷ ("description", text_cell company.description)
    ∷ ("amount_of_employees", int_cell company.amount_of_employees)
    ∷ ("registered", bool_cell company.registered)
    ∷ ("type", text_cell company.company_type)
    ∷ ("created_at", time_cell company.created_at)
    ∷ ("updated_at", time_cell company.updated_at)
    ∷ []

-- The columns that Update sets
unfoldable pub update_cells : Company → Cells
update_cells company =
    ("name", text_cell company.name)
    ∷ ("description", text_cell company.description)
    ∷ ("amount_of_employees", int_cell company.amount_of_employees)
    ∷ ("registered", bool_cell company.registered)
    ∷ ("type", text_cell company.company_type)
    ∷ ("updated_at", time_cell company.updated_at)
    ∷ []

-- selectCompany
unfoldable pub select_columns : List String
select_columns =
    "id" ∷ "name" ∷ "description" ∷ "amount_of_employees" ∷ "registered" ∷ "type" ∷ "created_at"
    ∷ "updated_at" ∷ []

-- scanCompany on the cells of a row
unfoldable pub scan_cells : List (Option Cell) → Result Company
scan_cells
      (some (uuid_cell id)
        ∷ some (text_cell name)
        ∷ some (text_cell description)
        ∷ some (int_cell amount_of_employees)
        ∷ some (bool_cell registered)
        ∷ some (text_cell company_type)
        ∷ some (time_cell created_at)
        ∷ some (time_cell updated_at)
        ∷ []) =
    ok (record {
      id = id;
      name = name;
      description = description;
      amount_of_employees = amount_of_employees;
      registered = registered;
      company_type = company_type;
      created_at = utc created_at;
      updated_at = utc updated_at;
    })
scan_cells _ = err (wrap "scan company: " (failure "cannot scan"))

-- A row of companies: what an INSERT makes, what an UPDATE makes of it, where they succeed, and the
-- value of a column. A `time.Time` comes back from a column of type timestamptz in microseconds.
pub record RowLibrary (R : Type 0) : Type 0 where
  pub inserted : Cells → Option R
  pub updated : Cells → R → Option R
  pub column : String → R → Option Cell
  pub stored_time : Time → Time

-- What a column holds of an argument.
abbrev pub stored_cell : (Time → Time) → Cell → Cell
stored_cell stored_time (uuid_cell id) = uuid_cell id
stored_cell stored_time (text_cell s) = text_cell s
stored_cell stored_time (int_cell n) = int_cell n
stored_cell stored_time (bool_cell b) = bool_cell b
stored_cell stored_time (time_cell t) = time_cell (stored_time t)

-- What is documented of SQL: after a statement that succeeds, a column holds the value that the
-- statement gives it, and an UPDATE leaves the columns that it does not name.
pub record RowLaws {R : Type 0} (rows : RowLibrary R) : Type 0 where
  pub of_inserted :
      (c : Company) (r : R)
      → rows.inserted (insert_cells c) ≡ some r
      → (k : String) (cell : Cell) → lookup k (insert_cells c) ≡ some cell
      → rows.column k r ≡ some (stored_cell rows.stored_time cell)
  pub of_updated :
      (c : Company) (r r' : R)
      → rows.updated (update_cells c) r ≡ some r'
      → (k : String) (cell : Cell) → lookup k (update_cells c) ≡ some cell
      → rows.column k r' ≡ some (stored_cell rows.stored_time cell)
  pub of_kept :
      (c : Company) (r r' : R)
      → rows.updated (update_cells c) r ≡ some r'
      → (k : String) → lookup k (update_cells c) ≡ none
      → rows.column k r' ≡ rows.column k r

module _ {R : Type 0} (rows : RowLibrary R) (laws : RowLaws rows) where
  abbrev picked : List String → R → List (Option Cell)
  picked [] r = []
  picked (k ∷ ks) r = rows.column k r ∷ picked ks r

  -- QueryRow with the columns of selectCompany, and scanCompany
  abbrev pub read_back : R → Result Company
  read_back r = scan_cells (picked select_columns r)

  -- The time that scanCompany gives for one that was written
  abbrev pub time_back : Time → Time
  time_back t = utc (rows.stored_time t)

  -- What Create writes is read back as the company, and what Update writes over a company as the new
  -- one with the identifier and the creation time of the old, where the statements succeed; the times
  -- are those that the columns keep, in UTC.
  pub written-read_back :
      (c old : Company) (r row row' : R)
      → rows.inserted (insert_cells c) ≡ some r
      → rows.inserted (insert_cells old) ≡ some row
      → rows.updated (update_cells c) row ≡ some row'
      → (read_back r
          ≡ ok (record c {
            created_at = time_back c.created_at;
            updated_at = time_back c.updated_at;
          }))
        × (read_back row'
            ≡ ok (record c {
              id = old.id;
              created_at = time_back old.created_at;
              updated_at = time_back c.updated_at;
            }))
  unfolding lookup insert_cells update_cells select_columns scan_cells
  written-read_back c old r row row' created created_old changed =
      let at = laws.of_inserted c r created in
      let at_old = laws.of_inserted old row created_old in
      let new = laws.of_updated c row row' changed in
      let kept = laws.of_kept c row row' changed in
      (
        rw
            (
              at "id" _ refl,
              at "name" _ refl,
              at "description" _ refl,
              at "amount_of_employees" _ refl,
              at "registered" _ refl,
              at "type" _ refl,
              at "created_at" _ refl,
              at "updated_at" _ refl,
            )
            refl,
        rw
            (
              kept "id" refl,
              at_old "id" _ refl,
              new "name" _ refl,
              new "description" _ refl,
              new "amount_of_employees" _ refl,
              new "registered" _ refl,
              new "type" _ refl,
              kept "created_at" refl,
              at_old "created_at" _ refl,
              new "updated_at" _ refl,
            )
            refl,
      )
