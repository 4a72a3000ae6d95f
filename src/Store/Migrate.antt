-- ===== src/Store/Migrate.antt =====
-- `migrate` of src/store/mod.rs. Of the schema it is modelled which columns the tables have, and which
-- indexes there are; a table that does not exist has no columns.
pub mod Upgraded
use npmfilter.Prelude.{
  ℕ, ◌+◌, String, Bool, true, false, none, List, [], ◌∷◌, ◌++◌, if◌then◌else◌, ◌==◌, any, keep,
  is_some, is_empty,
}
use npmfilter.Prelude.Int.{ℤ, pos, lt_int}
use npmfilter.Prelude.Result.{Result, ok, err}
use npmfilter.Policy.Memory.{Key}
use npmfilter.Store.Errors.{StoreError, migrate_failed, schema_too_new}
use npmfilter.Store.Types.{schema_version}
use npmfilter.Store.Tables.{Tables, SeenRow}

-- The database file: its `user_version`, its indexes, the columns of its tables, and the rows.
pub record Database : Type 0 where
  pub user_version : ℤ
  pub indexes : List String
  pub rules_columns : List String
  pub seen_columns : List String
  pub audit_columns : List String
  pub tables : Tables

abbrev pub rules_table : List String
rules_table =
    "id" ∷ "name" ∷ "version" ∷ "integrity" ∷ "verdict" ∷ "scripts_json" ∷ "scripts_sha256"
    ∷ "pins_json" ∷ "reason" ∷ "actor" ∷ "created_ts" ∷ []

abbrev pub seen_table : List String
seen_table =
    "name" ∷ "version" ∷ "integrity" ∷ "first_seen_ts" ∷ "last_seen_ts" ∷ "times_seen"
    ∷ "mismatch_count" ∷ "last_mismatch_ts" ∷ []

abbrev pub audit_table : List String
audit_table = "id" ∷ "ts" ∷ "event" ∷ "severity" ∷ "name" ∷ "version" ∷ "detail" ∷ []

-- CREATE TABLE IF NOT EXISTS, on the columns that the table has.
abbrev pub create_table : List String → List String → List String
create_table columns [] = columns
create_table columns (column ∷ present) = column ∷ present

abbrev is_name : String → String → Bool
is_name name other = other == name

-- CREATE INDEX IF NOT EXISTS.
abbrev create_index : String → Database → Database
create_index name d = record d {
  indexes = if any (is_name name) d.indexes then d.indexes else d.indexes ++ name ∷ [];
}

-- The statements of SCHEMA_SQL, one after the other.
unfoldable pub create_schema : List (Database → Database)
create_schema =
    (λ d. record d { rules_columns = create_table rules_table d.rules_columns })
    ∷ create_index "rules_name_idx"
    ∷ (λ d. record d { seen_columns = create_table seen_table d.seen_columns })
    ∷ (λ d. record d { audit_columns = create_table audit_table d.audit_columns })
    ∷ create_index "audit_ts_idx"
    ∷ create_index "audit_name_idx"
    ∷ []

abbrev set_all : (SeenRow → SeenRow) → List (Key × SeenRow) → List (Key × SeenRow)
set_all f [] = []
set_all f ((key, row) ∷ rows) = (key, f row) ∷ set_all f rows

-- ALTER TABLE seen ADD COLUMN, unless the column is there: every row gets the default.
unfoldable pub add_missing_column : String → (SeenRow → SeenRow) → Database → Database
add_missing_column column default d = if any (is_name column) d.seen_columns then d else record d {
  seen_columns = d.seen_columns ++ column ∷ [];
  tables = record (d.tables) { seen = set_all default d.tables.seen };
}

abbrev pub has_integrity : Key × SeenRow → Bool
has_integrity (key, row) = is_some row.integrity

-- DELETE FROM seen WHERE integrity IS NULL.
unfoldable pub drop_unhashed : Database → Database
drop_unhashed d = record d {
  tables = record (d.tables) { seen = keep has_integrity d.tables.seen };
}

abbrev no_mismatches : SeenRow → SeenRow
no_mismatches row = record row { mismatch_count = pos 0 }

abbrev no_mismatch_date : SeenRow → SeenRow
no_mismatch_date row = record row { last_mismatch_ts = none }

-- PRAGMA user_version = SCHEMA_VERSION.
abbrev pub mark_current : Database → Database
mark_current d = record d { user_version = pos schema_version }

-- Statements in a row, of which the n-th of the migration fails where `fails n`. What ran before it stays,
-- as no transaction is open.
unfoldable pub run_steps :
    (ℕ → Bool) → ℕ → List (Database → Database) → Database → Result StoreError (Unit {0}) × Database
run_steps fails n [] d = (ok tt, d)
run_steps fails n (step ∷ steps) d =
    let rest = run_steps fails (n + 1) steps (step d) in
    if fails n then (err migrate_failed, d) else rest

-- What runs before the version is written.
abbrev pub preparations : List (Database → Database)
preparations =
    create_schema
    ++ add_missing_column "mismatch_count" no_mismatches
      ∷ add_missing_column "last_mismatch_ts" no_mismatch_date
      ∷ drop_unhashed
      ∷ []

unfoldable pub migrate : (ℕ → Bool) → Database → Result StoreError (Unit {0}) × Database
migrate fails d =
    if fails 0
    then (err migrate_failed, d)
    else if lt_int (pos schema_version) d.user_version
    then (err (schema_too_new d.user_version schema_version), d)
    else if lt_int d.user_version (pos schema_version)
    then run_steps fails 1 (preparations ++ mark_current ∷ []) d
    else (ok tt, d)
