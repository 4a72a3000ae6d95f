-- ===== src/Store/Migrate/Upgraded.antt =====
-- What `migrate` of src/store/mod.rs leaves.
use npmfilter.Prelude.{
  ℕ, ◌+◌, String, Bool, true, false, Option, List, [], ◌∷◌, ◌≡◌, ◌≢◌, ◌⊎◌, inl, inr, refl, arith,
  any, keep, All, map, ◌++◌, ◌||◌, ◌==◌, eq_iff, Bool-cases, ◌∙◌, ap, sym, subst,
}
use npmfilter.Prelude.Int.{ℤ, pos, lt_int}
use npmfilter.Prelude.Result.{ok, err}
use npmfilter.Policy.Memory.{Key}
use npmfilter.Store.Errors.{migrate_failed}
use npmfilter.Store.Types.{schema_version}
use npmfilter.Store.Tables.{Tables, SeenRow}
use npmfilter.Store.Migrate.{
  Database, rules_table, seen_table, audit_table, create_table, create_index, is_name,
  has_integrity, create_schema, set_all, add_missing_column, no_mismatches, no_mismatch_date,
  drop_unhashed, mark_current, run_steps, preparations, migrate,
}

-- A table that was not there has the columns of the schema, and another has the columns that it had.
abbrev pub IsCreated : List String → List String → List String → Type 0
IsCreated columns before after = (before ≡ [] → after ≡ columns) × (before ≢ [] → after ≡ before)

-- What is on record of each version.
abbrev pub hashes : List (Key × SeenRow) → List (Key × Option String)
hashes rows = map (λ (key, row). (key, row.integrity)) rows

-- No recorded integrity is NULL.
abbrev pub IsHashed : List (Key × SeenRow) → Type 0
IsHashed rows = All (λ entry. has_integrity entry ≡ true) rows

abbrev pub has_column : String → List String → Bool
has_column column = any (is_name column)

-- What became of the file `d`.
pub record IsCurrent (d after : Database) : Type 0 where
  pub marked : after.user_version ≡ pos schema_version
  pub rules_created : IsCreated rules_table d.rules_columns after.rules_columns
  pub audit_created : IsCreated audit_table d.audit_columns after.audit_columns
  pub seen_created : d.seen_columns ≡ [] → after.seen_columns ≡ seen_table
  pub seen_kept :
      (column : String)
      → has_column column d.seen_columns ≡ true
      → has_column column after.seen_columns ≡ true
  pub counts : has_column "mismatch_count" after.seen_columns ≡ true
  pub dates : has_column "last_mismatch_ts" after.seen_columns ≡ true
  pub rules_indexed : any (is_name "rules_name_idx") after.indexes ≡ true
  pub audit_indexed : any (is_name "audit_ts_idx") after.indexes ≡ true
  pub names_indexed : any (is_name "audit_name_idx") after.indexes ≡ true
  pub hashed : IsHashed after.tables.seen
  pub recorded : hashes after.tables.seen ≡ hashes (keep has_integrity d.tables.seen)
  pub others : after.tables ≡ record (d.tables) { seen = after.tables.seen }

any-append : (p : String → Bool) (xs ys : List String) → any p (xs ++ ys) ≡ (any p xs || any p ys)
any-append p [] ys = refl
any-append p (x ∷ xs) ys = ground (arith, any-append p xs ys)

keep-IsHashed : (rows : List (Key × SeenRow)) → IsHashed (keep has_integrity rows)
keep-IsHashed [] = tt
keep-IsHashed ((key, row) ∷ rows) = ground (arith, keep-IsHashed rows)

-- A default for a new column leaves what is on record.
hashes-set_all :
    (f : SeenRow → SeenRow) (rows : List (Key × SeenRow))
    → ((row : SeenRow) → (f row).integrity ≡ row.integrity)
    → hashes (keep has_integrity (set_all f rows)) ≡ hashes (keep has_integrity rows)
hashes-set_all f [] same = refl
hashes-set_all f ((key, row) ∷ rows) same = ground (arith, same row, hashes-set_all f rows same)

-- All but the columns of `seen` and its rows.
abbrev others_of : Database → ℤ × List String × List String × List String × Tables
others_of d =
    (d.user_version, d.indexes, d.rules_columns, d.audit_columns, record (d.tables) { seen = [] })

module _ (column : String) (f : SeenRow → SeenRow) (d : Database) where
  others-add_missing_column : others_of (add_missing_column column f d) ≡ others_of d
  unfolding add_missing_column
  others-add_missing_column = elim (Bool-cases (any (is_name column) d.seen_columns)) [
    | inl e ↦ rw e refl
    | inr e ↦ rw e refl
  ]

  -- A column is there once it was added, and what was there still is.
  add_missing_column_adds :
      (other : String)
      → has_column other (add_missing_column column f d).seen_columns
        ≡ (column == other || has_column other d.seen_columns)
  unfolding add_missing_column
  add_missing_column_adds other =
      ground (arith, any-append (is_name other) d.seen_columns (column ∷ []), eq_iff column other)

  add_missing_column_present :
      has_column column d.seen_columns ≡ true
      → (add_missing_column column f d).seen_columns ≡ d.seen_columns
  unfolding add_missing_column
  add_missing_column_present e = rw e refl

  hashes-add_missing_column :
      ((row : SeenRow) → (f row).integrity ≡ row.integrity)
      → hashes (keep has_integrity (add_missing_column column f d).tables.seen)
        ≡ hashes (keep has_integrity d.tables.seen)
  unfolding add_missing_column
  hashes-add_missing_column same = elim (Bool-cases (any (is_name column) d.seen_columns)) [
    | inl e ↦ rw e refl
    | inr e ↦ rw e (hashes-set_all f d.tables.seen same)
  ]

-- Steps without a failure.
abbrev apply_all : List (Database → Database) → Database → Database
apply_all [] d = d
apply_all (step ∷ steps) d = apply_all steps (step d)

abbrev KeepsVersion : (Database → Database) → Type 0
KeepsVersion step = (d : Database) → (step d).user_version ≡ d.user_version

-- All steps run, or one fails before the last has run.
run_steps-outcome :
    (fails : ℕ → Bool) (n : ℕ) (steps : List (Database → Database)) (last : Database → Database)
    (d : Database)
    → All KeepsVersion steps
    → (run_steps fails n (steps ++ last ∷ []) d ≡ (ok tt, last (apply_all steps d)))
      ⊎ (((run_steps fails n (steps ++ last ∷ []) d).0 ≡ err migrate_failed)
          × ((run_steps fails n (steps ++ last ∷ []) d).1.user_version ≡ d.user_version)
          × ((m : ℕ) × (fails m ≡ true)))
unfolding run_steps
run_steps-outcome fails n [] last d h = elim (Bool-cases (fails n)) [
  | inl e ↦ rw e (inr (refl, refl, (n, e)))
  | inr e ↦ rw e (inl refl)
]
run_steps-outcome fails n (step ∷ steps) last d (keeps, h) = elim (Bool-cases (fails n)) [
  | inl e ↦ rw e (inr (refl, refl, (n, e)))
  | inr e ↦ rw e (elim (run_steps-outcome fails (n + 1) steps last (step d) h) [
    | inl done ↦ inl done
    | inr (failed, same, fault) ↦ inr (failed, same ∙ keeps d, fault)
  ])
]

preparations-KeepVersion : All KeepsVersion preparations
unfolding create_schema drop_unhashed
preparations-KeepVersion = (
  λ d. refl,
  (
    λ d. refl,
    (
      λ d. refl,
      (
        λ d. refl,
        (
          λ d. refl,
          (
            λ d. refl,
            (
              λ d. ap (λ o. o.0) (others-add_missing_column "mismatch_count" no_mismatches d),
              (
                λ d.
                    ap (λ o. o.0) (others-add_missing_column "last_mismatch_ts" no_mismatch_date d),
                (λ d. refl, tt),
              ),
            ),
          ),
        ),
      ),
    ),
  ),
)

IsCreated-create_table :
    (columns before : List String) → IsCreated columns before (create_table columns before)
IsCreated-create_table columns [] = (λ e. refl, λ ne. absurd (ne refl))
IsCreated-create_table columns (c ∷ before) = (λ e. ground arith, λ ne. refl)

create_table_keeps :
    (columns before : List String) (column : String)
    → has_column column before ≡ true
    → has_column column (create_table columns before) ≡ true
create_table_keeps columns [] column h = ground arith
create_table_keeps columns (c ∷ before) column h = h

create_index_adds :
    (name other : String) (d : Database)
    → any (is_name other) (create_index name d).indexes
      ≡ (name == other || any (is_name other) d.indexes)
create_index_adds name other d =
    ground (arith, any-append (is_name other) d.indexes (name ∷ []), eq_iff name other)

module _ (d : Database) where
  abbrev created : Database
  created = record d {
    rules_columns = create_table rules_table d.rules_columns;
    seen_columns = create_table seen_table d.seen_columns;
    audit_columns = create_table audit_table d.audit_columns;
    indexes =
        (create_index "audit_name_idx"
          (create_index "audit_ts_idx" (create_index "rules_name_idx" d))).indexes;
  }

  abbrev counted : Database
  counted = add_missing_column "mismatch_count" no_mismatches created

  abbrev dated : Database
  dated = add_missing_column "last_mismatch_ts" no_mismatch_date counted

  prepared_lem : apply_all preparations d ≡ drop_unhashed dated
  unfolding create_schema
  prepared_lem = refl

  others-dated : others_of dated ≡ others_of created
  others-dated =
      others-add_missing_column "last_mismatch_ts" no_mismatch_date counted
      ∙ others-add_missing_column "mismatch_count" no_mismatches created

  has_column-dated :
      (column : String)
      → has_column column dated.seen_columns ≡ (
          "last_mismatch_ts" == column
          || ("mismatch_count" == column || has_column column created.seen_columns))
  has_column-dated column =
      add_missing_column_adds "last_mismatch_ts" no_mismatch_date counted column
      ∙ ap (λ b. "last_mismatch_ts" == column || b)
          (add_missing_column_adds "mismatch_count" no_mismatches created column)

  fresh-dated : d.seen_columns ≡ [] → dated.seen_columns ≡ seen_table
  fresh-dated none_yet =
      let e = (IsCreated-create_table seen_table d.seen_columns).0 none_yet in
      let e' =
        add_missing_column_present "mismatch_count" no_mismatches created
          (ap (has_column "mismatch_count") e) in
      let e'' =
        add_missing_column_present "last_mismatch_ts" no_mismatch_date counted
          (ap (has_column "last_mismatch_ts") (e' ∙ e)) in
      e'' ∙ e' ∙ e

  has_index-created :
      (name : String)
      → any (is_name name) created.indexes ≡ (
          "audit_name_idx" == name
          || ("audit_ts_idx" == name || ("rules_name_idx" == name || any (is_name name) d.indexes)))
  has_index-created name =
      create_index_adds "audit_name_idx" name
        (create_index "audit_ts_idx" (create_index "rules_name_idx" d))
      ∙ ap (λ b. "audit_name_idx" == name || b)
          (create_index_adds "audit_ts_idx" name (create_index "rules_name_idx" d)
            ∙ ap (λ b. "audit_ts_idx" == name || b) (create_index_adds "rules_name_idx" name d))

  prepared-IsCurrent : IsCurrent d (mark_current (drop_unhashed dated))
  unfolding drop_unhashed
  prepared-IsCurrent =
      let rules = ap (λ o. o.2) others-dated in
      let audit = ap (λ o. o.3) others-dated in
      let indexes = ap (λ o. o.1) others-dated in
      record {
        marked = refl;
        rules_created =
            subst (IsCreated rules_table d.rules_columns) (sym rules)
              (IsCreated-create_table rules_table d.rules_columns);
        audit_created =
            subst (IsCreated audit_table d.audit_columns) (sym audit)
              (IsCreated-create_table audit_table d.audit_columns);
        seen_created = fresh-dated;
        seen_kept = λ column h.
            ground (
              arith,
              has_column-dated column,
              create_table_keeps seen_table d.seen_columns column h,
            );
        counts = has_column-dated "mismatch_count";
        dates = has_column-dated "last_mismatch_ts";
        rules_indexed =
            ap (any (is_name "rules_name_idx")) indexes ∙ has_index-created "rules_name_idx";
        audit_indexed =
            ap (any (is_name "audit_ts_idx")) indexes ∙ has_index-created "audit_ts_idx";
        names_indexed =
            ap (any (is_name "audit_name_idx")) indexes ∙ has_index-created "audit_name_idx";
        hashed = keep-IsHashed dated.tables.seen;
        recorded =
            hashes-add_missing_column "last_mismatch_ts" no_mismatch_date counted (λ row. refl)
            ∙ hashes-add_missing_column "mismatch_count" no_mismatches created (λ row. refl);
        others =
            ap (λ o. record (o.4) { seen = keep has_integrity dated.tables.seen }) others-dated;
      }

  -- A file of an older schema, whichever statements fail: either `migrate` succeeds, and then the file is
  -- marked with this schema; `rules` and `audit` have the columns of the schema if they were not there,
  -- and else the columns that they had; `seen` has those of the schema if it was not there, and else
  -- those that it had and the two for mismatches; the three indexes are there; the rows of `seen` are
  -- those that had a hash, in their order and with that hash, and no other row is touched. Or a
  -- statement fails, `migrate` reports it, and the file is still marked with its old version, so that
  -- the next start migrates it again.
  pub migrate-IsCurrent :
      (fails : ℕ → Bool)
      → lt_int d.user_version (pos schema_version) ≡ true
      → lt_int (pos schema_version) d.user_version ≡ false
      → (((migrate fails d).0 ≡ ok tt) × IsCurrent d (migrate fails d).1)
        ⊎ (((migrate fails d).0 ≡ err migrate_failed)
            × ((migrate fails d).1.user_version ≡ d.user_version)
            × ((n : ℕ) × (fails n ≡ true)))
  unfolding migrate
  migrate-IsCurrent fails older not_newer = elim (Bool-cases (fails 0)) [
    | inl e ↦ rw e (inr (refl, refl, (0, e)))
    | inr e ↦
        rw (e, not_newer, older)
          (elim (run_steps-outcome fails 1 preparations mark_current d preparations-KeepVersion) [
            | inl done ↦
                let left = done ∙ ap (λ x. (ok tt, mark_current x)) prepared_lem in
                inl (ap (λ r. r.0) left, subst (λ r. IsCurrent d r.1) (sym left) prepared-IsCurrent)
            | inr failed ↦ inr failed
          ])
  ]
