-- ===== src/Store/Ledger.antt =====
-- The integrity ledger of src/store/mod.rs. The locking of a transaction, immediate or deferred, has no
-- counterpart here: a connection has one user at a time.
pub mod Batch
pub mod Recorded
pub mod Refines
pub mod Evidence
use npmfilter.Prelude.{
  String, Bool, true, Option, none, some, List, [], ◌∷◌, if◌then◌else◌, ◌==◌, sort_by,
}
use Prim.Native.Nat.{Ordering}
use npmfilter.Prelude.Int.{lt_int}
use npmfilter.Prelude.Text.{str_compare}
use npmfilter.Prelude.Dict
use npmfilter.Prelude.Dict.{pair_eq}
use npmfilter.Prelude.Result
use npmfilter.Prelude.Result.{Result, ok}
use npmfilter.External.{External}
use npmfilter.Policy.Types.{LedgerCheck, unseen, match, changed}
use npmfilter.Policy.Gates.{same_text}
use npmfilter.Policy.Memory.{Key, LedgerEntry}
use npmfilter.Store.Errors.{StoreError}
use npmfilter.Store.Tables.{Tables, SeenRow, insert_seen, bump_seen, note_mismatch}
use npmfilter.Store.Connection.{
  Action, pure, lift, ◌>>=◌, ◌>>◌, select, execute, attempt, in_transaction,
}
use npmfilter.Store.Rows.{transpose, ledger_entry_of}

-- SELECT integrity FROM seen: the outer option is that of the row, the inner one that of the column.
unfoldable pub recorded_integrity : Key → Tables → Option (Option String)
recorded_integrity key t = elim (Dict.get key t.seen) [
  | none ↦ none
  | some row ↦ some row.integrity
]

abbrev pub first_or_changed : List LedgerCheck → LedgerCheck
first_or_changed [] = changed none
first_or_changed (check ∷ checks) = check

-- ORDER BY first_seen_ts DESC, version DESC.
abbrev is_newer : String × SeenRow → String × SeenRow → Bool
is_newer a b =
    if lt_int b.1.first_seen_ts a.1.first_seen_ts
    then true
    else if lt_int a.1.first_seen_ts b.1.first_seen_ts
    then Bool.false
    else elim (str_compare a.0 b.0) [ Ordering.gt ↦ true | _ ↦ Bool.false ]

-- The rows of one package, by their version.
unfoldable pub rows_of : String → List (Key × SeenRow) → List (String × SeenRow)
rows_of name [] = []
rows_of name ((key, row) ∷ rows) =
    let rest = rows_of name rows in if key.0 == name then (key.1, row) ∷ rest else rest

module _ (env : External) where
  open env use {Instant, timestamp}

  -- The `match` of the loop of `try_observe_batch`.
  unfoldable pub record_observation :
      Key → Option String → Instant → Bool → Option (Option String) → Action LedgerCheck
  record_observation key identity now bump none =
      execute (insert_seen key identity (timestamp now)) >> pure unseen
  record_observation key identity now bump (some recorded) =
      if same_text recorded identity
      then if bump then execute (bump_seen key (timestamp now)) >> pure match else pure match
      else execute (note_mismatch key (timestamp now)) >> pure (changed recorded)

  unfoldable pub observe_each :
      String → List (String × Option String) → Instant → Bool → Action (List LedgerCheck)
  observe_each name [] now bump = pure []
  observe_each name ((version, identity) ∷ observations) now bump = do
    recorded ← select (recorded_integrity (name, version))
    check ← record_observation (name, version) identity now bump recorded
    checks ← observe_each name observations now bump
    pure (check ∷ checks)

  -- The four `prepare`s, and the loop.
  unfoldable pub try_observe_batch :
      String → List (String × Option String) → Instant → Bool → Action (List LedgerCheck)
  try_observe_batch name [] now bump = pure []
  try_observe_batch name (o ∷ observations) now bump =
      in_transaction
        (do attempt; attempt; attempt; attempt; observe_each name (o ∷ observations) now bump)

  unfoldable pub try_observe_with :
      String → String → Option String → Instant → Bool → Action LedgerCheck
  try_observe_with name version integrity now bump = do
    checks ← try_observe_batch name ((version, integrity) ∷ []) now bump
    pure (first_or_changed checks)

  unfoldable pub try_observe : String → String → Option String → Instant → Action LedgerCheck
  try_observe name version integrity now = try_observe_with name version integrity now true

  unfoldable pub ledger_entry : String → String → Action (Option (LedgerEntry Instant))
  ledger_entry name version = do
    row ← select (λ t. Dict.get (name, version) t.seen)
    lift (transpose (ledger_entry_of env) row)

  unfoldable pub read_history :
      List (String × SeenRow) → Result StoreError (List (String × LedgerEntry Instant))
  read_history [] = ok []
  read_history ((version, row) ∷ rows) =
      Result.◌>>=◌ (ledger_entry_of env row)
        (λ entry. Result.◌>>=◌ (read_history rows) (λ rest. ok ((version, entry) ∷ rest)))

  unfoldable pub ledger_history : String → Action (List (String × LedgerEntry Instant))
  ledger_history name = do
    attempt
    rows ← select (λ t. sort_by is_newer (rows_of name t.seen))
    lift (read_history rows)
