-- ===== src/Store/FailClosed.antt =====
-- The traits of src/store/mod.rs that cannot return an error, and the slot for the failure that they
-- swallow. The two mutexes are the two fields.
use npmfilter.Prelude.{String, Bool, true, Option, none, some, List, [], ◌∷◌}
use npmfilter.Prelude.Text.{format}
use npmfilter.Prelude.Result.{Result, ok, err}
use npmfilter.External.{External}
use npmfilter.Policy.Types
use npmfilter.Policy.Types.{Rule, LedgerCheck, changed, RuleStore, IntegrityLedger, new_deny}
use npmfilter.Store.Errors.{StoreError, error_text}
use npmfilter.Store.Types.{StoredRule}
use npmfilter.Store.Connection.{Connection, Action}
use npmfilter.Store.Ledger.{try_observe_batch, try_observe_with}
use npmfilter.Store.Rules.{try_lookup_rule}

pub record Store : Type 0 where
  pub conn : Connection
  pub failure : Option String

-- The first failure is kept.
abbrev or_first : Option String → String → Option String
or_first none failure = some failure
or_first (some first) failure = some first

unfoldable pub clear_failure : Store → Store
clear_failure s = record s { failure = none }

unfoldable pub take_failure : Store → Option String × Store
take_failure s = (s.failure, record s { failure = none })

-- A method of the connection, with the error as its result.
abbrev pub on_connection {ℓ} : {A : Type ℓ} → Action A → Store → Result StoreError A × Store
on_connection m s = let (r, c) = m s.conn in (r, record s { conn = c })

abbrev pub rule_of : {Instant : Type 0} → Option (StoredRule Instant) → Option Rule
rule_of none = none
rule_of (some stored) = some stored.rule

abbrev pub all_changed {ℓ} : {A : Type ℓ} → List A → List LedgerCheck
all_changed [] = []
all_changed (a ∷ rest) = changed none ∷ all_changed rest

module _ (env : External) where
  open env use {Instant}

  unfoldable pub note_failure : StoreError → Store → Store
  note_failure error s = record s { failure = or_first s.failure (error_text env error) }

  abbrev pub lookup_result :
      String
      → String
      → Result StoreError (Option (StoredRule Instant)) × Store
      → Option Rule × Store
  lookup_result name version (ok found, s) = (rule_of found, s)
  lookup_result name version (err error, s) = (
    some (
        Types.with_reason (format ("rules store unavailable: " ∷ error_text env error ∷ []))
          (new_deny name version)),
    note_failure error s,
  )

  -- `RuleStore::lookup`.
  unfoldable pub lookup : String → String → Store → Option Rule × Store
  lookup name version s =
      lookup_result name version (on_connection (try_lookup_rule env name version) s)

  abbrev pub batch_result :
      List (String × Option String)
      → Result StoreError (List LedgerCheck) × Store
      → List LedgerCheck × Store
  batch_result observations (ok checks, s) = (checks, s)
  batch_result observations (err error, s) = (all_changed observations, note_failure error s)

  unfoldable pub observe_batch :
      String → List (String × Option String) → Instant → Bool → Store → List LedgerCheck × Store
  observe_batch name observations now bump s =
      batch_result observations (on_connection (try_observe_batch env name observations now bump) s)

  abbrev pub check_result : Result StoreError LedgerCheck × Store → LedgerCheck × Store
  check_result (ok check, s) = (check, s)
  check_result (err error, s) = (changed none, note_failure error s)

  unfoldable pub observe_with :
      String → String → Option String → Instant → Bool → Store → LedgerCheck × Store
  observe_with name version integrity now bump s =
      check_result (on_connection (try_observe_with env name version integrity now bump) s)

  -- `IntegrityLedger::observe`.
  unfoldable pub observe : String → String → Option String → Instant → Store → LedgerCheck × Store
  observe name version integrity now s = observe_with name version integrity now true s

  abbrev pub store_rules : RuleStore Store
  store_rules = record { lookup = lookup }

  abbrev pub store_ledger : IntegrityLedger env Store
  store_ledger = record { observe = observe }
