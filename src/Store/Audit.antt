-- ===== src/Store/Audit.antt =====
-- The audit log of src/store/mod.rs, and the pruning.
pub mod Pruned
pub mod Batch
pub mod Repeated
use npmfilter.Prelude.{
  ℕ, ◌+◌, String, Bool, true, false, ◌&&◌, Option, none, some, List, [], ◌∷◌, if◌then◌else◌, ◌==◌,
  keep, any, sort_by, take, min,
}
use npmfilter.Prelude.Int.{lt_int}
use npmfilter.Prelude.Text.{format, strip_prefix_text}
use npmfilter.Prelude
use npmfilter.Prelude.Result
use npmfilter.Prelude.Result.{Result, ok}
use npmfilter.External.{External}
use npmfilter.Policy.Types.{BlockRecord, as_str}
use npmfilter.Store.Errors.{StoreError}
use npmfilter.Store.Types.{AuditEntry, AuditRecord, block_entry, severity_str}
use npmfilter.Store.Tables.{AuditRow, insert_audit, latest_detail, delete_audit, delete_seen}
use npmfilter.Store.Connection.{
  Action, pure, lift, ◌>>=◌, ◌>>◌, statement, select, execute, attempt, in_transaction,
}
use npmfilter.Store.Rows.{audit_record}

-- `previous.is_some_and(|detail| detail.starts_with(&prefix))`.
abbrev pub repeats : String → Option String → Bool
repeats reason none = false
repeats reason (some detail) =
    Prelude.is_some (strip_prefix_text (format (reason ∷ ": " ∷ [])) detail)

-- SELECT 1 FROM audit WHERE name = ?1 AND event = ?2.
abbrev pub is_event_of : String → String → AuditRow → Bool
is_event_of name event row = row.name == name && row.event == event

-- ORDER BY ts DESC, id DESC: the rows come by falling id, and the sort is stable.
abbrev is_later : AuditRow → AuditRow → Bool
is_later a b = lt_int b.ts a.ts

abbrev is_about : Option String → AuditRow → Bool
is_about none row = true
is_about (some name) row = row.name == name

-- `i64::MAX`.
abbrev i64_max : ℕ
i64_max = 9_223_372_036_854_775_807

module _ (env : External) where
  open env use {Instant, timestamp}

  -- The columns of an entry, all but the id.
  unfoldable pub audit_columns : AuditEntry Instant → AuditRow
  unfolding severity_str
  audit_columns entry = record {
    id = 0;
    ts = timestamp entry.ts;
    event = entry.event;
    severity = severity_str entry.severity;
    name = entry.name;
    version = entry.version;
    detail = entry.detail;
  }

  unfoldable pub append_audit : AuditEntry Instant → Action ℕ
  append_audit entry c =
      (execute (insert_audit (audit_columns entry)) >>= λ done. λ d. (ok d.tables.last_audit_id, d))
        c

  -- One round of the loop of `record_blocks`: whether a row was written.
  unfoldable pub append_if_new : AuditEntry Instant → String → Option String → Action ℕ
  append_if_new entry reason previous =
      if repeats reason previous
      then pure 0
      else execute (insert_audit (audit_columns entry)) >> pure 1

  unfoldable pub record_each : String → List BlockRecord → Instant → Action ℕ
  record_each name [] now = pure 0
  record_each name (blocked ∷ rest) now = do
    let entry = block_entry name blocked now
    previous ← select (λ t. latest_detail entry.name entry.version entry.event t.audit)
    written ← append_if_new entry (as_str blocked.reason) previous
    more ← record_each name rest now
    pure (written + more)

  -- The two `prepare`s, and the loop.
  unfoldable pub record_blocks : String → List BlockRecord → Instant → Action ℕ
  record_blocks name [] now = pure 0
  record_blocks name (blocked ∷ rest) now =
      in_transaction (do attempt; attempt; record_each name (blocked ∷ rest) now)

  unfoldable pub prune_audit : Instant → Action ℕ
  prune_audit before = statement (delete_audit (timestamp before))

  unfoldable pub prune_seen : Instant → Action ℕ
  prune_seen before = statement (delete_seen (timestamp before))

  abbrev pub append_unless : Bool → AuditEntry Instant → Action Bool
  append_unless true entry = pure false
  append_unless false entry = execute (insert_audit (audit_columns entry)) >> pure true

  unfoldable pub append_audit_once : AuditEntry Instant → Action Bool
  append_audit_once entry = in_transaction (do
    seen ← select (λ t. any (is_event_of entry.name entry.event) t.audit)
    append_unless seen entry)

  unfoldable pub read_audit : List AuditRow → Result StoreError (List (AuditRecord Instant))
  read_audit [] = ok []
  read_audit (row ∷ rows) =
      Result.◌>>=◌ (audit_record env row)
        (λ entry. Result.◌>>=◌ (read_audit rows) (λ rest. ok (entry ∷ rest)))

  unfoldable pub recent_audit : Option String → ℕ → Action (List (AuditRecord Instant))
  recent_audit name limit = do
    attempt
    rows ← select (λ t. take (min limit i64_max) (sort_by is_later (keep (is_about name) t.audit)))
    lift (read_audit rows)
