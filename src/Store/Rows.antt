-- ===== src/Store/Rows.antt =====
-- What the rows of src/store/mod.rs are read as.
pub mod Stored
use npmfilter.Prelude.{String, Option, none, some, ◌==◌, if◌then◌else◌}
use npmfilter.Prelude.Int.{ℤ, unsigned_or_zero}
use npmfilter.Prelude.Result.{Result, ok, err, ◌>>=◌, ok_or}
use npmfilter.External.{External}
use npmfilter.Policy.Types.{Verdict, allow, deny}
use npmfilter.Policy.Memory.{Key, LedgerEntry}
use npmfilter.Store.Errors.{StoreError, unknown_verdict, unknown_severity, bad_timestamp}
use npmfilter.Store.Types.{pins_from_json, StoredRule, AuditRecord, parse_severity}
use npmfilter.Store.Tables.{RuleRow, SeenRow, AuditRow}

unfoldable pub verdict_str : Verdict → String
verdict_str allow = "allow"
verdict_str deny = "deny"

unfoldable pub parse_verdict : String → Result StoreError Verdict
parse_verdict raw =
    if raw == "allow"
    then ok allow
    else if raw == "deny"
    then ok deny
    else err (unknown_verdict raw)

-- `Option<Result>` turned into `Result<Option>`.
abbrev pub transpose {ℓ κ} :
    {A : Type ℓ} {B : Type κ} → (A → Result StoreError B) → Option A → Result StoreError (Option B)
transpose read none = ok none
transpose read (some a) = read a >>= λ b. ok (some b)

module _ (env : External) where
  open env use {Instant, from_timestamp}

  unfoldable pub timestamp : ℤ → Result StoreError Instant
  timestamp secs = ok_or (bad_timestamp secs) (from_timestamp secs)

  -- The pins are read first, then the verdict and the timestamp.
  unfoldable pub stored_rule : Key → RuleRow → Result StoreError (StoredRule Instant)
  stored_rule key row = do
    pins ← transpose (pins_from_json env) row.pins_json
    verdict ← parse_verdict row.verdict
    created ← timestamp row.created_ts
    ok (record {
      id = row.id;
      rule = record {
        name = key.0;
        version = key.1;
        verdict = verdict;
        integrity = row.integrity;
        scripts_sha256 = row.scripts_sha256;
        reason = row.reason;
        actor = row.actor;
      };
      scripts_json = row.scripts_json;
      pins = pins;
      created = created;
    })

  unfoldable pub ledger_entry_of : SeenRow → Result StoreError (LedgerEntry Instant)
  ledger_entry_of row = do
    first_seen ← timestamp row.first_seen_ts
    last_seen ← timestamp row.last_seen_ts
    last_mismatch ← transpose timestamp row.last_mismatch_ts
    ok (record {
      integrity = row.integrity;
      first_seen = first_seen;
      last_seen = last_seen;
      times_seen = unsigned_or_zero row.times_seen;
      mismatch_count = unsigned_or_zero row.mismatch_count;
      last_mismatch = last_mismatch;
    })

  unfoldable pub audit_record : AuditRow → Result StoreError (AuditRecord Instant)
  audit_record row = do
    ts ← timestamp row.ts
    severity ← ok_or (unknown_severity row.severity) (parse_severity row.severity)
    ok (record {
      id = row.id;
      entry = record {
        ts = ts;
        event = row.event;
        severity = severity;
        name = row.name;
        version = row.version;
        detail = row.detail;
      };
    })
