-- ===== src/Store/Rows/Stored.antt =====
-- Rows of src/store/mod.rs that were written by its own methods, read back.
use npmfilter.Prelude.{ℕ, String, Option, none, some, ◌≡◌, refl}
use npmfilter.Prelude.Result.{ok}
use npmfilter.External.{External}
use npmfilter.Policy.Types.{Verdict, allow, deny}
use npmfilter.Store.Types.{
  Severity, info, warning, critical, severity_str, parse_severity, PinSet, pins_to_json,
  pins_from_json, NewRule, AuditEntry,
}
use npmfilter.Store.Rows.{
  verdict_str, parse_verdict, transpose, timestamp, stored_rule, audit_record,
}
use npmfilter.Store.Rules.{rule_columns, stored_of}
use npmfilter.Store.Audit.{audit_columns}

parse_verdict-verdict_str : (verdict : Verdict) → parse_verdict (verdict_str verdict) ≡ ok verdict
unfolding parse_verdict verdict_str
parse_verdict-verdict_str allow = refl
parse_verdict-verdict_str deny = refl

parse_severity-severity_str :
    (severity : Severity) → parse_severity (severity_str severity) ≡ some severity
unfolding parse_severity severity_str
parse_severity-severity_str info = refl
parse_severity-severity_str warning = refl
parse_severity-severity_str critical = refl

module _ (env : External) where
  open env use {Instant, from_timestamp}

  -- What `serde_json` promises of a map of texts: it can be written, and is read back.
  abbrev pub CanWrite : Option PinSet → Type 0
  CanWrite none = Unit
  CanWrite (some pins) =
      (text : String) × (env.map_to_string pins.files ≡ some text)
      × (env.map_from_str text ≡ some pins.files)

  -- An audit entry whose time is of whole seconds is read from its row as it was, with the row's id.
  pub audit_record-audit_columns :
      (entry : AuditEntry Instant) (id : ℕ)
      → from_timestamp (env.timestamp entry.ts) ≡ some entry.ts
      → audit_record env (record (audit_columns env entry) { id = id })
        ≡ ok (record { id = id; entry = entry })
  unfolding audit_record timestamp audit_columns
  audit_record-audit_columns entry id whole =
      rw (whole, parse_severity-severity_str entry.severity) refl

  pub pins_written :
      (pins : Option PinSet)
      → CanWrite pins
      → (text : Option String) × (transpose (pins_to_json env) pins ≡ ok text)
        × (transpose (pins_from_json env) text ≡ ok pins)
  unfolding pins_to_json pins_from_json
  pins_written none h = (none, refl, refl)
  pins_written (some pins) (text, written, back) = (some text, rw written refl, rw back refl)

  -- The row of a rule is read as what `record_rule` answered.
  pub stored_rule-rule_columns :
      (rule : NewRule) (id : ℕ) (now : Instant) (text : Option String)
      → transpose (pins_from_json env) text ≡ ok rule.pins
      → from_timestamp (env.timestamp now) ≡ some now
      → stored_rule env
          (rule.name, rule.version)
          (record (rule_columns env rule text now) { id = id })
        ≡ ok (stored_of env rule id now)
  unfolding stored_rule timestamp rule_columns stored_of
  stored_rule-rule_columns rule id now text back whole =
      rw (back, parse_verdict-verdict_str rule.verdict, whole) refl
