-- ===== src/Store/Types.antt =====
-- The types of src/store/mod.rs and what builds them: errors, severities, hook and pin sets, rules to
-- be recorded and audit entries.
pub mod Scripts
use npmfilter.Prelude.Bytes.{as_bytes}
use npmfilter.Prelude.{
  ℕ, ◌+◌, String, Option, none, some, List, [], ◌∷◌, length, is_empty, Bool, if◌then◌else◌, ◌==◌,
  map,
}
use npmfilter.Prelude
use npmfilter.Prelude.Text.{format}
use npmfilter.Prelude.Tree
use npmfilter.Prelude.Result.{Result, ok_or}
use npmfilter.External.{External}
use npmfilter.Store.Errors.{StoreError, pins_json}
use npmfilter.Hex.{hex_encode}
use npmfilter.Json.{Value, string, of_map}
use npmfilter.Policy.Types.{Verdict, allow, deny, Rule, BlockRecord, as_str, is_critical}
use npmfilter.Policy.Meta.{install_hooks}

abbrev pub event_block : String
event_block = "block"

abbrev pub event_allow : String
event_allow = "allow"

abbrev pub event_deny : String
event_deny = "deny"

abbrev pub event_tamper : String
event_tamper = "tamper"

abbrev pub event_foreign_tarball : String
event_foreign_tarball = "foreign_tarball"

abbrev pub event_publish : String
event_publish = "publish_passthrough"

-- `SCHEMA_VERSION`.
abbrev pub schema_version : ℕ
schema_version = 4

pub data Severity : Type 0 where
  info warning critical : Severity

unfoldable pub severity_str : Severity → String
severity_str info = "info"
severity_str warning = "warning"
severity_str critical = "critical"

unfoldable pub parse_severity : String → Option Severity
parse_severity raw =
    if raw == "info"
    then some info
    else if raw == "warning"
    then some warning
    else if raw == "critical"
    then some critical
    else none

-- `ScriptSet` and `PinSet`: maps in the order of their keys.
pub record ScriptSet : Type 0 where
  pub hooks : List (String × String)

pub record PinSet : Type 0 where
  pub files : List (String × String)

-- `collect` into a `BTreeMap`.
abbrev pub collect : List (String × String) → List (String × String) → List (String × String)
collect [] out = out
collect ((k, v) ∷ pairs) out = collect pairs (Tree.insert k v out)

unfoldable pub from_hooks : List (String × String) → ScriptSet
from_hooks hooks = record { hooks = collect hooks [] }

unfoldable pub from_files : List (String × String) → PinSet
from_files files = record { files = collect files [] }

abbrev pub insert_commands : List (String × String) → List (String × Value) → List (String × Value)
insert_commands [] object = object
insert_commands ((hook, command) ∷ hooks) object =
    insert_commands hooks (Tree.insert hook (string command) object)

-- A rule that is to be recorded.
pub record NewRule : Type 0 where
  pub name : String
  pub version : String
  pub verdict : Verdict
  pub integrity : Option String
  pub scripts : Option ScriptSet
  pub pins : Option PinSet
  pub reason : Option String
  pub actor : Option String

-- `NewRule::allow` and the rest.
unfoldable pub allow_rule : String → String → String → NewRule
allow_rule name version integrity = record {
  name = name;
  version = version;
  verdict = allow;
  integrity = some integrity;
  scripts = none;
  pins = none;
  reason = none;
  actor = none;
}

unfoldable pub deny_rule : String → String → NewRule
deny_rule name version = record {
  name = name;
  version = version;
  verdict = deny;
  integrity = none;
  scripts = none;
  pins = none;
  reason = none;
  actor = none;
}

unfoldable pub with_pins : PinSet → NewRule → NewRule
with_pins pins rule = record rule { pins = some pins }

unfoldable pub with_scripts : ScriptSet → NewRule → NewRule
with_scripts scripts rule = record rule { scripts = some scripts }

unfoldable pub with_reason : String → NewRule → NewRule
with_reason reason rule = record rule { reason = some reason }

unfoldable pub with_actor : String → NewRule → NewRule
with_actor actor rule = record rule { actor = some actor }

pub record StoredRule (Instant : Type 0) : Type 0 where
  pub id : ℕ
  pub rule : Rule
  pub scripts_json : Option String
  pub pins : Option PinSet
  pub created : Instant

pub record RuleFilter : Type 0 where
  pub name : Option String
  pub verdict : Option Verdict

pub record AuditEntry (Instant : Type 0) : Type 0 where
  pub ts : Instant
  pub event : String
  pub severity : Severity
  pub name : String
  pub version : Option String
  pub detail : String

pub record AuditRecord (Instant : Type 0) : Type 0 where
  pub id : ℕ
  pub entry : AuditEntry Instant

abbrev rule_event : Verdict → String × Severity
rule_event allow = (event_allow, info)
rule_event deny = (event_deny, warning)

abbrev or_unhashed : Option String → String
or_unhashed none = "<no dist.integrity>"
or_unhashed (some integrity) = integrity

abbrev rule_detail : Verdict → Option String → String
rule_detail allow integrity = format ("approved, pinned to " ∷ or_unhashed integrity ∷ [])
rule_detail deny integrity = "denied"

abbrev push_reason : Option String → String → String
push_reason none detail = detail
push_reason (some reason) detail = format (detail ∷ ": " ∷ reason ∷ [])

module _ {Instant : Type 0} where
  -- `NewRule::audit_entry`.
  unfoldable pub audit_entry : NewRule → Instant → AuditEntry Instant
  unfolding format
  audit_entry rule ts =
      let (event, severity) = rule_event rule.verdict in
      record {
        ts = ts;
        event = event;
        severity = severity;
        name = rule.name;
        version = some rule.version;
        detail = push_reason rule.reason (rule_detail rule.verdict rule.integrity);
      }

  -- `AuditEntry::block`.
  unfoldable pub block_entry : String → BlockRecord → Instant → AuditEntry Instant
  block_entry name blocked ts =
      let is_tamper = is_critical blocked.reason in
      record {
        ts = ts;
        event = if is_tamper then event_tamper else event_block;
        severity = if is_tamper then critical else warning;
        name = name;
        version = some blocked.version;
        detail = format (as_str blocked.reason ∷ ": " ∷ blocked.detail ∷ []);
      }

  -- `AuditEntry::tamper`.
  unfoldable pub tamper_entry : String → String → String → Instant → AuditEntry Instant
  tamper_entry name version detail ts = record {
    ts = ts;
    event = event_tamper;
    severity = critical;
    name = name;
    version = some version;
    detail = detail;
  }

unfoldable pub all_rules : RuleFilter
all_rules = record { name = none; verdict = none }

unfoldable pub for_package : String → RuleFilter
for_package name = record { name = some name; verdict = none }

unfoldable pub with_verdict : Verdict → RuleFilter → RuleFilter
with_verdict verdict filter = record filter { verdict = some verdict }

module _ (env : External) where
  -- `ScriptSet::from_version`.
  unfoldable pub from_version : Value → ScriptSet
  from_version meta = from_hooks (install_hooks env meta)

  -- `ScriptSet::json` and `ScriptSet::sha256`.
  unfoldable pub scripts_text : ScriptSet → String
  scripts_text scripts = env.to_text (of_map (insert_commands scripts.hooks []))

  unfoldable pub scripts_digest : ScriptSet → String
  scripts_digest scripts = hex_encode (env.sha256 (as_bytes (scripts_text scripts)))

  -- `PinSet::to_json` and `PinSet::from_json`.
  unfoldable pub pins_to_json : PinSet → Result StoreError String
  pins_to_json pins = ok_or pins_json (env.map_to_string pins.files)

  unfoldable pub pins_from_json : String → Result StoreError PinSet
  pins_from_json raw =
      ok_or pins_json
        (Prelude.◌>>=◌ (env.map_from_str raw) (λ files. some (record { files = files })))
