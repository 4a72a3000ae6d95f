-- ===== src/Policy/Types.antt =====
-- The types of src/policy/mod.rs: the configuration, the reasons for a block, the rules, the ledger's
-- answers, and the two traits that the engine takes. A method that works through a shared reference
-- and changes the state behind it returns the new state; `S` is that state.
use npmfilter.Prelude.{ℕ, String, Bool, true, false, Option, none, some, List}
use npmfilter.External.{External}
use npmfilter.Json.{Value}

pub record PolicyConfig : Type 0 where
  pub min_age_days : ℕ
  pub bypass_scopes : List String
  pub allow_dist_tag_downgrade : Bool
  pub install_script_quarantine_days : ℕ

pub data BlockReason : Type 0 where
  integrity_changed deny_rule too_new install_script scripts_changed : BlockReason
  no_integrity install_script_quarantine : BlockReason

-- `BlockReason::as_str`.
unfoldable pub as_str : BlockReason → String
as_str integrity_changed = "integrity_changed"
as_str deny_rule = "deny_rule"
as_str too_new = "too_new"
as_str install_script = "install_script"
as_str scripts_changed = "scripts_changed"
as_str no_integrity = "no_integrity"
as_str install_script_quarantine = "install_script_quarantine"

-- `BlockReason::is_critical`.
unfoldable pub is_critical : BlockReason → Bool
is_critical integrity_changed = true
is_critical scripts_changed = true
is_critical _ = false

pub record BlockRecord : Type 0 where
  pub version : String
  pub reason : BlockReason
  pub detail : String
  pub public_detail : String

pub record PolicyOutcome : Type 0 where
  pub packument : Value
  pub blocked : List BlockRecord

pub data PolicyError : Type 0 where
  not_an_object missing_name missing_versions : PolicyError

pub data Verdict : Type 0 where
  allow deny : Verdict

pub record Rule : Type 0 where
  pub name : String
  pub version : String
  pub verdict : Verdict
  pub integrity : Option String
  pub scripts_sha256 : Option String
  pub reason : Option String
  pub actor : Option String

-- `Rule::allow`, `Rule::deny` and `Rule::with_reason`.
unfoldable pub new_allow : String → String → String → Rule
new_allow name version integrity = record {
  name = name;
  version = version;
  verdict = allow;
  integrity = some integrity;
  scripts_sha256 = none;
  reason = none;
  actor = none;
}

unfoldable pub new_deny : String → String → Rule
new_deny name version = record {
  name = name;
  version = version;
  verdict = deny;
  integrity = none;
  scripts_sha256 = none;
  reason = none;
  actor = none;
}

unfoldable pub with_reason : String → Rule → Rule
with_reason reason rule = record rule { reason = some reason }

pub data LedgerCheck : Type 0 where
  unseen match : LedgerCheck
  changed : (recorded : Option String) → LedgerCheck

-- `trait RuleStore`.
pub record RuleStore (S : Type 0) : Type 0 where
  pub lookup : String → String → S → Option Rule × S

-- `trait IntegrityLedger`.
pub record IntegrityLedger (env : External) (S : Type 0) : Type 0 where
  pub observe : String → String → Option String → env.Instant → S → LedgerCheck × S

-- `enum Decision`.
pub data Decision : Type 0 where
  admit : Decision
  block : (reason : BlockReason) (detail : String) → Decision
