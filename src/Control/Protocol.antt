-- ===== src/Control/Protocol.antt =====
-- The messages of src/control/protocol.rs, as they are once `serde` has read them. A field name of a
-- `ValidationError` is a text, as in the source; numbers are within their machine types.
use npmfilter.Prelude.{ℕ, ◌*◌, String, Bool, true, false, Option, List}

-- `PROTOCOL_VERSION` and the limits.
abbrev pub protocol_version : ℕ
protocol_version = 1

abbrev pub max_seed_entries : ℕ
max_seed_entries = 4096

abbrev pub max_name_bytes : ℕ
max_name_bytes = 214

abbrev pub max_version_bytes : ℕ
max_version_bytes = 256

abbrev pub max_reason_bytes : ℕ
max_reason_bytes = 1024

abbrev pub max_integrity_bytes : ℕ
max_integrity_bytes = 512

abbrev pub max_path_bytes : ℕ
max_path_bytes = 4096

abbrev pub max_command_bytes : ℕ
max_command_bytes = 8 * 1024

abbrev pub max_label_bytes : ℕ
max_label_bytes = 32

abbrev pub max_pins : ℕ
max_pins = 64

pub data ValidationError : Type 0 where
  empty : (field_name : String) → ValidationError
  too_many_pins : (limit : ℕ) → ValidationError
  bad_pin_path : (field_name : String) → ValidationError
  bad_sha256 : (field_name : String) → ValidationError
  too_long : (field_name : String) (limit : ℕ) → ValidationError
  bad_package_name : (field_name : String) → ValidationError
  bad_version : (field_name : String) → ValidationError
  control_character : (field_name : String) → ValidationError
  bad_integrity : (field_name : String) → ValidationError
  bad_hook : (field_name : String) → ValidationError
  too_many_seed_entries : (count : ℕ) → ValidationError
  bad_verdict : ValidationError
  wrong_version : (found : ℕ) → ValidationError

pub record RecentBlocksArgs : Type 0 where
  pub package_filter : Option String
  pub limit : Option ℕ

pub record InspectArgs : Type 0 where
  pub name : String
  pub version : Option String

-- `PinRequest`.
pub record PinRequest : Type 0 where
  pub path : String
  pub sha256 : Option String

pub record AllowArgs : Type 0 where
  pub name : String
  pub version : String
  pub reason : Option String
  pub pins : List PinRequest

pub record DenyArgs : Type 0 where
  pub name : String
  pub version : String
  pub reason : Option String

pub record RulesArgs : Type 0 where
  pub package_filter : Option String
  pub verdict : Option String

pub record LedgerArgs : Type 0 where
  pub name : String

-- `hooks` is a `BTreeMap`, as the list of its fields.
pub record SeedEntry : Type 0 where
  pub name : String
  pub version : String
  pub integrity : String
  pub integrity_source : String
  pub key : String
  pub tree_sha256 : String
  pub hooks : List (String × String)

pub record SeedArgs : Type 0 where
  pub root : String
  pub dry_run : Bool
  pub offline : Bool
  pub entries : List SeedEntry

pub data Request : Type 0 where
  status : Request
  recent_blocks : RecentBlocksArgs → Request
  inspect : InspectArgs → Request
  allow : AllowArgs → Request
  deny : DenyArgs → Request
  rules : RulesArgs → Request
  ledger : LedgerArgs → Request
  seed : SeedArgs → Request

pub record RequestEnvelope : Type 0 where
  pub version : ℕ
  pub client : String
  pub request : Request

-- `RequestEnvelope::new`.
unfoldable pub new : String → Request → RequestEnvelope
new client request = record { version = protocol_version; client = client; request = request }

-- `Request::name`.
unfoldable pub operation : Request → String
operation status = "status"
operation (recent_blocks args) = "recent_blocks"
operation (inspect args) = "inspect"
operation (allow args) = "allow"
operation (deny args) = "deny"
operation (rules args) = "rules"
operation (ledger args) = "ledger"
operation (seed args) = "seed"

unfoldable pub is_mutation : Request → Bool
is_mutation (allow args) = true
is_mutation (deny args) = true
is_mutation (seed args) = true
is_mutation _ = false
