-- ===== src/External.antt =====
-- What the program takes from crates whose text is not in the repository, as parameters: `chrono`
-- (instants, their differences and unix times), `semver` (versions and their order), `sha2` (digests) and the
-- texts of `serde_json`. A definition that uses one takes this record.
use Prim.Native.Nat.{Ordering}
use npmfilter.Prelude.{String, Bool, List, ℕ, Option}
use npmfilter.Prelude.Int.{ℤ}
use npmfilter.Json.{Value}

pub record External : Type 1 where
  -- `DateTime<Utc>`, `DateTime::parse_from_rfc3339(raw).ok()` and `to_rfc3339`.
  pub Instant : Type 0
  pub parse_from_rfc3339 : String → Option Instant
  pub to_rfc3339 : Instant → String
  -- `now.signed_duration_since(at).num_seconds()`: first `now`, then `at`.
  pub num_seconds : Instant → Instant → ℤ
  -- `at.timestamp()` and `DateTime::from_timestamp(secs, 0)`.
  pub timestamp : Instant → ℤ
  pub from_timestamp : ℤ → Option Instant
  -- `semver::Version::parse(raw).ok()`, `Version::cmp`, `parsed.pre.is_empty()`.
  pub Version : Type 0
  pub parse_version : String → Option Version
  pub compare_parsed : Version → Version → Ordering
  pub pre_is_empty : Version → Bool
  -- `Sha256::digest`, of bytes and as bytes.
  pub sha256 : List ℕ → List ℕ
  -- `Value::to_string`.
  pub to_text : Value → String
  -- `serde_json::to_string` and `serde_json::from_str` on a `BTreeMap<String, String>`.
  pub map_to_string : List (String × String) → Option String
  pub map_from_str : String → Option (List (String × String))
  -- `{:?}` on a text.
  pub debug : String → String
  -- `String::from_utf8_lossy`.
  pub from_utf8_lossy : List ℕ → String
