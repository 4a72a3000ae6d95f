-- ===== src/Policy/Messages.antt =====
-- The operator-facing details that `evaluate_version` of src/policy/mod.rs writes into a block.
use npmfilter.Prelude.{ℕ, String, Option, none, some, List, [], ◌∷◌}
use npmfilter.Prelude.Int.{ℤ}
use npmfilter.Prelude.Text.{format, decimal}
use npmfilter.External.{External}
use npmfilter.Json.{Value}
use npmfilter.Policy.Meta.{version_integrity, version_tarball, scripts_sha256}
use npmfilter.Policy.Describe.{
  show_integrity, describe_age, fingerprint, hook_lines, describe_hooks,
}

unfoldable pub at_version : String → String → String
at_version name version = format (name ∷ "@" ∷ version ∷ [])

unfoldable pub deny_detail : Option String → String
deny_detail none = "denied by rule"
deny_detail (some reason) = format ("denied by rule: " ∷ reason ∷ [])

unfoldable pub undated_detail : String → ℕ → String
undated_detail version days = format (
    "packument has no `time` entry for "
    ∷ version
    ∷ ", so the "
    ∷ decimal days
    ∷ "-day age gate cannot clear this version"
    ∷ [])

abbrev pub flag_detail : String
flag_detail =
    "upstream flags install scripts (hasInstallScript: true) but published no `scripts` map, so the commands cannot be reviewed from the packument"

module _ (env : External) where
  open env use {Instant, to_rfc3339}

  unfoldable pub changed_detail : String → String → Option String → Option String → String
  changed_detail name version recorded identity = format (
      "integrity ledger: "
      ∷ at_version name version
      ∷ " was first recorded as "
      ∷ show_integrity recorded
      ∷ " but upstream now serves a different value (fingerprint "
      ∷ fingerprint env identity
      ∷ ")"
      ∷ [])

  unfoldable pub quarantine_detail : Value → ℕ → Option ℤ → String
  quarantine_detail meta days (some age) = format (
      "runs an install hook and is "
      ∷ describe_age age
      ∷ " old, under the "
      ∷ decimal days
      ∷ "-day quarantine floor that no approval overrides ("
      ∷ describe_hooks env meta
      ∷ ")"
      ∷ [])
  quarantine_detail meta days none = format (
      "runs an install hook and has no usable publish time, so it cannot be shown to be past the "
      ∷ decimal days
      ∷ "-day quarantine floor that no approval overrides ("
      ∷ describe_hooks env meta
      ∷ ")"
      ∷ [])

  unfoldable pub pinned_detail : String → String → Option String → Value → String
  pinned_detail name version pinned meta = format (
      "allow rule for "
      ∷ at_version name version
      ∷ " is pinned to "
      ∷ show_integrity pinned
      ∷ " but this version now carries a different value (fingerprint "
      ∷ fingerprint env (version_integrity meta)
      ∷ ")"
      ∷ [])

  unfoldable pub scripts_detail : String → String → String → Value → String
  scripts_detail name version approved meta = format (
      "allow rule for "
      ∷ at_version name version
      ∷ " approved install hooks with sha256 "
      ∷ approved
      ∷ " but this version now declares "
      ∷ scripts_sha256 env meta
      ∷ " ("
      ∷ describe_hooks env meta
      ∷ ")"
      ∷ [])

  unfoldable pub hashless_detail : String → String → Value → String
  hashless_detail name version meta = format (
      at_version name version
      ∷ " publishes no dist.integrity and no dist.shasum, so the integrity ledger has nothing to pin: every later observation would compare absent against absent and report the version unchanged whatever upstream served (tarball fingerprint "
      ∷ fingerprint env (version_tarball meta)
      ∷ ")"
      ∷ [])

  unfoldable pub unparsed_detail : String → String → ℕ → String
  unparsed_detail version raw days = format (
      "the packument's publish time for "
      ∷ version
      ∷ " is not a valid RFC 3339 timestamp (fingerprint "
      ∷ fingerprint env (some raw)
      ∷ "), so the "
      ∷ decimal days
      ∷ "-day age gate cannot clear it"
      ∷ [])

  unfoldable pub young_detail : Instant → ℤ → ℕ → String
  young_detail published_at age_secs days = format (
      "published "
      ∷ to_rfc3339 published_at
      ∷ " ("
      ∷ describe_age age_secs
      ∷ "), under the "
      ∷ decimal days
      ∷ "-day minimum"
      ∷ [])

  unfoldable pub commands_detail : List (String × String) → String
  commands_detail hooks = format ("install hooks present — " ∷ hook_lines env hooks ∷ [])
