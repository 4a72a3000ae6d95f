-- ===== src/Control/Validate.antt =====
-- The field validators of src/control/protocol.rs.
use Prim.Native.String.{len}
use npmfilter.Prelude.{
  ℕ, String, Bool, true, false, not, ◌&&◌, ◌||◌, Option, none, some, any, is_none, ltb, leb, nat_eq,
  if◌then◌else◌, ◌==◌,
}
use npmfilter.Prelude.Text.{
  is_blank, all_chars, any_char, starts_with_char, strip_prefix, split_once, split, is_control,
  is_ascii_alphanumeric, is_ascii_lowercase, is_ascii_digit,
}
use npmfilter.Prelude.Result.{Result, ok, err}
use npmfilter.External.{External}
use npmfilter.Control.Protocol.{
  max_name_bytes, max_version_bytes, max_integrity_bytes, ValidationError, empty, too_long,
  bad_pin_path, bad_sha256, bad_package_name, bad_version, control_character, bad_integrity,
}

-- `Result<(), ValidationError>`.
abbrev pub Checked : Type 0
Checked = Result ValidationError (Unit {0})

-- The first two tests of most validators.
abbrev pub bounded : String → String → ℕ → Checked → Checked
bounded field_name value limit rest =
    if is_blank value
    then err (empty field_name)
    else if ltb limit (len value)
    then err (too_long field_name limit)
    else rest

unfoldable pub check_text : String → String → ℕ → Checked
check_text field_name value limit =
    bounded field_name value limit
      (if any_char is_control value then err (control_character field_name) else ok tt)

unfoldable pub optional_text : String → Option String → ℕ → Checked
optional_text field_name (some value) limit = check_text field_name value limit
optional_text field_name none limit = ok tt

abbrev pub is_bad_segment : String → Bool
is_bad_segment segment = segment == "." || segment == ".." || is_blank segment

unfoldable pub pin_path : String → String → Checked
pin_path field_name value =
    let bad =
      starts_with_char (nat_eq b'/') value
      || any_char (nat_eq b'\\') value
      || any_char (nat_eq 0) value
      || any is_bad_segment (split b'/' value) in
    bounded field_name value max_name_bytes (if bad then err (bad_pin_path field_name) else ok tt)

-- A character of a digest. A byte of a longer UTF-8 sequence is neither, as its code point is not.
abbrev pub is_hex_char : ℕ → Bool
is_hex_char c = is_ascii_digit c || leb b'a' c && leb c b'f'

unfoldable pub sha256_hex : String → String → Checked
sha256_hex field_name value =
    if not (nat_eq (len value) 64) || not (all_chars is_hex_char value)
    then err (bad_sha256 field_name)
    else ok tt

abbrev pub is_name_char : ℕ → Bool
is_name_char c =
    is_ascii_alphanumeric c || nat_eq c b'-' || nat_eq c b'.' || nat_eq c b'_' || nat_eq c b'~'

abbrev pub starts_badly : ℕ → Bool
starts_badly c = nat_eq c b'.' || nat_eq c b'_' || nat_eq c b'-'

unfoldable pub is_name_part : String → Bool
is_name_part part =
    not (is_blank part) && not (starts_with_char starts_badly part) && all_chars is_name_char part

abbrev usable_if : ValidationError → Bool → Checked
usable_if e true = ok tt
usable_if e false = err e

-- The scope and the name after the `@`.
abbrev pub scoped_name : String → Option (String × String) → Checked
scoped_name field_name none = err (bad_package_name field_name)
scoped_name field_name (some (scope, name)) =
    if not (is_name_part scope) || not (is_name_part name)
    then err (bad_package_name field_name)
    else ok tt

abbrev pub bare_name : String → String → Option String → Checked
bare_name field_name value (some scoped) = scoped_name field_name (split_once b'/' scoped)
bare_name field_name value none = usable_if (bad_package_name field_name) (is_name_part value)

unfoldable pub package_name : String → String → Checked
package_name field_name value =
    bounded field_name value max_name_bytes (bare_name field_name value (strip_prefix b'@' value))

unfoldable pub exact_version : External → String → String → Checked
exact_version env field_name value =
    bounded field_name value max_version_bytes
      (if is_none (env.parse_version value) then err (bad_version field_name) else ok tt)

abbrev pub is_tag_char : ℕ → Bool
is_tag_char c =
    is_ascii_alphanumeric c || nat_eq c b'-' || nat_eq c b'.' || nat_eq c b'+' || nat_eq c b'_'

unfoldable pub version_or_tag : String → String → Checked
version_or_tag field_name value =
    bounded field_name value max_version_bytes
      (usable_if (bad_version field_name) (all_chars is_tag_char value))

abbrev pub is_algorithm_char : ℕ → Bool
is_algorithm_char c = is_ascii_lowercase c || is_ascii_digit c

abbrev pub is_digest_char : ℕ → Bool
is_digest_char c = is_ascii_alphanumeric c || nat_eq c b'+' || nat_eq c b'/' || nat_eq c b'='

abbrev pub integrity_parts : String → Option (String × String) → Checked
integrity_parts field_name none = err (bad_integrity field_name)
integrity_parts field_name (some (algorithm, digest)) =
    let algorithm_ok = not (is_blank algorithm) && all_chars is_algorithm_char algorithm in
    let digest_ok = not (is_blank digest) && all_chars is_digest_char digest in
    usable_if (bad_integrity field_name) (algorithm_ok && digest_ok)

unfoldable pub check_integrity : String → String → Checked
check_integrity field_name value =
    bounded field_name value max_integrity_bytes
      (integrity_parts field_name (split_once b'-' value))
