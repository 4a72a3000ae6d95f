-- ===== src/Control/Accepted/Fields.antt =====
-- The texts, paths, digests, versions and integrity values that the validators of
-- src/control/protocol.rs accept.
use Prim.Native.Char.{Char, char}
use Prim.Native.String
use Prim.Native.String.{String, len}
use npmfilter.Prelude.{
  ℕ, ◌≤◌, ◌<◌, true, false, some, List, [], ◌∷◌, All, any, ◌≡◌, ◌≢◌, ◌↔◌, ◌⊎◌, nat_eq, arith, inl,
  inr, Option-cases, subst, eq_iff,
}
use npmfilter.Prelude.Text.{
  is_blank, any_char, starts_with_char, split_once, split, is_control, is_ascii_alphanumeric,
  is_ascii_lowercase, is_ascii_digit,
}
use npmfilter.Prelude.Result.{ok}
use npmfilter.External.{External}
use npmfilter.Control.Protocol.{max_name_bytes, max_version_bytes, max_integrity_bytes}
use npmfilter.Control.Validate.{
  check_text, pin_path, sha256_hex, exact_version, version_or_tag, check_integrity, is_hex_char,
  is_tag_char, is_digest_char, is_algorithm_char, integrity_parts, is_bad_segment,
}
use npmfilter.Control.Accepted.{AllChars, IsBetween, IsAlphanumeric, all_chars_iff, any_char_iff}
use npmfilter.Control.Accepted.Names.{split_once_sound, split_once-append}

-- Not of the category Cc.
abbrev pub IsPrintable : ℕ → Type 0
IsPrintable c = (32 ≤ c) × ((c < 127) ⊎ (159 < c))

abbrev pub IsText : ℕ → String → Type 0
IsText limit s = IsBetween limit s × AllChars IsPrintable s

IsPrintable-iff : (c : ℕ) → (is_control c ≡ false) ↔ IsPrintable c
unfolding is_control
IsPrintable-iff c = ground arith

pub check_text-ok_iff :
    (field_name value : String) (limit : ℕ)
    → (check_text field_name value limit ≡ ok tt) ↔ IsText limit value
unfolding check_text
check_text-ok_iff field_name value limit =
    ground (arith, any_char_iff is_control IsPrintable value IsPrintable-iff)

-- Relative, with neither a backslash nor a NUL, and no segment that is empty or `.` or `..`.
abbrev IsSegment : String → Type 0
IsSegment s = (s ≢ ".") × (s ≢ "..") × (is_blank s ≡ false)

abbrev pub IsPinPath : String → Type 0
IsPinPath value =
    IsBetween max_name_bytes value
    × (starts_with_char (nat_eq b'/') value ≡ false)
    × AllChars (λ c. (c ≢ b'\\') × (c ≢ 0)) value
    × All IsSegment (split b'/' value)

segments_iff : (xs : List String) → (any is_bad_segment xs ≡ false) ↔ All IsSegment xs
segments_iff [] = ground arith
segments_iff (x ∷ xs) = ground (arith, segments_iff xs, eq_iff x ".", eq_iff x "..")

path_char_iff :
    (s : String)
    → ((any_char (nat_eq b'\\') s ≡ false) × (any_char (nat_eq 0) s ≡ false))
      ↔ AllChars (λ c. (c ≢ b'\\') × (c ≢ 0)) s
unfolding any_char
path_char_iff String.[] = ground arith
path_char_iff (String.◌∷◌ c s) = ground (arith, path_char_iff s)

pub pin_path-ok_iff :
    (field_name value : String) → (pin_path field_name value ≡ ok tt) ↔ IsPinPath value
unfolding pin_path
pin_path-ok_iff field_name value =
    ground (arith, segments_iff (split b'/' value), path_char_iff value)

abbrev IsHexDigit : ℕ → Type 0
IsHexDigit c = ((b'0' ≤ c) × (c ≤ b'9')) ⊎ ((b'a' ≤ c) × (c ≤ b'f'))

abbrev pub IsSha256 : String → Type 0
IsSha256 value = (len value ≡ 64) × AllChars IsHexDigit value

hex_iff : (c : ℕ) → (is_hex_char c ≡ true) ↔ IsHexDigit c
unfolding is_ascii_digit
hex_iff c = ground arith

pub sha256_hex-ok_iff :
    (field_name value : String) → (sha256_hex field_name value ≡ ok tt) ↔ IsSha256 value
unfolding sha256_hex
sha256_hex-ok_iff field_name value =
    ground (arith, all_chars_iff is_hex_char IsHexDigit value hex_iff)

abbrev pub IsVersion : External → String → Type 0
IsVersion env value =
    IsBetween max_version_bytes value × ((v : env.Version) × (env.parse_version value ≡ some v))

pub exact_version-ok_iff :
    (env : External) (field_name value : String)
    → (exact_version env field_name value ≡ ok tt) ↔ IsVersion env value
unfolding exact_version
exact_version-ok_iff env field_name value = elim (Option-cases (env.parse_version value)) [
  | inl absent ↦ ground arith
  | inr (v, present) ↦ (λ h. (ground arith, (v, present)), λ h. ground arith)
]

abbrev IsTagChar : ℕ → Type 0
IsTagChar c = IsAlphanumeric c ⊎ (c ≡ b'-') ⊎ (c ≡ b'.') ⊎ (c ≡ b'+') ⊎ (c ≡ b'_')

abbrev pub IsTag : String → Type 0
IsTag value = IsBetween max_version_bytes value × AllChars IsTagChar value

IsTagChar-iff : (c : ℕ) → (is_tag_char c ≡ true) ↔ IsTagChar c
unfolding is_ascii_alphanumeric is_ascii_lowercase is_ascii_digit
IsTagChar-iff c = ground arith

pub version_or_tag-ok_iff :
    (field_name value : String) → (version_or_tag field_name value ≡ ok tt) ↔ IsTag value
unfolding version_or_tag
version_or_tag-ok_iff field_name value =
    ground (arith, all_chars_iff is_tag_char IsTagChar value IsTagChar-iff)

abbrev pub dash : Char
dash = char b'-' tt

abbrev IsAlgorithmChar : ℕ → Type 0
IsAlgorithmChar c = ((b'a' ≤ c) × (c ≤ b'z')) ⊎ ((b'0' ≤ c) × (c ≤ b'9'))

abbrev IsDigestChar : ℕ → Type 0
IsDigestChar c = IsAlphanumeric c ⊎ (c ≡ b'+') ⊎ (c ≡ b'/') ⊎ (c ≡ b'=')

abbrev AreParts : String → String → Type 0
AreParts algorithm digest =
    (is_blank algorithm ≡ false)
    × AllChars IsAlgorithmChar algorithm
    × (is_blank digest ≡ false)
    × AllChars IsDigestChar digest

-- `<algorithm>-<base64>`.
abbrev pub IsIntegrity : String → Type 0
IsIntegrity value =
    IsBetween max_integrity_bytes value
    × ((algorithm digest : String) × (value ≡ String.◌++◌ algorithm (String.◌∷◌ dash digest))
        × AreParts algorithm digest)

algorithm_iff : (c : ℕ) → (is_algorithm_char c ≡ true) ↔ IsAlgorithmChar c
unfolding is_ascii_lowercase is_ascii_digit
algorithm_iff c = ground arith

digest_iff : (c : ℕ) → (is_digest_char c ≡ true) ↔ IsDigestChar c
unfolding is_ascii_alphanumeric is_ascii_lowercase is_ascii_digit
digest_iff c = ground arith

no_dash : (s : String) → AllChars IsAlgorithmChar s → AllChars (λ c. c ≢ b'-') s
no_dash String.[] h = tt
no_dash (String.◌∷◌ c s) h = (ground (arith, h.0), no_dash s h.1)

parts_iff :
    (field_name algorithm digest : String)
    → (integrity_parts field_name (some (algorithm, digest)) ≡ ok tt) ↔ AreParts algorithm digest
parts_iff field_name algorithm digest = ground (
  arith,
  all_chars_iff is_algorithm_char IsAlgorithmChar algorithm algorithm_iff,
  all_chars_iff is_digest_char IsDigestChar digest digest_iff,
)

integrity_parts_iff :
    (field_name s : String)
    → (integrity_parts field_name (split_once b'-' s) ≡ ok tt) ↔ (
        (algorithm digest : String) × (s ≡ String.◌++◌ algorithm (String.◌∷◌ dash digest))
        × AreParts algorithm digest)
integrity_parts_iff field_name s = (
  λ h. elim (Option-cases (split_once b'-' s)) [
    | inl absent ↦ ground arith
    | inr ((algorithm, digest), present) ↦
        let parts =
          (parts_iff field_name algorithm digest).0
            (subst (λ o. integrity_parts field_name o ≡ ok tt) present h) in
        (algorithm, digest, split_once_sound dash s algorithm digest present, parts)
  ],
  λ (algorithm, digest, e, parts).
      rw (e, split_once-append dash algorithm digest (no_dash algorithm parts.1))
        ((parts_iff field_name algorithm digest).1 parts),
)

pub check_integrity-ok_iff :
    (field_name value : String) → (check_integrity field_name value ≡ ok tt) ↔ IsIntegrity value
unfolding check_integrity
check_integrity-ok_iff field_name value = ground (arith, integrity_parts_iff field_name value)
