-- ===== src/Control/Accepted.antt =====
-- What the validators of src/control/protocol.rs accept, in terms of characters and lengths.
pub mod Names
pub mod Fields
pub mod Requests
use Prim.Native.Char.{Char, code}
use Prim.Native.String
use Prim.Native.String.{String, len}
use npmfilter.Prelude.{
  ℕ, ◌≤◌, Bool, true, false, not, ◌&&◌, ◌||◌, Option, none, some, List, ◌≡◌, ◌≢◌, ◌↔◌, ◌⊎◌, refl,
  any, is_none, ltb, leb, nat_eq, if◌then◌else◌, ◌==◌, eq_iff, arith, inl, inr, Option-cases,
  is_some,
}
use npmfilter.Prelude.Text.{
  is_blank, all_chars, any_char, starts_with_char, strip_prefix, split_once, split, is_control,
  is_ascii_alphanumeric, is_ascii_lowercase, is_ascii_digit,
}
use npmfilter.Prelude.Result.{Result, ok, err}
use npmfilter.External.{External}
use npmfilter.Control.Protocol.{
  max_name_bytes, max_version_bytes, max_integrity_bytes, ValidationError, empty, too_long,
  bad_pin_path, bad_sha256, bad_package_name, bad_version, control_character, bad_integrity,
}
use npmfilter.Control.Validate.{
  Checked, bounded, check_text, optional_text, pin_path, sha256_hex, package_name, exact_version,
  version_or_tag, check_integrity, is_name_part, is_name_char, starts_badly, is_hex_char,
  is_tag_char,
}

-- Every character has the property.
abbrev pub AllChars : (ℕ → Type 0) → String → Type 0
AllChars P String.[] = Unit
AllChars P (String.◌∷◌ c s) = P (code c) × AllChars P s

pub all_chars_iff :
    (p : ℕ → Bool) (P : ℕ → Type 0) (s : String)
    → ((c : ℕ) → (p c ≡ true) ↔ P c)
    → (all_chars p s ≡ true) ↔ AllChars P s
unfolding all_chars
all_chars_iff p P String.[] h = (λ e. tt, λ e. refl)
all_chars_iff p P (String.◌∷◌ c s) h = ground (arith, h (code c), all_chars_iff p P s h)

pub any_char_iff :
    (p : ℕ → Bool) (P : ℕ → Type 0) (s : String)
    → ((c : ℕ) → (p c ≡ false) ↔ P c)
    → (any_char p s ≡ false) ↔ AllChars P s
unfolding any_char
any_char_iff p P String.[] h = (λ e. tt, λ e. refl)
any_char_iff p P (String.◌∷◌ c s) h = ground (arith, h (code c), any_char_iff p P s h)

-- Not empty, and at most `limit` bytes.
abbrev pub IsBetween : ℕ → String → Type 0
IsBetween limit s = (is_blank s ≡ false) × (len s ≤ limit)

-- A letter or a digit of ASCII.
abbrev pub IsAlphanumeric : ℕ → Type 0
IsAlphanumeric c = ((b'a' ≤ c) × (c ≤ b'z')) ⊎ ((b'A' ≤ c) × (c ≤ b'Z')) ⊎ ((b'0' ≤ c) × (c ≤ b'9'))

-- One of `-._~`, or a letter or a digit.
abbrev pub IsNameChar : ℕ → Type 0
IsNameChar c = IsAlphanumeric c ⊎ (c ≡ b'-') ⊎ (c ≡ b'.') ⊎ (c ≡ b'_') ⊎ (c ≡ b'~')

-- A scope or a name: at least one such character, and none of `.`, `_` and `-` the first.
abbrev pub IsNamePart : String → Type 0
IsNamePart String.[] = ⊥
IsNamePart (String.◌∷◌ c s) =
    (code c ≢ b'.') × (code c ≢ b'_') × (code c ≢ b'-') × AllChars IsNameChar (String.◌∷◌ c s)

IsNameChar-iff : (c : ℕ) → (is_name_char c ≡ true) ↔ IsNameChar c
unfolding is_ascii_alphanumeric is_ascii_lowercase is_ascii_digit
IsNameChar-iff c = ground arith

pub IsNamePart-iff : (s : String) → (is_name_part s ≡ true) ↔ IsNamePart s
unfolding is_name_part starts_with_char
IsNamePart-iff String.[] = ground arith
IsNamePart-iff (String.◌∷◌ c s) =
    ground (arith, all_chars_iff is_name_char IsNameChar (String.◌∷◌ c s) IsNameChar-iff)
