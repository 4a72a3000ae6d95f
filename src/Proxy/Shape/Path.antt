-- ===== src/Proxy/Shape/Path.antt =====
-- `encode_package_path` of src/proxy/shape.rs. The loop over the bytes of the name is a loop over its
-- characters with a loop over the bytes of each: the bytes that are left as they are are characters
-- of one byte.
pub mod Decoded
use npmfilter.Prelude.{
  ℕ, ◌/◌, ◌%◌, String, Bool, ◌&&◌, ◌||◌, List, [], ◌∷◌, leb, nat_eq, if◌then◌else◌,
}
use Prim.Native.Char.{Char, code}
use Prim.Native.String
use npmfilter.Prelude.Text.{pick, upper_digits}
use npmfilter.Prelude.Bytes.{char_bytes}

-- `DIGITS[usize::from(nibble & 0x0f)]`.
unfoldable pub hex_digit : ℕ → String
unfolding pick
hex_digit nibble = pick upper_digits (nibble % 16)

-- `is_ascii_alphanumeric`, or one of the five signs.
unfoldable pub is_unreserved : ℕ → Bool
is_unreserved byte =
    (leb b'0' byte && leb byte b'9')
    || (leb b'A' byte && leb byte b'Z')
    || (leb b'a' byte && leb byte b'z')
    || nat_eq byte b'-'
    || nat_eq byte b'.'
    || nat_eq byte b'_'
    || nat_eq byte b'~'
    || nat_eq byte b'@'

unfoldable pub escape_bytes : List ℕ → String
escape_bytes [] = String.[]
escape_bytes (byte ∷ bytes) =
    String.◌++◌ "%" (
      String.◌++◌ (hex_digit (byte / 16))
        (String.◌++◌ (hex_digit (byte % 16)) (escape_bytes bytes)))

unfoldable pub encode_char : Char → String
encode_char c =
    if is_unreserved (code c) then String.◌∷◌ c String.[] else escape_bytes (char_bytes (code c))

unfoldable pub encode_package_path : String → String
encode_package_path String.[] = String.[]
encode_package_path (String.◌∷◌ c name) = String.◌++◌ (encode_char c) (encode_package_path name)
