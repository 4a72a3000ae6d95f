-- ===== src/Proxy/Route.antt =====
-- The routing of src/proxy/mod.rs: `classify` and what it calls.
use npmfilter.Prelude.{
  ℕ, ◌+◌, ◌-◌, ◌*◌, String, Bool, not, ◌&&◌, ◌||◌, Option, none, some, List, [], ◌∷◌, ◌==◌, any,
  keep, map, leb, nat_eq, if◌then◌else◌,
}
use npmfilter.Prelude.Text.{format, is_blank, any_char, starts_with_char, split}
use npmfilter.Prelude.Bytes.{as_bytes}
use npmfilter.External.{External}

pub data Route : Type 0 where
  packument dist_tags : (name : String) → Route
  version : (name spec : String) → Route
  passthrough invalid : Route

unfoldable pub hex_value : ℕ → Option ℕ
hex_value byte =
    if leb b'0' byte && leb byte b'9'
    then some (byte - b'0')
    else if leb b'a' byte && leb byte b'f'
    then some (byte - b'a' + 10)
    else if leb b'A' byte && leb byte b'F'
    then some (byte - b'A' + 10)
    else none

abbrev pub two_digits : Option ℕ → Option ℕ → Option ℕ
two_digits (some high) (some low) = some (high * 16 + low)
two_digits _ _ = none

-- The byte of an escape: a `%` and two digits.
unfoldable pub escape : ℕ → ℕ → ℕ → Option ℕ
unfolding hex_value
escape percent high low =
    if nat_eq percent b'%' then two_digits (hex_value high) (hex_value low) else none

-- The loop of `percent_decode`.
unfoldable pub decode_bytes : List ℕ → List ℕ
decode_bytes [] = []
decode_bytes (a ∷ []) = a ∷ []
decode_bytes (a ∷ b ∷ []) = a ∷ b ∷ []
decode_bytes (a ∷ b ∷ c ∷ bytes) =
    let after = decode_bytes bytes in
    let plain = a ∷ decode_bytes (b ∷ c ∷ bytes) in
    elim (escape a b c) [ some byte ↦ byte ∷ after | none ↦ plain ]

unfoldable pub percent_decode : External → String → String
unfolding any_char
percent_decode env segment =
    if not (any_char (nat_eq b'%') segment)
    then segment
    else env.from_utf8_lossy (decode_bytes (as_bytes segment))

unfoldable pub is_dot_segment : String → Bool
is_dot_segment segment = segment == "." || segment == ".."

abbrev is_reserved : ℕ → Bool
is_reserved c = nat_eq c b'.' || nat_eq c b'_'

unfoldable pub is_package_segment : String → Bool
unfolding starts_with_char
is_package_segment segment =
    not (is_blank segment) && not (segment == "-") && not (starts_with_char is_reserved segment)

abbrev with_scope : String → List String → Option (String × List String)
with_scope scope [] = none
with_scope scope (name ∷ rest) = some (format (scope ∷ "/" ∷ name ∷ []), rest)

unfoldable pub take_package : List String → Option (String × List String)
unfolding starts_with_char any_char format
take_package [] = none
take_package (first ∷ rest) =
    if not (is_package_segment first)
    then none
    else if starts_with_char (nat_eq b'@') first && not (any_char (nat_eq b'/') first)
    then with_scope first rest
    else some (first, rest)

-- `/-/package/{name}/dist-tags`.
unfoldable pub dist_tags_of : List String → Option String
dist_tags_of (dash ∷ word ∷ name ∷ tags ∷ []) =
    if dash == "-" && word == "package" && tags == "dist-tags" && is_package_segment name
    then some name
    else none
dist_tags_of _ = none

abbrev route_of : Option (String × List String) → Route
route_of none = passthrough
route_of (some (name, [])) = packument name
route_of (some (name, spec ∷ [])) = version name spec
route_of (some (name, spec ∷ more ∷ rest)) = passthrough

unfoldable pub classify_segments : List String → Route
classify_segments segments =
    if any is_dot_segment segments then invalid else elim (dist_tags_of segments) [
      | some name ↦ dist_tags name
      | none ↦ route_of (take_package segments)
    ]

unfoldable pub segments_of : External → String → List String
unfolding split
segments_of env path =
    map (percent_decode env) (keep (λ segment. not (is_blank segment)) (split b'/' path))

unfoldable pub classify : External → String → Route
classify env path = classify_segments (segments_of env path)
