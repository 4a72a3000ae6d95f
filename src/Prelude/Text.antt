-- ===== src/Prelude/Text.antt =====
-- The functions on `str` that the source takes from Rust's standard library, over the native
-- texts. `len` is the length in bytes, `code` a character's code point.
use Prim.Native.Nat.{ℕ, zero, suc, ◌+◌, ◌/◌, ◌%◌, Ordering}
use Prim.Native.Char.{Char, code}
use Prim.Native.String
use Prim.Native.String.{String}
use mathlib.Core.Bool.{Bool, true, false, ◌&&◌, ◌||◌}
use mathlib.Core.Option.{Option, none, some}
use mathlib.Core.List.{List, [], ◌∷◌}
use npmfilter.Prelude.Tests.{ltb, leb, nat_eq, if◌then◌else◌}

-- `format!`: the pieces joined.
unfoldable pub format : List String → String
format [] = ""
format (s ∷ rest) = String.◌++◌ s (format rest)

-- `[String]::join`.
unfoldable pub join : String → List String → String
unfolding format
join sep [] = ""
join sep (s ∷ []) = s
join sep (s ∷ t ∷ rest) = format (s ∷ sep ∷ join sep (t ∷ rest) ∷ [])

-- `str::is_empty`.
abbrev pub is_blank : String → Bool
is_blank String.[] = true
is_blank (String.◌∷◌ c s) = false

-- `str::chars().all`, `str::chars().any`, by code point.
unfoldable pub all_chars : (ℕ → Bool) → String → Bool
all_chars p String.[] = true
all_chars p (String.◌∷◌ c s) = p (code c) && all_chars p s

unfoldable pub any_char : (ℕ → Bool) → String → Bool
any_char p String.[] = false
any_char p (String.◌∷◌ c s) = p (code c) || any_char p s

-- `str::starts_with` on a set of characters.
unfoldable pub starts_with_char : (ℕ → Bool) → String → Bool
starts_with_char p String.[] = false
starts_with_char p (String.◌∷◌ c s) = p (code c)

-- `str::strip_prefix` by one character.
unfoldable pub strip_prefix : ℕ → String → Option String
strip_prefix k String.[] = none
strip_prefix k (String.◌∷◌ c s) = if nat_eq (code c) k then some s else none

-- `str::strip_prefix` by a text; `str::starts_with` is that there is a rest.
unfoldable pub strip_prefix_text : String → String → Option String
strip_prefix_text String.[] s = some s
strip_prefix_text (String.◌∷◌ c p) String.[] = none
strip_prefix_text (String.◌∷◌ c p) (String.◌∷◌ d s) =
    if nat_eq (code c) (code d) then strip_prefix_text p s else none

-- `str::trim_start_matches` by one character.
unfoldable pub trim_start : ℕ → String → String
trim_start k String.[] = String.[]
trim_start k (String.◌∷◌ c s) = if nat_eq (code c) k then trim_start k s else String.◌∷◌ c s

abbrev pub put_first : Char → Option (String × String) → Option (String × String)
put_first c none = none
put_first c (some (a, b)) = some (String.◌∷◌ c a, b)

-- `str::split_once` at one character: the text before its first place, and after it.
unfoldable pub split_once : ℕ → String → Option (String × String)
split_once k String.[] = none
split_once k (String.◌∷◌ c s) =
    if nat_eq (code c) k then some (String.[], s) else put_first c (split_once k s)

-- `str::split_once` at a text.
unfoldable pub split_once_text : String → String → Option (String × String)
split_once_text sep String.[] = elim (strip_prefix_text sep String.[]) [
  | some rest ↦ some (String.[], rest)
  | none ↦ none
]
split_once_text sep (String.◌∷◌ c s) =
    let later = put_first c (split_once_text sep s) in
    elim (strip_prefix_text sep (String.◌∷◌ c s)) [
      | some rest ↦ some (String.[], rest)
      | none ↦ later
    ]

-- `str::rsplit_once` at one character.
unfoldable pub rsplit_once : ℕ → String → Option (String × String)
rsplit_once k String.[] = none
rsplit_once k (String.◌∷◌ c s) = elim (rsplit_once k s) [
  | some (a, b) ↦ some (String.◌∷◌ c a, b)
  | none ↦ if nat_eq (code c) k then some (String.[], s) else none
]

-- The first piece of `str::split` at a set of characters.
unfoldable pub first_piece : (ℕ → Bool) → String → String
first_piece p String.[] = String.[]
first_piece p (String.◌∷◌ c s) =
    let rest = first_piece p s in if p (code c) then String.[] else String.◌∷◌ c rest

-- `chars().take(limit)`, and a map on the characters.
unfoldable pub take_chars : ℕ → String → String
take_chars zero s = String.[]
take_chars (suc n) String.[] = String.[]
take_chars (suc n) (String.◌∷◌ c s) = String.◌∷◌ c (take_chars n s)

unfoldable pub map_chars : (Char → Char) → String → String
map_chars f String.[] = String.[]
map_chars f (String.◌∷◌ c s) = String.◌∷◌ (f c) (map_chars f s)

-- `char::to_ascii_lowercase`, by code point, and `str::eq_ignore_ascii_case`.
unfoldable pub to_ascii_lowercase : ℕ → ℕ
to_ascii_lowercase c = if leb b'A' c && leb c b'Z' then c + 32 else c

unfoldable pub eq_ignore_ascii_case : String → String → Bool
unfolding to_ascii_lowercase
eq_ignore_ascii_case String.[] String.[] = true
eq_ignore_ascii_case String.[] (String.◌∷◌ d t) = false
eq_ignore_ascii_case (String.◌∷◌ c s) String.[] = false
eq_ignore_ascii_case (String.◌∷◌ c s) (String.◌∷◌ d t) =
    nat_eq (to_ascii_lowercase (code c)) (to_ascii_lowercase (code d)) && eq_ignore_ascii_case s t

abbrev into_head : Char → List String → List String
into_head c [] = String.◌∷◌ c String.[] ∷ []
into_head c (s ∷ rest) = String.◌∷◌ c s ∷ rest

-- `str::split` at one character.
unfoldable pub split : ℕ → String → List String
split k String.[] = String.[] ∷ []
split k (String.◌∷◌ c s) =
    let rest = split k s in if nat_eq (code c) k then String.[] ∷ rest else into_head c rest

-- `char::is_control`: the category Cc.
unfoldable pub is_control : ℕ → Bool
is_control c = ltb c 32 || leb 127 c && leb c 159

unfoldable pub is_ascii_lowercase : ℕ → Bool
is_ascii_lowercase c = leb b'a' c && leb c b'z'

unfoldable pub is_ascii_digit : ℕ → Bool
is_ascii_digit c = leb b'0' c && leb c b'9'

unfoldable pub is_ascii_alphanumeric : ℕ → Bool
unfolding is_ascii_lowercase is_ascii_digit
is_ascii_alphanumeric c = is_ascii_lowercase c || leb b'A' c && leb c b'Z' || is_ascii_digit c

-- `Ord for str` is by bytes, which for UTF-8 is by code points.
abbrev pub str_compare : String → String → Ordering
str_compare = Prim.Native.String.compare

-- One digit, in the lower-case and the upper-case alphabet.
unfoldable pub pick : List String → ℕ → String
pick [] i = ""
pick (d ∷ ds) zero = d
pick (d ∷ ds) (suc i) = pick ds i

abbrev lower_letters : List String
lower_letters = "a" ∷ "b" ∷ "c" ∷ "d" ∷ "e" ∷ "f" ∷ []

abbrev upper_letters : List String
upper_letters = "A" ∷ "B" ∷ "C" ∷ "D" ∷ "E" ∷ "F" ∷ []

abbrev decimal_digits : List String → List String
decimal_digits more = "0" ∷ "1" ∷ "2" ∷ "3" ∷ "4" ∷ "5" ∷ "6" ∷ "7" ∷ "8" ∷ "9" ∷ more

abbrev pub lower_digits : List String
lower_digits = decimal_digits lower_letters

abbrev pub upper_digits : List String
upper_digits = decimal_digits upper_letters

-- `{n}` for an unsigned number; the fuel is one more than the number, and each round divides by 10.
decimal_from : ℕ → ℕ → String → String
decimal_from zero n out = out
decimal_from (suc fuel) n out =
    let out' = String.◌++◌ (pick lower_digits (n % 10)) out in
    let rest = decimal_from fuel (n / 10) out' in if ltb n 10 then out' else rest

unfoldable pub decimal : ℕ → String
unfolding decimal_from pick
decimal n = decimal_from (n + 1) n ""
