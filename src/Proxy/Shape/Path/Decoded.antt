-- ===== src/Proxy/Shape/Path/Decoded.antt =====
-- `percent_decode` of src/proxy/mod.rs after `encode_package_path` of src/proxy/shape.rs.
use npmfilter.Prelude.{
  ℕ, zero, suc, ◌+◌, ◌*◌, ◌/◌, ◌%◌, ◌<◌, String, true, some, List, [], ◌∷◌, ◌++◌, length, subst,
  ltb, ◌≡◌, ◌≢◌, refl, ap, sym, ◌⊎◌, ◌∙◌, arith, Bool-cases, inl, inr,
}
use Prim.Native.Char.{Char, code, char, IsLt}
use Prim.Native.Nat.{compare, Ordering}
use native.Mathlib.Omega.{compare-lt}
use mathlib.Core.List.{append_assoc}
use Prim.Native.String
use text.Mathlib.TextLemmas.{nil-append, cons-append}
use npmfilter.Prelude.Text.{pick, upper_digits}
use npmfilter.Prelude.Bytes.{char_bytes, as_bytes}
use npmfilter.Proxy.Route.{decode_bytes, escape, two_digits, hex_value}
use npmfilter.Proxy.Shape.Path.{
  hex_digit, is_unreserved, escape_bytes, encode_char, encode_package_path,
}

as_bytes_append : (s t : String) → as_bytes (String.◌++◌ s t) ≡ as_bytes s ++ as_bytes t
unfolding as_bytes
as_bytes_append String.[] t = ap as_bytes (nil-append t)
as_bytes_append (String.◌∷◌ c s) t =
    ap as_bytes (cons-append c s t)
    ∙ ap (λ bytes. char_bytes (code c) ++ bytes) (as_bytes_append s t)
    ∙ sym (append_assoc (char_bytes (code c)) (as_bytes s) (as_bytes t))

decode_plain : (a : ℕ) (bytes : List ℕ) → a ≢ 37 → decode_bytes (a ∷ bytes) ≡ a ∷ decode_bytes bytes
unfolding decode_bytes escape
decode_plain a [] plain = refl
decode_plain a (b ∷ []) plain = refl
decode_plain a (b ∷ c ∷ bytes) plain = ground arith

-- A text is one digit, which is read as `n`.
abbrev IsDigit : ℕ → String → Type 0
IsDigit n s = (d : ℕ) × (as_bytes s ≡ d ∷ []) × (hex_value d ≡ some n)

abbrev AreDigits : ℕ → List String → Type 0
AreDigits n [] = Unit
AreDigits n (s ∷ digits) = IsDigit n s × AreDigits (suc n) digits

pick-IsDigit :
    (digits : List String) (n i : ℕ)
    → i < length digits
    → AreDigits n digits
    → IsDigit (n + i) (pick digits i)
unfolding pick
pick-IsDigit [] n i h k = let impossible : ⊥ = omega arith in elim impossible [ ]
pick-IsDigit (s ∷ digits) n zero h k =
    let e : n ≡ n + 0 = omega arith in subst (λ m. IsDigit m s) e k.0
pick-IsDigit (s ∷ digits) n (suc i) h k =
    let e : suc n + i ≡ n + suc i = omega arith in
    subst (λ m. IsDigit m (pick digits i)) e (pick-IsDigit digits (suc n) i (omega arith) k.1)

upper_digits-AreDigits : AreDigits 0 upper_digits
unfolding as_bytes char_bytes hex_value
upper_digits-AreDigits = (
  (_, refl, refl),
  (
    (_, refl, refl),
    (
      (_, refl, refl),
      (
        (_, refl, refl),
        (
          (_, refl, refl),
          (
            (_, refl, refl),
            (
              (_, refl, refl),
              (
                (_, refl, refl),
                (
                  (_, refl, refl),
                  (
                    (_, refl, refl),
                    (
                      (_, refl, refl),
                      (
                        (_, refl, refl),
                        (
                          (_, refl, refl),
                          ((_, refl, refl), ((_, refl, refl), ((_, refl, refl), tt))),
                        ),
                      ),
                    ),
                  ),
                ),
              ),
            ),
          ),
        ),
      ),
    ),
  ),
)

hex_digit-IsDigit : (n : ℕ) → n < 16 → IsDigit n (hex_digit n)
unfolding hex_digit
hex_digit-IsDigit n h =
    let small : n % 16 ≡ n = omega arith in
    rw small (
      let e : 0 + n ≡ n = omega arith in
      subst (λ m. IsDigit m (pick upper_digits n)) e
        (pick-IsDigit upper_digits 0 n (omega arith) upper_digits-AreDigits))

abbrev AreBytes : List ℕ → Type 0
AreBytes [] = Unit
AreBytes (byte ∷ bytes) = (byte < 256) × AreBytes bytes

char_bytes-AreBytes : (n : ℕ) → n < 1114112 → AreBytes (char_bytes n)
unfolding char_bytes
char_bytes-AreBytes n h = elim (Bool-cases (ltb n 128)) [
  | inl e ↦ rw e (ground arith, tt)
  | inr e ↦ elim (Bool-cases (ltb n 2048)) [
    | inl e' ↦ rw (e, e') (ground arith, (ground arith, tt))
    | inr e' ↦ elim (Bool-cases (ltb n 65536)) [
      | inl e'' ↦ rw (e, e', e'') (ground arith, (ground arith, (ground arith, tt)))
      | inr e'' ↦ rw (e, e', e'') (ground arith, (ground arith, (ground arith, (ground arith, tt))))
    ]
  ]
]

-- `IsScalar` by its three comparisons.
abbrev BothLess : Ordering → Ordering → Type 0
BothLess Ordering.lt o = IsLt o
BothLess Ordering.eq _ = ⊥
BothLess Ordering.gt _ = ⊥

abbrev FirstLessOrBoth : Ordering → Ordering → Ordering → Type 0
FirstLessOrBoth Ordering.lt _ _ = Unit
FirstLessOrBoth Ordering.eq o p = BothLess o p
FirstLessOrBoth Ordering.gt o p = BothLess o p

below_limit : (o p q : Ordering) → FirstLessOrBoth o p q → (o ≡ Ordering.lt) ⊎ (q ≡ Ordering.lt)
below_limit Ordering.lt p q h = inl refl
below_limit Ordering.eq Ordering.lt Ordering.lt h = inr refl
below_limit Ordering.gt Ordering.lt Ordering.lt h = inr refl
below_limit Ordering.eq Ordering.lt Ordering.eq h = elim h [ ]
below_limit Ordering.eq Ordering.lt Ordering.gt h = elim h [ ]
below_limit Ordering.eq Ordering.eq q h = elim h [ ]
below_limit Ordering.eq Ordering.gt q h = elim h [ ]
below_limit Ordering.gt Ordering.lt Ordering.eq h = elim h [ ]
below_limit Ordering.gt Ordering.lt Ordering.gt h = elim h [ ]
below_limit Ordering.gt Ordering.eq q h = elim h [ ]
below_limit Ordering.gt Ordering.gt q h = elim h [ ]

code-lt : (c : Char) → code c < 1114112
code-lt (char n p) = elim (below_limit (compare n 55296) (compare 57343 n) (compare n 1114112) p) [
  | inl e ↦ omega (arith, compare-lt n 55296 e)
  | inr e ↦ compare-lt n 1114112 e
]

escape-digits :
    (high low byte : ℕ)
    → hex_value high ≡ some (byte / 16)
    → hex_value low ≡ some (byte % 16)
    → escape 37 high low ≡ some byte
unfolding escape
escape-digits high low byte v v' =
    let whole : byte / 16 * 16 + byte % 16 ≡ byte = omega arith in
    ap (λ x. two_digits x (hex_value low)) v ∙ ap (two_digits (some (byte / 16))) v' ∙ ap some whole

decode_escape :
    (high low byte : ℕ) (rest : List ℕ)
    → escape 37 high low ≡ some byte
    → decode_bytes (37 ∷ high ∷ low ∷ rest) ≡ byte ∷ decode_bytes rest
unfolding decode_bytes
decode_escape high low byte rest e = ground (arith, e)

char_bytes_ascii : (n : ℕ) → n < 128 → char_bytes n ≡ n ∷ []
unfolding char_bytes
char_bytes_ascii n h = ground arith

-- Escaped bytes are decoded, and what follows them is decoded on its own.
decode-escape_bytes :
    (bytes more : List ℕ)
    → AreBytes bytes
    → decode_bytes (as_bytes (escape_bytes bytes) ++ more) ≡ bytes ++ decode_bytes more
unfolding as_bytes escape_bytes char_bytes
decode-escape_bytes [] more h = refl
decode-escape_bytes (byte ∷ bytes) more (small, h) =
    let (high, e, v) = hex_digit-IsDigit (byte / 16) (omega arith) in
    let (low, e', v') = hex_digit-IsDigit (byte % 16) (omega arith) in
    let rest = as_bytes (escape_bytes bytes) in
    let last = String.◌++◌ (hex_digit (byte % 16)) (escape_bytes bytes) in
    let digits = String.◌++◌ (hex_digit (byte / 16)) last in
    let last_bytes : as_bytes last ≡ low ∷ rest =
      as_bytes_append (hex_digit (byte % 16)) (escape_bytes bytes) ∙ ap (λ t. t ++ rest) e' in
    let digits_bytes : as_bytes digits ≡ high ∷ low ∷ rest =
      as_bytes_append (hex_digit (byte / 16)) last
      ∙ ap (λ t. t ++ as_bytes last) e
      ∙ ap (λ t. high ∷ t) last_bytes in
    let written : as_bytes (escape_bytes (byte ∷ bytes)) ≡ 37 ∷ high ∷ low ∷ rest =
      as_bytes_append "%" digits ∙ ap (λ t. 37 ∷ t) digits_bytes in
    ap (λ t. decode_bytes (t ++ more)) written
    ∙ decode_escape high low byte (rest ++ more) (escape-digits high low byte v v')
    ∙ ap (λ t. byte ∷ t) (decode-escape_bytes bytes more h)

is_unreserved-lt : (n : ℕ) → is_unreserved n ≡ true → (n < 128) × (n ≢ 37)
unfolding is_unreserved
is_unreserved-lt n e = ground arith

decode-encode_char :
    (c : Char) (more : List ℕ)
    → decode_bytes (as_bytes (encode_char c) ++ more) ≡ char_bytes (code c) ++ decode_bytes more
unfolding encode_char as_bytes
decode-encode_char c more = elim (Bool-cases (is_unreserved (code c))) [
  | inl e ↦
      let (small, plain) = is_unreserved-lt (code c) e in
      rw (e, char_bytes_ascii (code c) small) (decode_plain (code c) more plain)
  | inr e ↦
      rw e
        (decode-escape_bytes (char_bytes (code c)) more (char_bytes-AreBytes (code c) (code-lt c)))
]

-- The path segment that a package name is encoded as is decoded, byte by byte, as that name, for every
-- name.
pub decode_bytes-encode_package_path :
    (name : String) → decode_bytes (as_bytes (encode_package_path name)) ≡ as_bytes name
unfolding encode_package_path as_bytes decode_bytes
decode_bytes-encode_package_path String.[] = refl
decode_bytes-encode_package_path (String.◌∷◌ c name) =
    ap decode_bytes (as_bytes_append (encode_char c) (encode_package_path name))
    ∙ decode-encode_char c (as_bytes (encode_package_path name))
    ∙ ap (λ bytes. char_bytes (code c) ++ bytes) (decode_bytes-encode_package_path name)
