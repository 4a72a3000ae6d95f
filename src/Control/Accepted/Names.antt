-- ===== src/Control/Accepted/Names.antt =====
-- The package names that `package_name` of src/control/protocol.rs accepts.
use Prim.Native.Char.{Char, char, code}
use Prim.Native.String
use Prim.Native.String.{String, len}
use text.Mathlib.TextEquality.{Char-path}
use text.Mathlib.TextLemmas.{nil-append, cons-append}
use mathlib.Core.Bool.{false≢true}
use npmfilter.Prelude.{
  ℕ, true, false, some, ◌≡◌, ◌≢◌, ◌↔◌, ◌⊎◌, refl, ap, nat_eq, arith, inl, inr, Option-cases,
  Bool-cases,
}
use npmfilter.Prelude.Text.{strip_prefix, split_once}
use npmfilter.Prelude.Result.{ok}
use npmfilter.Control.Protocol.{max_name_bytes}
use npmfilter.Control.Validate.{package_name, scoped_name, is_name_part}
use npmfilter.Control.Accepted.{AllChars, IsBetween, IsNameChar, IsNamePart, IsNamePart-iff}

abbrev pub at_sign : Char
at_sign = char b'@' tt

abbrev pub slash : Char
slash = char b'/' tt

-- `@scope/name`.
abbrev pub scoped : String → String → String
scoped scope name = String.◌∷◌ at_sign (String.◌++◌ scope (String.◌∷◌ slash name))

-- A name part, or two as `@scope/name`, of at most 214 bytes.
abbrev pub IsPackageName : String → Type 0
IsPackageName value =
    IsBetween max_name_bytes value
    × (IsNamePart value
        ⊎ ((scope name : String) × (value ≡ scoped scope name)
            × IsNamePart scope
            × IsNamePart name))

nat_eq_refl : (n : ℕ) → nat_eq n n ≡ true
nat_eq_refl n = ground arith

pub split_once_sound :
    (c : Char) (s a b : String)
    → split_once (code c) s ≡ some (a, b)
    → s ≡ String.◌++◌ a (String.◌∷◌ c b)
unfolding split_once
split_once_sound c String.[] a b h = ground arith
split_once_sound c (String.◌∷◌ d s) a b h = elim (Bool-cases (nat_eq (code d) (code c))) [
  | inl e ↦
      let here : (a ≡ "") × (b ≡ s) = ground arith in
      rw (Char-path d c (ground arith), here.0, here.1, nil-append (String.◌∷◌ c s)) refl
  | inr e ↦ elim (Option-cases (split_once (code c) s)) [
    | inl absent ↦ absurd (false≢true (ground arith))
    | inr ((a', b'), present) ↦
        let later : (a ≡ String.◌∷◌ d a') × (b ≡ b') = ground arith in
        rw (later.0, later.1, cons-append d a' (String.◌∷◌ c b'))
          (ap (String.◌∷◌ d) (split_once_sound c s a' b' present))
  ]
]

pub split_once-append :
    (c : Char) (a b : String)
    → AllChars (λ d. d ≢ code c) a
    → split_once (code c) (String.◌++◌ a (String.◌∷◌ c b)) ≡ some (a, b)
unfolding split_once
split_once-append c String.[] b h = rw (nil-append (String.◌∷◌ c b), nat_eq_refl (code c)) refl
split_once-append c (String.◌∷◌ d a) b h =
    let ne : nat_eq (code d) (code c) ≡ false = ground (arith, h.0) in
    rw (cons-append d a (String.◌∷◌ c b), ne, split_once-append c a b h.1) refl

no_slash : (s : String) → AllChars IsNameChar s → AllChars (λ d. d ≢ b'/') s
no_slash String.[] h = tt
no_slash (String.◌∷◌ c s) h = (ground (arith, h.0), no_slash s h.1)

name_chars : (s : String) → IsNamePart s → AllChars IsNameChar s
name_chars String.[] h = tt
name_chars (String.◌∷◌ c s) h = h.3

scoped_name_iff :
    (field_name s : String)
    → (scoped_name field_name (split_once b'/' s) ≡ ok tt) ↔ (
        (scope name : String) × (s ≡ String.◌++◌ scope (String.◌∷◌ slash name))
        × IsNamePart scope
        × IsNamePart name)
scoped_name_iff field_name s = (
  λ h. elim (Option-cases (split_once b'/' s)) [
    | inl absent ↦ ground arith
    | inr ((scope, name), present) ↦ (
      scope,
      name,
      split_once_sound slash s scope name present,
      ground (arith, IsNamePart-iff scope, IsNamePart-iff name),
      ground (arith, IsNamePart-iff scope, IsNamePart-iff name),
    )
  ],
  λ (scope, name, e, p, q).
      let found = split_once-append slash scope name (no_slash scope (name_chars scope p)) in
      rw (e, found) (ground (arith, IsNamePart-iff scope, IsNamePart-iff name)),
)

-- The first character of a text.
first_code : String → ℕ
first_code String.[] = 0
first_code (String.◌∷◌ c s) = code c

rest_of : String → String
rest_of String.[] = String.[]
rest_of (String.◌∷◌ c s) = s

abbrev IsName : String → Type 0
IsName value =
    IsNamePart value
    ⊎ ((scope name : String) × (value ≡ scoped scope name) × IsNamePart scope × IsNamePart name)

bare-IsName_at :
    (field_name s : String)
    → (scoped_name field_name (split_once b'/' s) ≡ ok tt) ↔ IsName (String.◌∷◌ at_sign s)
unfolding rest_of
bare-IsName_at field_name s = (
  λ h.
      let (scope, name, e, p, q) = (scoped_name_iff field_name s).0 h in
      inr (scope, name, ap (String.◌∷◌ at_sign) e, p, q),
  λ h. elim h [
    | inl part ↦ absurd (false≢true (ground arith))
    | inr (scope, name, e, p, q) ↦
        (scoped_name_iff field_name s).1 (scope, name, ap rest_of e, p, q)
  ],
)

bare-IsName_ne :
    (field_name : String) (c : Char) (s : String)
    → nat_eq (code c) b'@' ≡ false
    → (is_name_part (String.◌∷◌ c s) ≡ true) ↔ IsName (String.◌∷◌ c s)
unfolding first_code
bare-IsName_ne field_name c s ne = (
  λ h. inl ((IsNamePart-iff (String.◌∷◌ c s)).0 h),
  λ h. elim h [
    | inl part ↦ (IsNamePart-iff (String.◌∷◌ c s)).1 part
    | inr (scope, name, e, p, q) ↦
        let at : code c ≡ b'@' = ap first_code e in absurd (false≢true (ground arith))
  ],
)

-- A package name is accepted exactly if it is a name, or a scope and a name as `@scope/name`, of at most
-- 214 bytes: each of them not empty, of letters, digits and `-._~`, and not beginning with `.`, `_` or `-`.
pub package_name-ok_iff :
    (field_name value : String) → (package_name field_name value ≡ ok tt) ↔ IsPackageName value
unfolding package_name strip_prefix
package_name-ok_iff field_name String.[] = ground arith
package_name-ok_iff field_name (String.◌∷◌ c s) = elim (Bool-cases (nat_eq (code c) b'@')) [
  | inl e ↦ rw (Char-path c at_sign (ground arith)) (ground (arith, bare-IsName_at field_name s))
  | inr e ↦ ground (arith, bare-IsName_ne field_name c s e)
]
