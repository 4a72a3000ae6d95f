-- ===== src/Mcp/Blocks/Reasons.antt =====
-- Which reasons `split_reason` of src/mcp/blocks.rs reads back.
use Prim.Native.Char.{Char, char, code}
use Prim.Native.String
use Prim.Native.String.{String}
use text.Mathlib.TextLemmas.{nil-append, cons-append, append-nil}
use npmfilter.Prelude.{
  Bool, true, false, not, none, some, [], ◌∷◌, ◌≡◌, refl, ap, ◌∙◌, nat_eq, if◌then◌else◌, arith,
}
use npmfilter.Prelude.Text.{strip_prefix, format, all_chars}
use npmfilter.Policy.Types.{
  BlockReason, as_str, integrity_changed, deny_rule, too_new, install_script, scripts_changed,
  no_integrity, install_script_quarantine,
}
use npmfilter.Mcp.Blocks.{split_once_colon, parse_reason, split_reason}

abbrev colon : Char
colon = char b':' tt

abbrev space : Char
space = char b' ' tt

split_once_colon-append :
    (a b : String)
    → all_chars (λ c. not (nat_eq c b':')) a ≡ true
    → split_once_colon (String.◌++◌ a (String.◌∷◌ colon (String.◌∷◌ space b))) ≡ some (a, b)
unfolding split_once_colon all_chars strip_prefix
split_once_colon-append String.[] b h = rw (nil-append (String.◌∷◌ colon (String.◌∷◌ space b))) refl
split_once_colon-append (String.◌∷◌ c a) b h =
    let ne : nat_eq (code c) b':' ≡ false = ground arith in
    rw
      (
        cons-append c a (String.◌∷◌ colon (String.◌∷◌ space b)),
        ne,
        split_once_colon-append a b (ground arith),
      )
      refl

no_colon : (r : BlockReason) → all_chars (λ c. not (nat_eq c b':')) (as_str r) ≡ true
unfolding as_str all_chars
no_colon integrity_changed = refl
no_colon deny_rule = refl
no_colon too_new = refl
no_colon install_script = refl
no_colon scripts_changed = refl
no_colon no_integrity = refl
no_colon install_script_quarantine = refl

-- The reasons that the reader knows.
abbrev pub is_read : BlockReason → Bool
is_read no_integrity = false
is_read install_script_quarantine = false
is_read _ = true

read_back : (r : BlockReason) → parse_reason (as_str r) ≡ (if is_read r then some r else none)
unfolding parse_reason as_str
read_back integrity_changed = refl
read_back deny_rule = refl
read_back too_new = refl
read_back install_script = refl
read_back scripts_changed = refl
read_back no_integrity = refl
read_back install_script_quarantine = refl

abbrev pub row : BlockReason → String → String
row r detail = format (as_str r ∷ ": " ∷ detail ∷ [])

-- An audit row `<reason>: <detail>` of a block is split into its reason and its detail again, whatever the
-- detail holds, for five of the seven reasons; for `no_integrity` and `install_script_quarantine` no
-- reason is found, and the row is returned whole.
pub split_reason-row :
    (r : BlockReason) (detail : String)
    → split_reason (row r detail) ≡ (if is_read r then (some r, detail) else (none, row r detail))
unfolding split_reason format
split_reason-row r detail =
    let joined : row r detail
        ≡ String.◌++◌ (as_str r) (String.◌∷◌ colon (String.◌∷◌ space detail)) =
      ap (String.◌++◌ (as_str r)) (
        ap (String.◌++◌ ": ") (append-nil detail)
        ∙ cons-append colon " " detail
        ∙ ap (String.◌∷◌ colon)
            (cons-append space "" detail ∙ ap (String.◌∷◌ space) (nil-append detail))) in
    let found : split_once_colon (row r detail) ≡ some (as_str r, detail) =
      rw joined (split_once_colon-append (as_str r) detail (no_colon r)) in
    rw found (ground (arith, read_back r))
