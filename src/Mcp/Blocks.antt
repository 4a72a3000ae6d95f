-- ===== src/Mcp/Blocks.antt =====
-- src/mcp/blocks.rs: the reason of a block, read back from the detail of its audit row.
pub mod Reasons
use Prim.Native.Char.{Char, code}
use Prim.Native.String
use Prim.Native.String.{String}
use npmfilter.Prelude.{
  Bool, true, false, ◌&&◌, Option, none, some, List, ◌≡◌, ◌==◌, nat_eq, if◌then◌else◌, ◌>>=◌,
}
use npmfilter.Prelude.Text.{put_first, strip_prefix}
use npmfilter.Policy.Types.{
  BlockReason, integrity_changed, deny_rule, too_new, install_script, scripts_changed,
}

-- `str::split_once` at the two characters `": "`.
unfoldable pub split_once_colon : String → Option (String × String)
split_once_colon String.[] = none
split_once_colon (String.◌∷◌ c s) =
    let rest = put_first c (split_once_colon s) in
    if nat_eq (code c) b':'
    then elim (strip_prefix b' ' s) [ none ↦ rest | some tail ↦ some (String.[], tail) ]
    else rest

unfoldable pub parse_reason : String → Option BlockReason
parse_reason raw =
    if raw == "integrity_changed"
    then some integrity_changed
    else if raw == "deny_rule"
    then some deny_rule
    else if raw == "too_new"
    then some too_new
    else if raw == "install_script"
    then some install_script
    else if raw == "scripts_changed"
    then some scripts_changed
    else none

abbrev pub split_at_reason : String → Option (String × String) → Option BlockReason × String
split_at_reason detail none = (none, detail)
split_at_reason detail (some (head, tail)) = elim (parse_reason head) [
  | some reason ↦ (some reason, tail)
  | none ↦ (none, detail)
]

unfoldable pub split_reason : String → Option BlockReason × String
split_reason detail = split_at_reason detail (split_once_colon detail)
