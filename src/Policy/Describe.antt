-- ===== src/Policy/Describe.antt =====
-- The messages of src/policy/mod.rs: fingerprints, ages and hooks as text.
use Prim.Native.String.{len, slice}
use npmfilter.Prelude.Bytes.{as_bytes}
use npmfilter.Prelude.{
  ℕ, ◌/◌, ◌%◌, min, String, Option, none, some, List, [], ◌∷◌, map, nat_eq, if◌then◌else◌,
}
use npmfilter.Prelude.Int.{ℤ, pos, negsuc}
use npmfilter.Prelude.Text.{format, join, decimal}
use npmfilter.External.{External}
use npmfilter.Hex.{hex_encode}
use npmfilter.Json.{Value}
use npmfilter.Policy.Meta.{install_hooks}

-- `SECONDS_PER_DAY`.
abbrev pub seconds_per_day : ℕ
seconds_per_day = 86_400

unfoldable pub show_integrity : Option String → String
show_integrity none = "<no dist.integrity>"
show_integrity (some integrity) = integrity

unfoldable pub describe_age : ℤ → String
describe_age (negsuc n) = "publish time is in the future"
describe_age (pos age_secs) =
    let days = age_secs / seconds_per_day in
    let hours = (age_secs % seconds_per_day) / 3_600 in
    if nat_eq days 0
    then format (decimal hours ∷ "h old" ∷ [])
    else format (decimal days ∷ "d " ∷ decimal hours ∷ "h old" ∷ [])

module _ (env : External) where
  open env use {sha256}

  unfoldable pub fingerprint : Option String → String
  fingerprint none = "<absent>"
  fingerprint (some value) =
      let digest = hex_encode (sha256 (as_bytes value)) in
      format ("sha256:" ∷ slice digest 0 (min 16 (len digest)) ∷ [])

  abbrev hook_line : String × String → String
  hook_line (hook, command) = format (hook ∷ ": " ∷ command ∷ [])

  -- `hook: command` pairs joined by `"; "`.
  unfoldable pub hook_lines : List (String × String) → String
  hook_lines hooks = join "; " (map hook_line hooks)

  unfoldable pub describe_hooks : Value → String
  describe_hooks meta = elim (install_hooks env meta) [
    | [] ↦ "this version declares no install hooks"
    | h ∷ hooks ↦ format ("now: " ∷ hook_lines (h ∷ hooks) ∷ [])
  ]
