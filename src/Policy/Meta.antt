-- ===== src/Policy/Meta.antt =====
-- What the engine reads out of a version object and a package name, src/policy/mod.rs.
use npmfilter.Prelude.Bytes.{as_bytes}
use npmfilter.Prelude.{
  String, Bool, false, not, ◌||◌, Option, none, some, List, [], ◌∷◌, ◌++◌, ◌>>=◌, any,
  if◌then◌else◌, is_empty, ◌==◌,
}
use npmfilter.Prelude.Text.{format, is_blank, strip_prefix, split_once, trim_start}
use npmfilter.Prelude.Tree
use npmfilter.External.{External}
use npmfilter.Hex.{hex_encode}
use npmfilter.Json.{Value, null, string, get, as_object, as_str, as_bool, of_map}
use npmfilter.Policy.Types.{PolicyConfig}

-- `dist.<key>` as a string.
abbrev dist_field : String → Value → Option String
dist_field key meta = get "dist" meta >>= λ dist. as_object dist >>= Tree.get key >>= as_str

unfoldable pub version_tarball : Value → Option String
version_tarball meta = dist_field "tarball" meta

unfoldable pub version_integrity : Value → Option String
version_integrity meta = dist_field "integrity" meta

unfoldable pub version_shasum : Value → Option String
version_shasum meta =
    dist_field "shasum" meta >>= λ shasum. if is_blank shasum then none else some shasum

-- What the integrity ledger records.
unfoldable pub version_identity : Value → Option String
version_identity meta = elim (version_integrity meta) [
  | some integrity ↦ some integrity
  | none ↦ version_shasum meta >>= λ shasum. some (format ("shasum-sha1:" ∷ shasum ∷ []))
]

-- `INSTALL_HOOKS`.
abbrev pub install_hook_names : List String
install_hook_names = "preinstall" ∷ "install" ∷ "postinstall" ∷ []

unfoldable pub flags_install_script : Value → Bool
flags_install_script meta = elim (get "hasInstallScript" meta >>= as_bool) [
  | some flag ↦ flag
  | none ↦ false
]

unfoldable pub package_scope : String → Option String
package_scope name = do
  rest ← strip_prefix b'@' name
  (scope, bare) ← split_once b'/' rest
  if is_blank scope || is_blank bare then none else some scope

abbrev names_scope : String → String → Bool
names_scope scope allowed = trim_start b'@' allowed == scope

unfoldable pub is_bypassed_scope : String → PolicyConfig → Bool
is_bypassed_scope name config = elim (package_scope name) [
  | none ↦ false
  | some scope ↦ any (names_scope scope) config.bypass_scopes
]

module _ (env : External) where
  open env use {sha256, to_text}

  -- One round of the loop over `INSTALL_HOOKS`.
  abbrev pub hook_entry : String → Option Value → List (String × String)
  hook_entry hook none = []
  hook_entry hook (some null) = []
  hook_entry hook (some (string command)) = (hook, command) ∷ []
  hook_entry hook (some other) = (hook, to_text other) ∷ []

  abbrev pub hooks_of : List (String × Value) → List String → List (String × String)
  hooks_of scripts [] = []
  hooks_of scripts (hook ∷ hooks) =
      hook_entry hook (Tree.get hook scripts) ++ hooks_of scripts hooks

  unfoldable pub install_hooks : Value → List (String × String)
  install_hooks meta = elim (get "scripts" meta >>= as_object) [
    | none ↦ []
    | some scripts ↦ hooks_of scripts install_hook_names
  ]

  unfoldable pub runs_install_script : Value → Bool
  runs_install_script meta = not (is_empty (install_hooks meta)) || flags_install_script meta

  abbrev pub insert_hooks : List (String × String) → List (String × Value) → List (String × Value)
  insert_hooks [] out = out
  insert_hooks ((hook, command) ∷ hooks) out =
      insert_hooks hooks (Tree.insert hook (string command) out)

  unfoldable pub scripts_sha256 : Value → String
  scripts_sha256 meta =
      let json = to_text (of_map (insert_hooks (install_hooks meta) [])) in
      hex_encode (sha256 (as_bytes json))
