-- ===== src/Store/Types/Scripts.antt =====
-- The digest of the hooks in src/store/mod.rs and the one in src/policy/mod.rs.
use npmfilter.Prelude.Bytes.{as_bytes}
use npmfilter.Prelude.{
  String, Option, none, some, List, [], ◌∷◌, ◌++◌, ◌≡◌, refl, sym, ap, subst, arith, Option-cases,
  inl, inr, ◌>>=◌,
}
use npmfilter.Prelude.Tree
use npmfilter.External.{External}
use npmfilter.Json
use npmfilter.Json.{Value, get, as_object, of_map}
use npmfilter.Hex.{hex_encode}
use npmfilter.Policy.Meta.{
  install_hooks, hook_entry, hooks_of, insert_hooks, install_hook_names, scripts_sha256,
}
use npmfilter.Store.Types.{
  collect, from_hooks, from_version, insert_commands, scripts_text, scripts_digest,
}

abbrev declared : String → Option String → List (String × String)
declared hook none = []
declared hook (some command) = (hook, command) ∷ []

-- The hooks that a version may declare, in the order of `INSTALL_HOOKS`.
abbrev hooks_from : Option String → Option String → Option String → List (String × String)
hooks_from a b c =
    declared "preinstall" a ++ (declared "install" b ++ (declared "postinstall" c ++ []))

same_object :
    (env : External) (a b c : Option String)
    → insert_commands (collect (hooks_from a b c) []) [] ≡ insert_hooks env (hooks_from a b c) []
unfolding Tree.insert
same_object env none none none = refl
same_object env none none (some c) = refl
same_object env none (some b) none = refl
same_object env none (some b) (some c) = refl
same_object env (some a) none none = refl
same_object env (some a) none (some c) = refl
same_object env (some a) (some b) none = refl
same_object env (some a) (some b) (some c) = refl

module _ (env : External) where
  -- The command of a hook, as the loop reads it.
  abbrev command_of : Option Value → Option String
  command_of none = none
  command_of (some Json.null) = none
  command_of (some (Json.string command)) = some command
  command_of (some other) = some (env.to_text other)

  hook_entry_lem :
      (hook : String) (found : Option Value)
      → hook_entry env hook found ≡ declared hook (command_of found)
  hook_entry_lem hook none = refl
  hook_entry_lem hook (some Json.null) = refl
  hook_entry_lem hook (some (Json.string command)) = refl
  hook_entry_lem hook (some (Json.boolean b)) = refl
  hook_entry_lem hook (some (Json.number n)) = refl
  hook_entry_lem hook (some (Json.array vs)) = refl
  hook_entry_lem hook (some (Json.object fs)) = refl

  hooks_lem :
      (scripts : List (String × Value))
      → hooks_of env scripts install_hook_names
        ≡ hooks_from
            (command_of (Tree.get "preinstall" scripts))
            (command_of (Tree.get "install" scripts))
            (command_of (Tree.get "postinstall" scripts))
  hooks_lem scripts =
      rw
        (
          hook_entry_lem "preinstall" (Tree.get "preinstall" scripts),
          hook_entry_lem "install" (Tree.get "install" scripts),
          hook_entry_lem "postinstall" (Tree.get "postinstall" scripts),
        )
        refl

  install_hooks_shape :
      (meta : Value) → (a b c : Option String) × (install_hooks env meta ≡ hooks_from a b c)
  unfolding install_hooks
  install_hooks_shape meta = elim (Option-cases (get "scripts" meta >>= as_object)) [
    | inl absent ↦ (none, none, none, ground (arith, absent))
    | inr (scripts, present) ↦ (
      command_of (Tree.get "preinstall" scripts),
      command_of (Tree.get "install" scripts),
      command_of (Tree.get "postinstall" scripts),
      ground (arith, present, hooks_lem scripts),
    )
  ]

  install_hooks_same :
      (meta : Value)
      → insert_commands (collect (install_hooks env meta) []) []
        ≡ insert_hooks env (install_hooks env meta) []
  install_hooks_same meta =
      let (a, b, c, shape) = install_hooks_shape meta in
      subst (λ l. insert_commands (collect l []) [] ≡ insert_hooks env l []) (sym shape)
        (same_object env a b c)

  -- The digest that an approval stores for the hooks of a version is the digest that the engine compares
  -- it with, for the same version object.
  pub scripts_digest-from_version :
      (meta : Value) → scripts_digest env (from_version env meta) ≡ scripts_sha256 env meta
  unfolding scripts_digest from_version from_hooks scripts_text scripts_sha256
  scripts_digest-from_version meta =
      ap (λ m. hex_encode (env.sha256 (as_bytes (env.to_text (of_map m)))))
        (install_hooks_same meta)
