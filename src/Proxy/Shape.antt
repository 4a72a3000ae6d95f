-- ===== src/Proxy/Shape.antt =====
-- src/proxy/shape.rs: the abbreviated form of a packument, and the tags that name a version that was
-- withheld.
pub mod Abbreviated
pub mod Tagged
pub mod Path
use npmfilter.Prelude.{
  ℕ, String, Bool, true, false, not, ◌||◌, Option, none, some, List, [], ◌∷◌, is_empty, is_some,
  any, keep, if◌then◌else◌, ◌>>=◌, ◌==◌,
}
use npmfilter.Prelude.Text.{is_blank}
use npmfilter.Prelude.Tree
use npmfilter.External.{External}
use npmfilter.Json
use npmfilter.Json.{
  Value, Items, Fields, null, boolean, number, string, array, object, nil, cons, end, field,
  entries, of_map, as_object, as_str,
}
use npmfilter.Policy.Types.{BlockReason, BlockRecord}
use npmfilter.Policy.Meta.{install_hooks, flags_install_script}

-- `ABBREVIATED_VERSION_KEYS`.
abbrev pub abbreviated_version_keys : List String
abbreviated_version_keys =
    "_hasShrinkwrap" ∷ "acceptDependencies" ∷ "bin" ∷ "bundleDependencies" ∷ "cpu" ∷ "dependencies"
    ∷ "deprecated" ∷ "devDependencies" ∷ "directories" ∷ "dist" ∷ "engines" ∷ "funding"
    ∷ "hasInstallScript" ∷ "libc" ∷ "name" ∷ "optionalDependencies" ∷ "os" ∷ "peerDependencies"
    ∷ "peerDependenciesMeta" ∷ "version" ∷ []

unfoldable pub is_empty_value : Value → Bool
is_empty_value null = true
is_empty_value (boolean flag) = not flag
is_empty_value (string text) = is_blank text
is_empty_value (array nil) = true
is_empty_value (array (cons v vs)) = false
is_empty_value (object end) = true
is_empty_value (object (field k v fs)) = false
is_empty_value (number n) = false

unfoldable pub has_install_script : External → Value → Bool
has_install_script env meta = not (is_empty (install_hooks env meta)) || flags_install_script meta

abbrev pub Source : Type 0
Source = List (String × Value)

-- One key of the loop: copied unless absent or empty.
abbrev pub copy_key : String → Option Value → Source → Source
copy_key key none out = out
copy_key key (some value) out = if is_empty_value value then out else Tree.insert key value out

unfoldable pub copy_keys : List String → Source → Source → Source
copy_keys [] source out = out
copy_keys (key ∷ keys) source out = copy_keys keys source (copy_key key (Tree.get key source) out)

abbrev pub copied : Bool → List String → Option Source → Value → Value
copied runs keys none meta = meta
copied runs keys (some source) meta =
    let out = copy_keys keys source [] in
    of_map (if runs then Tree.insert "hasInstallScript" (boolean true) out else out)

unfoldable pub abbreviate_version : External → Value → Value
abbreviate_version env meta =
    copied (has_install_script env meta) abbreviated_version_keys (as_object meta) meta

unfoldable pub abbreviate_all : External → Source → Source → Source
abbreviate_all env [] out = out
abbreviate_all env ((version, meta) ∷ source) out =
    abbreviate_all env source (Tree.insert version (abbreviate_version env meta) out)

-- `if let Some(value) = … { out.insert(key, value) }`.
abbrev pub put : String → Option Value → Source → Source
put key none out = out
put key (some value) out = Tree.insert key value out

abbrev pub or_else : Option Value → Option Value → Option Value
or_else none other = other
or_else (some v) other = some v

abbrev pub versions_of : Option Source → Source
versions_of none = []
versions_of (some source) = source

abbrev pub abbreviated : External → Option Source → Value → Value
abbreviated env none packument = packument
abbreviated env (some root) packument =
    let modified =
      or_else (Tree.get "time" root >>= as_object >>= Tree.get "modified")
        (Tree.get "modified" root) in
    let versions = abbreviate_all env (versions_of (Tree.get "versions" root >>= as_object)) [] in
    let head =
      put "modified" modified
        (put "dist-tags" (Tree.get "dist-tags" root) (put "name" (Tree.get "name" root) [])) in
    of_map (Tree.insert "versions" (of_map versions) head)

unfoldable pub abbreviate : External → Value → Value
abbreviate env packument = abbreviated env (as_object packument) packument

pub record WithheldDistTag : Type 0 where
  pub tag : String
  pub version : String
  pub reason : BlockReason

-- `blocked.iter().find(|record| record.version == target)`.
unfoldable pub find_record : String → List BlockRecord → Option BlockRecord
find_record target [] = none
find_record target (record' ∷ blocked) =
    if record'.version == target then some record' else find_record target blocked

abbrev pub names_survivor : Option Source → String → Bool
names_survivor none target = false
names_survivor (some versions) target = Tree.contains_key target versions

-- What one tag adds to the list.
abbrev pub withheld_tag : Option Source → List BlockRecord → String → Value → Option WithheldDistTag
withheld_tag surviving blocked tag value = as_str value >>= λ target.
    if names_survivor surviving target
    then none
    else find_record target blocked >>= λ found.
        some (record { tag = tag; version = target; reason = found.reason })

abbrev pub add_tag : Option WithheldDistTag → List WithheldDistTag → List WithheldDistTag
add_tag none out = out
add_tag (some t) out = t ∷ out

unfoldable pub tags_from : Option Source → List BlockRecord → Source → List WithheldDistTag
tags_from surviving blocked [] = []
tags_from surviving blocked ((tag, value) ∷ tags) =
    add_tag (withheld_tag surviving blocked tag value) (tags_from surviving blocked tags)

abbrev pub tags_of : Option Source → List BlockRecord → Option Source → List WithheldDistTag
tags_of surviving blocked none = []
tags_of surviving blocked (some tags) = tags_from surviving blocked tags

unfoldable pub withheld_dist_tags : Value → List BlockRecord → List WithheldDistTag
withheld_dist_tags filtered blocked =
    tags_of (Json.get "versions" filtered >>= as_object) blocked
      (Json.get "dist-tags" filtered >>= as_object)
