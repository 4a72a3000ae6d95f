-- ===== src/Proxy/Shape/Abbreviated.antt =====
-- What the abbreviated form of src/proxy/shape.rs keeps of a packument.
use mathlib.Core.Bool.{false≢true}
use npmfilter.Prelude.{
  String, Bool, true, false, ◌&&◌, Option, none, some, List, [], ◌∷◌, any, is_some, if◌then◌else◌,
  ◌>>=◌, ◌==◌, eq_iff, ◌≡◌, refl, arith, Option-cases, inl, inr, ◌∙◌,
}
use npmfilter.Prelude.Tree
use npmfilter.Prelude.Tree.{HasDistinctKeys}
use npmfilter.External.{External}
use npmfilter.Json
use npmfilter.Json.{Value, boolean, of_map, as_object, as_object-of_map, get-of_map}
use npmfilter.Proxy.Shape.{
  Source, abbreviated_version_keys, is_empty_value, has_install_script, copy_key, copy_keys, copied,
  abbreviate_version, abbreviate_all, abbreviate,
}

-- A value that the registry does not leave out.
abbrev pub present : Option Value → Option Value
present none = none
present (some value) = if is_empty_value value then none else some value

get-copy_key :
    (q key : String) (o : Option Value) (out : Source)
    → Tree.get q (copy_key key o out)
      ≡ (if (key == q) && is_some (present o) then o else Tree.get q out)
get-copy_key q key none out = ground arith
get-copy_key q key (some value) out = ground (arith, Tree.get-insert key q value out)

get-copy_keys :
    (q : String) (keys : List String) (source out : Source)
    → Tree.get q (copy_keys keys source out) ≡ (
        if any (λ key. key == q) keys && is_some (present (Tree.get q source))
        then Tree.get q source
        else Tree.get q out)
unfolding copy_keys
get-copy_keys q [] source out = refl
get-copy_keys q (key ∷ keys) source out = ground (
  arith,
  get-copy_keys q keys source (copy_key key (Tree.get key source) out),
  get-copy_key q key (Tree.get key source) out,
  eq_iff key q,
)

get-abbreviate_all :
    (env : External) (q : String) (source out : Source)
    → HasDistinctKeys source
    → Tree.get q (abbreviate_all env source out)
      ≡ (elim (Tree.get q source) as (λ _. Option Value) [
        | none ↦ Tree.get q out
        | some meta ↦ some (abbreviate_version env meta)
      ])
unfolding abbreviate_all Tree.get
get-abbreviate_all env q [] out h = refl
get-abbreviate_all env q ((version, meta) ∷ source) out h = ground (
  arith,
  get-abbreviate_all env q source (Tree.insert version (abbreviate_version env meta) out) h.1,
  Tree.get-insert version q (abbreviate_version env meta) out,
  eq_iff version q,
)

get-copied :
    (runs : Bool) (keys : List String) (meta : Value) (source : Source) (q : String)
    → Json.get q (copied runs keys (some source) meta) ≡ (
        if "hasInstallScript" == q && runs
        then some (boolean true)
        else if any (λ key. key == q) keys
        then present (Tree.get q source)
        else none)
unfolding Tree.get
get-copied true keys meta source q =
    let out = copy_keys keys source [] in
    ground (
      arith,
      get-of_map q (Tree.insert "hasInstallScript" (boolean true) out),
      Tree.get-insert "hasInstallScript" q (boolean true) out,
      get-copy_keys q keys source [],
    )
get-copied false keys meta source q =
    ground (arith, get-of_map q (copy_keys keys source []), get-copy_keys q keys source [])

-- Of a version's object, the abbreviated form has under each key what the object has, if the key is one of
-- the twenty and the value is not empty, and nothing else; but `hasInstallScript` is `true` wherever the
-- version runs an install script.
pub get-abbreviate_version :
    (env : External) (meta : Value) (source : Source) (q : String)
    → as_object meta ≡ some source
    → Json.get q (abbreviate_version env meta) ≡ (
        if "hasInstallScript" == q && has_install_script env meta
        then some (boolean true)
        else if any (λ key. key == q) abbreviated_version_keys
        then present (Tree.get q source)
        else none)
unfolding abbreviate_version
get-abbreviate_version env meta source q h =
    rw h (get-copied (has_install_script env meta) abbreviated_version_keys meta source q)

versions_read :
    (head all : Source) (q : String)
    → (Json.get "versions" (of_map (Tree.insert "versions" (of_map all) head))
        >>= as_object
        >>= Tree.get q)
      ≡ Tree.get q all
versions_read head all q =
    rw
      (
        Json.entries-fields (Tree.insert "versions" (of_map all) head),
        Tree.get-insert_self "versions" (of_map all) head,
        Json.entries-fields all,
      )
      refl

all_versions :
    (env : External) (versions : Source) (q : String)
    → HasDistinctKeys versions
    → Tree.get q (abbreviate_all env versions [])
      ≡ (Tree.get q versions >>= λ meta. some (abbreviate_version env meta))
unfolding Tree.get
all_versions env versions q distinct =
    let every = get-abbreviate_all env q versions [] distinct in
    elim (Option-cases (Tree.get q versions)) [
      | inl absent ↦ ground arith
      | inr (meta, here) ↦ ground arith
    ]

-- The abbreviated form of a packument has exactly the versions of the full form, each of them abbreviated:
-- none that was withheld comes back, and none is lost.
pub get-abbreviate_versions :
    (env : External) (packument : Value) (versions : Source) (q : String)
    → Json.get "versions" packument >>= as_object ≡ some versions
    → HasDistinctKeys versions
    → (Json.get "versions" (abbreviate env packument) >>= as_object >>= Tree.get q)
      ≡ (Tree.get q versions >>= λ meta. some (abbreviate_version env meta))
unfolding abbreviate
get-abbreviate_versions env packument versions q h distinct =
    elim (Option-cases (as_object packument)) [
      | inl scalar ↦ absurd (false≢true (ground arith))
      | inr (root, is_root) ↦
          let found : Tree.get "versions" root >>= as_object ≡ some versions = ground arith in
          rw (is_root, found) (versions_read _ _ q ∙ all_versions env versions q distinct)
    ]
