-- ===== src/Policy/Tags.antt =====
-- `repoint_dist_tags` of src/policy/mod.rs and the order of versions that it uses.
pub mod Targets
use Prim.Native.Nat.{Ordering}
use npmfilter.Prelude.{
  String, Bool, true, false, Option, none, some, List, [], ◌∷◌, keep, if◌then◌else◌,
}
use npmfilter.Prelude.Text.{str_compare}
use npmfilter.Prelude.Tree
use npmfilter.External.{External}
use npmfilter.Json.{Value, string, as_str}

module _ (env : External) where
  open env use {parse_version, compare_parsed, pre_is_empty}

  unfoldable pub compare_versions : String → String → Ordering
  compare_versions left right = elim (parse_version left) [
    | some l ↦ elim (parse_version right) [ some r ↦ compare_parsed l r | none ↦ Ordering.gt ]
    | none ↦ elim (parse_version right) [ some r ↦ Ordering.lt | none ↦ str_compare left right ]
  ]

  unfoldable pub is_stable : String → Bool
  is_stable version = elim (parse_version version) [
    | some parsed ↦ pre_is_empty parsed
    | none ↦ false
  ]

  -- One round of `Iterator::max_by`: of two equal elements the later one stays.
  abbrev later_max : String → String → String
  later_max best version = elim (compare_versions best version) [ Ordering.gt ↦ best | _ ↦ version ]

  abbrev max_from : String → List String → String
  max_from best [] = best
  max_from best (version ∷ versions) = max_from (later_max best version) versions

  unfoldable pub pick_newest : List String → Option String
  pick_newest [] = none
  pick_newest (version ∷ versions) = some (max_from version versions)

  unfoldable pub newest_surviving : List String → Bool → Option String
  newest_surviving surviving prefer_stable =
      if prefer_stable
      then elim (pick_newest (keep is_stable surviving)) [
        | some newest_stable ↦ some newest_stable
        | none ↦ pick_newest surviving
      ]
      else pick_newest surviving

  -- `target.is_none_or(is_stable)`.
  abbrev pub target_is_stable : Option String → Bool
  target_is_stable none = true
  target_is_stable (some target) = is_stable target

  abbrev replacement : List String → Option String → Option String
  replacement surviving target = newest_surviving surviving (target_is_stable target)

  -- Where one tag goes: its own target if that survived.
  abbrev pub repoint : List String → Option String → Option String
  repoint surviving none = replacement surviving none
  repoint surviving (some target) =
      if Tree.contains target surviving then some target else replacement surviving (some target)

  abbrev insert_some : String → Option String → List (String × Value) → List (String × Value)
  insert_some tag none out = out
  insert_some tag (some target) out = Tree.insert tag (string target) out

  unfoldable pub repoint_dist_tags : List (String × Value) → List String → List (String × Value)
  repoint_dist_tags [] surviving = []
  repoint_dist_tags ((tag, target) ∷ tags) surviving =
      insert_some tag (repoint surviving (as_str target)) (repoint_dist_tags tags surviving)
