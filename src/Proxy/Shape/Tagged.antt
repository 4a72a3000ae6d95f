-- ===== src/Proxy/Shape/Tagged.antt =====
-- Which tags `withheld_dist_tags` of src/proxy/shape.rs reports.
use mathlib.Core.Bool.{false≢true}
use npmfilter.Prelude.{
  String, true, false, ◌&&◌, Option, none, some, List, [], ◌∷◌, is_some, if◌then◌else◌, ◌>>=◌, ◌==◌,
  eq_iff, ◌≡◌, refl, ◌∙◌, arith, Bool-cases, inl, inr,
}
use npmfilter.Prelude.Tree
use npmfilter.Prelude.Tree.{HasDistinctKeys}
use npmfilter.Json
use npmfilter.Json.{Value, as_object, as_str}
use npmfilter.Policy.Types.{BlockRecord}
use npmfilter.Proxy.Shape.{
  Source, WithheldDistTag, find_record, names_survivor, withheld_tag, add_tag, tags_from,
  withheld_dist_tags,
}

-- The first report of a tag.
unfoldable pub reported : String → List WithheldDistTag → Option WithheldDistTag
reported tag [] = none
reported tag (t ∷ ts) = if t.tag == tag then some t else reported tag ts

reported-withheld_tag :
    (surviving : Option Source) (blocked : List BlockRecord) (tag q : String) (value : Value)
    (out : List WithheldDistTag)
    → reported q (add_tag (withheld_tag surviving blocked tag value) out) ≡ (
        if tag == q && is_some (withheld_tag surviving blocked tag value)
        then withheld_tag surviving blocked tag value
        else reported q out)
unfolding reported
reported-withheld_tag surviving blocked tag q value out = ground arith

tag_absent :
    (surviving : Option Source) (blocked : List BlockRecord) (q : String) (tags : Source)
    → Tree.contains_key q tags ≡ false
    → reported q (tags_from surviving blocked tags) ≡ none
unfolding tags_from reported Tree.get
tag_absent surviving blocked q [] h = refl
tag_absent surviving blocked q ((tag, value) ∷ tags) h = ground (
  arith,
  reported-withheld_tag surviving blocked tag q value (tags_from surviving blocked tags),
  tag_absent surviving blocked q tags,
  eq_iff tag q,
)

first_report :
    (surviving : Option Source) (blocked : List BlockRecord) (tag q : String) (value : Value)
    (out : List WithheldDistTag)
    → tag == q ≡ true
    → reported q out ≡ none
    → reported q (add_tag (withheld_tag surviving blocked tag value) out)
      ≡ withheld_tag surviving blocked q value
unfolding reported
first_report surviving blocked tag q value out e absent =
    rw ((eq_iff tag q).0 e) (ground (arith, absent, eq_iff q q))

tags_lem :
    (surviving : Option Source) (blocked : List BlockRecord) (q : String) (tags : Source)
    → HasDistinctKeys tags
    → reported q (tags_from surviving blocked tags)
      ≡ (Tree.get q tags >>= withheld_tag surviving blocked q)
unfolding tags_from reported Tree.get
tags_lem surviving blocked q [] h = refl
tags_lem surviving blocked q ((tag, value) ∷ tags) h =
    let first =
      reported-withheld_tag surviving blocked tag q value (tags_from surviving blocked tags) in
    elim (Bool-cases (tag == q)) [
      | inl e ↦
          let absent : reported q (tags_from surviving blocked tags) ≡ none =
            tag_absent surviving blocked q tags (ground (arith, h.0, eq_iff tag q)) in
          rw e
            (first_report surviving blocked tag q value (tags_from surviving blocked tags) e absent)
      | inr ne ↦ rw ne (ground (arith, first, tags_lem surviving blocked q tags h.1))
    ]

one_tag :
    (surviving : Option Source) (blocked : List BlockRecord) (tag target : String)
    (o : Option Value)
    → o >>= as_str ≡ some target
    → (o >>= withheld_tag surviving blocked tag) ≡ (
        if names_survivor surviving target
        then none
        else find_record target blocked >>= λ found.
            some (record { tag = tag; version = target; reason = found.reason }))
one_tag surviving blocked tag target none h = absurd (false≢true (ground arith))
one_tag surviving blocked tag target (some value) h = rw h refl

-- Of a filtered packument whose tags are a map, each tag that names a version is reported once the version
-- has no place among the versions that are left and the engine blocked it, with that version and the
-- reason of its first record; a tag whose version is left, or was not blocked, is not reported.
pub reported-withheld_dist_tags :
    (filtered : Value) (blocked : List BlockRecord) (tags : Source) (tag target : String)
    → Json.get "dist-tags" filtered >>= as_object ≡ some tags
    → HasDistinctKeys tags
    → Tree.get tag tags >>= as_str ≡ some target
    → reported tag (withheld_dist_tags filtered blocked) ≡ (
        if names_survivor (Json.get "versions" filtered >>= as_object) target
        then none
        else find_record target blocked >>= λ found.
            some (record { tag = tag; version = target; reason = found.reason }))
unfolding withheld_dist_tags
reported-withheld_dist_tags filtered blocked tags tag target h distinct named =
    let surviving = Json.get "versions" filtered >>= as_object in
    rw h (
      tags_lem surviving blocked tag tags distinct
      ∙ one_tag surviving blocked tag target (Tree.get tag tags) named)
