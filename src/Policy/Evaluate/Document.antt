-- ===== src/Policy/Evaluate/Document.antt =====
-- What the loops of `evaluate` (src/policy/mod.rs) that rebuild the document keep, key by key.
use npmfilter.Prelude.{
  String, not, ◌&&◌, Option, none, some, List, [], ◌∷◌, ◌≡◌, ◌≢◌, refl, ◌∙◌, arith, if◌then◌else◌,
  eq_iff, ◌>>=◌,
}
use npmfilter.Prelude.Tree
use npmfilter.External.{External}
use npmfilter.Json.{Value, as_object, of_map}
use npmfilter.Policy.Types.{PolicyConfig}
use npmfilter.Policy.Tags.{repoint_dist_tags}
use npmfilter.Policy.Evaluate.{
  Entries, keep_versions, keep_time, rebuild_time, rebuild_tags, rebuild,
}

pub get-keep_versions :
    (v : String) (surviving : List String) (versions : Entries)
    → Tree.get v (keep_versions surviving versions)
      ≡ (if Tree.contains v surviving then Tree.get v versions else none)
unfolding keep_versions Tree.get
get-keep_versions v surviving [] = ground arith
get-keep_versions v surviving ((version, meta) ∷ versions) = ground (
  arith,
  get-keep_versions v surviving versions,
  eq_iff version v,
  Tree.get-insert version v meta (keep_versions surviving versions),
)

pub get-keep_time :
    (k : String) (surviving : List String) (versions time : Entries)
    → Tree.get k (keep_time surviving versions time) ≡ (
        if Tree.contains_key k versions && not (Tree.contains k surviving)
        then none
        else Tree.get k time)
unfolding keep_time Tree.get
get-keep_time k surviving versions [] = ground arith
get-keep_time k surviving versions ((key, value) ∷ time) = ground (
  arith,
  get-keep_time k surviving versions time,
  eq_iff key k,
  Tree.get-insert key k value (keep_time surviving versions time),
)

pub get-insert_ne :
    (k q : String) (v : Value) (m : Entries) → k ≢ q → Tree.get k (Tree.insert q v m) ≡ Tree.get k m
get-insert_ne k q v m h = ground (arith, Tree.get-insert q k v m, eq_iff q k)

module _ (surviving : List String) (versions out : Entries) where
  get-rebuild_time_ne :
      (env : External) (k : String) (time : Option Entries)
      → k ≢ "time"
      → Tree.get k (rebuild_time env surviving versions time out) ≡ Tree.get k out
  get-rebuild_time_ne env k none h = refl
  get-rebuild_time_ne env k (some time) h = get-insert_ne k "time" _ out h

  get-rebuild_tags_ne :
      (env : External) (config : PolicyConfig) (k : String) (tags : Option Entries)
      → k ≢ "dist-tags"
      → Tree.get k (rebuild_tags env config surviving tags out) ≡ Tree.get k out
  get-rebuild_tags_ne env config k none h = refl
  get-rebuild_tags_ne env config k (some tags) h = get-insert_ne k "dist-tags" _ out h

module _ (env : External) (config : PolicyConfig) (root versions : Entries)
    (surviving : List String) where
  abbrev out_versions : Entries
  out_versions = Tree.insert "versions" (of_map (keep_versions surviving versions)) root

  abbrev out_time : Entries
  out_time = rebuild_time env surviving versions (Tree.get "time" root >>= as_object) out_versions

  abbrev out : Entries
  out = rebuild env config root versions surviving

  get-rebuild_ne : (k : String) → k ≢ "dist-tags" → Tree.get k out ≡ Tree.get k out_time
  unfolding rebuild
  get-rebuild_ne k h =
      get-rebuild_tags_ne surviving versions out_time env config k
        (Tree.get "dist-tags" root >>= as_object) h

  pub get-rebuild_versions :
      Tree.get "versions" out ≡ some (of_map (keep_versions surviving versions))
  get-rebuild_versions =
      get-rebuild_ne "versions" (ground (arith, eq_iff "versions" "dist-tags"))
      ∙ get-rebuild_time_ne surviving versions out_versions env "versions"
          (Tree.get "time" root >>= as_object) (ground (arith, eq_iff "versions" "time"))
      ∙ Tree.get-insert_self "versions" _ root

  pub get-rebuild_other :
      (k : String)
      → k ≢ "versions"
      → k ≢ "time"
      → k ≢ "dist-tags"
      → Tree.get k out ≡ Tree.get k root
  get-rebuild_other k h1 h2 h3 =
      get-rebuild_ne k h3
      ∙ get-rebuild_time_ne surviving versions out_versions env k
          (Tree.get "time" root >>= as_object) h2
      ∙ get-insert_ne k "versions" _ root h1

  pub get-rebuild_time :
      (time : Entries)
      → (Tree.get "time" root >>= as_object) ≡ some time
      → Tree.get "time" out ≡ some (of_map (keep_time surviving versions time))
  get-rebuild_time time e =
      get-rebuild_ne "time" (ground (arith, eq_iff "time" "dist-tags"))
      ∙ rw e (Tree.get-insert_self "time" _ out_versions)

  pub get-rebuild_tags :
      (tags : Entries)
      → (Tree.get "dist-tags" root >>= as_object) ≡ some tags
      → Tree.get "dist-tags" out
        ≡ some (
            of_map (
              if config.allow_dist_tag_downgrade
              then repoint_dist_tags env tags surviving
              else tags))
  unfolding rebuild
  get-rebuild_tags tags e = rw e (Tree.get-insert_self "dist-tags" _ out_time)
