-- ===== src/Policy/Evaluate/Outcome.antt =====
-- What `evaluate` of src/policy/mod.rs serves, withholds and leaves alone, and when it fails.
use npmfilter.Prelude.{
  subst, String, true, false, not, ◌&&◌, Option, none, some, [], ◌≡◌, ◌≢◌, ◌∙◌, arith,
  if◌then◌else◌, ◌>>=◌,
}
use npmfilter.Prelude.Tree
use npmfilter.Prelude.Result.{ok}
use npmfilter.External.{External}
use npmfilter.Json.{Value, get, as_object, as_str, of_map, as_object-of_map, get-of_map}
use npmfilter.Policy.Types.{
  PolicyConfig, PolicyOutcome, RuleStore, IntegrityLedger, Decision, admit,
}
use npmfilter.Policy.Evaluate.{Entries, Judged, keep_versions, rebuild, judge, parse, evaluate}
use npmfilter.Policy.Evaluate.Document.{
  get-keep_versions, get-keep_time, get-rebuild_versions, get-rebuild_time, get-rebuild_tags,
  get-rebuild_other,
}
use npmfilter.Policy.Evaluate.Judge.{
  is_withheld, Decides, judge-IsSplit, judge-admits, judge-blocks,
}

-- The object under a key of a document, empty where there is none.
unfoldable pub section : String → Value → Entries
section key document = elim (get key document >>= as_object) [ none ↦ [] | some m ↦ m ]

section_of :
    (key : String) (root m : Entries)
    → Tree.get key root ≡ some (of_map m)
    → section key (of_map root) ≡ m
unfolding section
section_of key root m e = ground (arith, as_object-of_map root, as_object-of_map m)

-- The object at the root of a packument, its name and its versions.
pub record IsPackument (document : Value) (root : Entries) (name : String) (versions : Entries)
    : Type 0 where
  pub is_object : as_object document ≡ some root
  pub named : (Tree.get "name" root >>= as_str) ≡ some name
  pub versioned : (Tree.get "versions" root >>= as_object) ≡ some versions
  pub distinct : Tree.HasDistinctKeys versions

parse_ok :
    {document : Value} {root : Entries} {name : String} {versions : Entries}
    → IsPackument document root name versions
    → parse document ≡ ok (root, name, versions)
unfolding parse
parse_ok p = ground arith

module _ (env : External) {S : Type 0} (rules : RuleStore S) (ledger : IntegrityLedger env S)
    (document : Value) (config : PolicyConfig) (now : env.Instant) (s : S) where
  module _ {root : Entries} {name : String} {versions : Entries}
      (p : IsPackument document root name versions) where
    abbrev pub time : Option Entries
    time = Tree.get "time" root >>= as_object

    evaluate_lem :
        let (judged, s') = judge env rules ledger name time config now versions s in
        evaluate env rules ledger document config now s ≡ (
          ok (record {
            packument = of_map (rebuild env config root versions judged.surviving);
            blocked = judged.blocked;
          }),
          s',
        )
    unfolding evaluate
    evaluate_lem = rw (parse_ok p)

    module _ {outcome : PolicyOutcome} {s' : S}
        (returned : evaluate env rules ledger document config now s ≡ (ok outcome, s')) where
      abbrev pub judged : Judged
      judged = (judge env rules ledger name time config now versions s).0

      outcome_lem :
          (outcome.packument ≡ of_map (rebuild env config root versions judged.surviving))
          × (outcome.blocked ≡ judged.blocked)
      outcome_lem = ground (arith, evaluate_lem)

      served_lem : section "versions" outcome.packument ≡ keep_versions judged.surviving versions
      served_lem = rw (outcome_lem.0) (
          section_of "versions" _ _
            (get-rebuild_versions env config root versions judged.surviving))

      pub get-served :
          (v : String)
          → Tree.get v (section "versions" outcome.packument)
            ≡ (if Tree.contains v judged.surviving then Tree.get v versions else none)
      get-served v = rw served_lem (get-keep_versions v judged.surviving versions)

      -- Each version of the packument is served or withheld and not both, and nothing else is: it is
      -- among the versions of the result exactly if it is among those of the packument and no block
      -- record names it, and a block record names it exactly if it is among those of the packument
      -- and not served.
      pub evaluate_splits :
          (v : String)
          → (Tree.contains_key v (section "versions" outcome.packument)
              ≡ (Tree.contains_key v versions && not (is_withheld v outcome.blocked)))
            × (is_withheld v outcome.blocked ≡ (
                Tree.contains_key v versions
                && not (Tree.contains_key v (section "versions" outcome.packument))))
      evaluate_splits v = ground (
        arith,
        get-served v,
        outcome_lem.1,
        judge-IsSplit env rules ledger name time config now versions s v p.distinct,
      )

      -- A version that is served has the metadata that upstream published, and the gates admitted
      -- it with that metadata and its own publish time.
      pub evaluate-admits :
          (v : String) (meta : Value)
          → Tree.get v (section "versions" outcome.packument) ≡ some meta
          → (Tree.get v versions ≡ some meta)
            × Decides env rules ledger name time config now v meta admit
      evaluate-admits v meta h =
          let kept : Tree.contains v judged.surviving ≡ true = ground (arith, get-served v) in
          let found : Tree.get v versions ≡ some meta = ground (arith, get-served v) in
          let (m, found', decided) =
            judge-admits env rules ledger name time config now versions s v p.distinct kept in
          (
            found,
            subst (λ x. Decides env rules ledger name time config now v x admit) (ground arith)
                decided,
          )

      -- A version that a block record names was refused by the gates, with the metadata that
      -- upstream published and its own publish time.
      pub evaluate-blocks :
          (v : String)
          → is_withheld v outcome.blocked ≡ true
          → (meta : Value) × (decision : Decision) × (Tree.get v versions ≡ some meta)
            × Decides env rules ledger name time config now v meta decision
            × (decision ≢ admit)
      evaluate-blocks v h =
          judge-blocks env rules ledger name time config now versions s v p.distinct
            (ground (arith, outcome_lem.1))

      -- The publish times of the withheld versions go, and every other entry of `time` stays.
      pub get-evaluate_time :
          (k : String) (entries : Entries)
          → time ≡ some entries
          → Tree.get k (section "time" outcome.packument)
            ≡ (if is_withheld k outcome.blocked then none else Tree.get k entries)
      get-evaluate_time k entries e =
          rw
            (
              outcome_lem.0,
              section_of "time" _ _
                  (get-rebuild_time env config root versions judged.surviving entries e),
              get-keep_time k judged.surviving versions entries,
            )
            (ground (
              arith,
              outcome_lem.1,
              judge-IsSplit env rules ledger name time config now versions s k p.distinct,
            ))

      -- Apart from `versions`, `time` and `dist-tags` the document is as upstream published it.
      pub get-evaluate_other :
          (k : String)
          → k ≢ "versions"
          → k ≢ "time"
          → k ≢ "dist-tags"
          → get k outcome.packument ≡ get k document
      get-evaluate_other k h1 h2 h3 =
          rw (outcome_lem.0, p.is_object)
            (get-of_map k _
              ∙ get-rebuild_other env config root versions judged.surviving k h1 h2 h3)

      -- Without `allow_dist_tag_downgrade` the tags are as upstream published them.
      pub evaluate_tags :
          (tags : Entries)
          → (Tree.get "dist-tags" root >>= as_object) ≡ some tags
          → config.allow_dist_tag_downgrade ≡ false
          → section "dist-tags" outcome.packument ≡ tags
      evaluate_tags tags e off = rw (outcome_lem.0) (
          section_of "dist-tags" _ tags
            (rw (get-rebuild_tags env config root versions judged.surviving tags e, off)))
