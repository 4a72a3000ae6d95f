-- ===== src/Policy/Evaluate.antt =====
-- `evaluate` of src/policy/mod.rs. A loop that fills a map is a recursion on the entries that it
-- visits; a `serde_json` map holds each key once, so the order of the insertions does not matter.
pub mod Document
pub mod Judge
pub mod Outcome
pub mod Errors
pub mod Simulation
pub mod Denied
use npmfilter.Prelude.{
  String, Bool, true, false, not, ◌&&◌, Option, none, some, List, [], ◌∷◌, if◌then◌else◌,
}
use npmfilter.Prelude
use npmfilter.Prelude.Tree
use npmfilter.Prelude.Result.{Result, ok, err, ◌>>=◌, ok_or}
use npmfilter.External.{External}
use npmfilter.Json
use npmfilter.Json.{Value, as_object, as_str, of_map}
use npmfilter.Policy.Types.{
  PolicyConfig, BlockReason, BlockRecord, PolicyOutcome, PolicyError, not_an_object, missing_name,
  missing_versions, RuleStore, IntegrityLedger, Decision, admit, block,
}
use npmfilter.Policy.Public.{public_detail}
use npmfilter.Policy.Gates.{evaluate_version}
use npmfilter.Policy.Tags.{repoint_dist_tags}

-- `BlockRecord::new`.
unfoldable pub new_record : String → BlockReason → String → BlockRecord
new_record version reason detail = record {
  version = version;
  reason = reason;
  detail = detail;
  public_detail = public_detail reason;
}

abbrev pub Entries : Type 0
Entries = List (String × Value)

-- `time.and_then(|time| time.get(version)).and_then(Value::as_str)`.
abbrev pub published_in : Option Entries → String → Option String
published_in none version = none
published_in (some time) version = Prelude.◌>>=◌ (Tree.get version time) as_str

-- What the loop over the versions collects.
pub record Judged : Type 0 where
  pub blocked : List BlockRecord
  pub surviving : List String

abbrev pub note : String → Decision → Judged → Judged
note version admit judged = record judged { surviving = Tree.add version judged.surviving }
note version (block reason detail) judged = record judged {
  blocked = new_record version reason detail ∷ judged.blocked;
}

unfoldable pub keep_versions : List String → Entries → Entries
keep_versions surviving [] = []
keep_versions surviving ((version, meta) ∷ versions) =
    let rest = keep_versions surviving versions in
    if Tree.contains version surviving then Tree.insert version meta rest else rest

unfoldable pub keep_time : List String → Entries → Entries → Entries
keep_time surviving versions [] = []
keep_time surviving versions ((key, value) ∷ time) =
    let rest = keep_time surviving versions time in
    if Tree.contains_key key versions && not (Tree.contains key surviving)
    then rest
    else Tree.insert key value rest

-- The three checks of a packument.
unfoldable pub parse : Value → Result PolicyError (Entries × String × Entries)
parse packument = do
  root ← ok_or not_an_object (as_object packument)
  name ← ok_or missing_name (Prelude.◌>>=◌ (Tree.get "name" root) as_str)
  versions ← ok_or missing_versions (Prelude.◌>>=◌ (Tree.get "versions" root) as_object)
  ok (root, name, versions)

abbrev pub keys_of : Option Entries → List String
keys_of none = []
keys_of (some versions) = Prelude.map (λ entry. entry.0) versions

-- `PolicyOutcome::surviving_versions`.
unfoldable pub surviving_versions : PolicyOutcome → List String
surviving_versions outcome =
    keys_of (Prelude.◌>>=◌ (Json.get "versions" outcome.packument) as_object)

module _ (env : External) where
  open env use {Instant}

  abbrev rebuild_tags : PolicyConfig → List String → Option Entries → Entries → Entries
  rebuild_tags config surviving none out = out
  rebuild_tags config surviving (some tags) out =
      Tree.insert "dist-tags"
        (of_map
          (if config.allow_dist_tag_downgrade then repoint_dist_tags env tags surviving else tags))
        out

  abbrev rebuild_time : List String → Entries → Option Entries → Entries → Entries
  rebuild_time surviving versions none out = out
  rebuild_time surviving versions (some time) out =
      Tree.insert "time" (of_map (keep_time surviving versions time)) out

  -- The document without what was withheld.
  unfoldable pub rebuild : PolicyConfig → Entries → Entries → List String → Entries
  rebuild config root versions surviving =
      let out = Tree.insert "versions" (of_map (keep_versions surviving versions)) root in
      let time = Prelude.◌>>=◌ (Tree.get "time" root) as_object in
      let tags = Prelude.◌>>=◌ (Tree.get "dist-tags" root) as_object in
      rebuild_tags config surviving tags (rebuild_time surviving versions time out)

  module _ {S : Type 0} (rules : RuleStore S) (ledger : IntegrityLedger env S) where
    -- The loop over the versions, in the order of the document.
    unfoldable pub judge :
        String → Option Entries → PolicyConfig → Instant → Entries → S → Judged × S
    judge name time config now [] s = (record { blocked = []; surviving = [] }, s)
    judge name time config now ((version, meta) ∷ versions) s =
        let published = published_in time version in
        let (decision, s') =
          evaluate_version env rules ledger name version meta published config now s in
        let (judged, s'') = judge name time config now versions s' in
        (note version decision judged, s'')

    abbrev pub evaluate_parsed :
        Result PolicyError (Entries × String × Entries)
        → PolicyConfig
        → Instant
        → S
        → Result PolicyError PolicyOutcome × S
    evaluate_parsed (err e) config now s = (err e, s)
    evaluate_parsed (ok (root, name, versions)) config now s =
        let time = Prelude.◌>>=◌ (Tree.get "time" root) as_object in
        let (judged, s') = judge name time config now versions s in
        (
          ok (record {
            packument = of_map (rebuild config root versions judged.surviving);
            blocked = judged.blocked;
          }),
          s',
        )

    unfoldable pub evaluate :
        Value → PolicyConfig → Instant → S → Result PolicyError PolicyOutcome × S
    evaluate packument config now s = evaluate_parsed (parse packument) config now s
