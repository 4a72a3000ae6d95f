-- ===== src/Policy/Evaluate/Denied.antt =====
-- The engine of src/policy/mod.rs over stores that refuse one version for good.
use npmfilter.Prelude.{
  String, false, Option, none, some, [], ◌∷◌, ◌≡◌, ◌≢◌, refl, sym, subst, ◌>>=◌, arith, eq_iff,
}
use npmfilter.Prelude.Tree
use npmfilter.Prelude.Result.{ok}
use npmfilter.External.{External}
use npmfilter.Json.{Value, as_object}
use npmfilter.Policy.Types.{
  PolicyConfig, PolicyOutcome, Rule, allow, RuleStore, IntegrityLedger, Decision, admit, block,
}
use npmfilter.Policy.Meta.{version_identity}
use npmfilter.Policy.Gates.{evaluate_version}
use npmfilter.Policy.Gates.Admission.{MayPass, evaluate_version-eq-admit_iff}
use npmfilter.Policy.Evaluate.{Entries, published_in, Judged, note, judge, evaluate}
use npmfilter.Policy.Evaluate.Judge.{is_withheld}
use npmfilter.Policy.Evaluate.Outcome.{section, IsPackument, evaluate_splits, get-served}
use npmfilter.Policy.Evaluate.Simulation.{judged_by, evaluate_version_eq}

-- A rule that is not an allow rule.
abbrev pub IsRefusal : Option Rule → Type 0
IsRefusal found = (rule : Rule) × (found ≡ some rule) × (rule.verdict ≢ allow)

-- As long as a state has the property `I`, the rule of the version is not an allow rule, and no use of
-- the stores takes the property away.
pub record Refuses (env : External) (S : Type 0) (I : S → Type 0) (rules : RuleStore S)
    (ledger : IntegrityLedger env S) (name version : String) : Type 0 where
  pub lookup_refuses : (s : S) → I s → IsRefusal (rules.lookup name version s).0
  pub lookup_keeps : (n v : String) (s : S) → I s → I (rules.lookup n v s).1
  pub observe_keeps :
      (n v : String) (identity : Option String) (now : env.Instant) (s : S)
      → I s
      → I (ledger.observe n v identity now s).1

module _ (env : External) {S : Type 0} {I : S → Type 0} {rules : RuleStore S}
    {ledger : IntegrityLedger env S} {name version : String}
    (laws : Refuses env S I rules ledger name version) where
  MayPass-refusal :
      (found : Option Rule) (meta : Value) (published : Option String) (config : PolicyConfig)
      (now : env.Instant)
      → IsRefusal found
      → MayPass env found name meta published config now
      → ⊥
  MayPass-refusal none meta published config now (rule, e, refused) passes = cc
  MayPass-refusal (some r) meta published config now (rule, e, refused) passes =
      let allows : r.verdict ≡ allow = passes.allows in ground arith

  evaluate_version-refused :
      (meta : Value) (published : Option String) (config : PolicyConfig) (now : env.Instant) (s : S)
      → I s
      → (evaluate_version env rules ledger name version meta published config now s).0 ≢ admit
  evaluate_version-refused meta published config now s i admitted =
      let conditions =
        (evaluate_version-eq-admit_iff env rules ledger name version meta published config now s).0
          admitted in
      MayPass-refusal _ meta published config now
        (laws.lookup_refuses _ (laws.observe_keeps name version (version_identity meta) now s i))
        conditions.2

  judged_by-keeps :
      (v : String) (meta : Value) (published : Option String) (config : PolicyConfig)
      (now : env.Instant) (gate : Option Decision) (s : S)
      → I s
      → I (judged_by env rules name v meta published config now gate s).1
  judged_by-keeps v meta published config now (some decision) s i = i
  judged_by-keeps v meta published config now none s i = laws.lookup_keeps name v s i

  evaluate_version-keeps :
      (v : String) (meta : Value) (published : Option String) (config : PolicyConfig)
      (now : env.Instant) (s : S)
      → I s
      → I (evaluate_version env rules ledger name v meta published config now s).1
  evaluate_version-keeps v meta published config now s i =
      rw (evaluate_version_eq env rules ledger name now v meta published config s) (
        judged_by-keeps v meta published config now _ _
          (laws.observe_keeps name v (version_identity meta) now s i))

  contains-note :
      (v : String) (decision : Decision) (judged : Judged)
      → Tree.contains version judged.surviving ≡ false
      → (v ≡ version → decision ≢ admit)
      → Tree.contains version (note v decision judged).surviving ≡ false
  contains-note v admit judged absent refused =
      ground (arith, Tree.contains-add v version judged.surviving, eq_iff v version)
  contains-note v (block reason detail) judged absent refused = absent

  contains-judge :
      (time : Option Entries) (config : PolicyConfig) (now : env.Instant) (versions : Entries)
      (s : S)
      → I s
      → Tree.contains version (judge env rules ledger name time config now versions s).0.surviving
        ≡ false
  unfolding judge Tree.contains
  contains-judge time config now [] s i = refl
  contains-judge time config now ((v, meta) ∷ versions) s i =
      let published = published_in time v in
      let (decision, s') = evaluate_version env rules ledger name v meta published config now s in
      contains-note v decision (judge env rules ledger name time config now versions s').0
        (contains-judge time config now versions s'
          (evaluate_version-keeps v meta published config now s i))
        (λ same.
          subst
            (λ w. (evaluate_version env rules ledger name w meta published config now s).0 ≢ admit)
            (sym same) (evaluate_version-refused meta published config now s i))

  -- A version that the stores refuse is not served, and it is withheld if the packument has it.
  pub evaluate-refused :
      (document : Value) (config : PolicyConfig) (now : env.Instant) (s : S) {s' : S}
      {root : Entries} {versions : Entries} {outcome : PolicyOutcome}
      → IsPackument document root name versions
      → evaluate env rules ledger document config now s ≡ (ok outcome, s')
      → I s
      → (Tree.contains_key version (section "versions" outcome.packument) ≡ false)
        × (is_withheld version outcome.blocked ≡ Tree.contains_key version versions)
  evaluate-refused document config now s {root = root} {versions = versions} {outcome = outcome} p
        returned i =
      let absent = contains-judge (Tree.get "time" root >>= as_object) config now versions s i in
      let unserved : Tree.get version (section "versions" outcome.packument) ≡ none =
        ground
          (arith, get-served env rules ledger document config now s p returned version, absent) in
      let splits = evaluate_splits env rules ledger document config now s p returned version in
      ground (arith, unserved, splits)
