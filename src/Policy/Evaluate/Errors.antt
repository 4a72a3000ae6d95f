-- ===== src/Policy/Evaluate/Errors.antt =====
-- When `evaluate` of src/policy/mod.rs fails.
use npmfilter.Prelude.{none, ◌≡◌, ◌≢◌, ◌↔◌, arith, ◌>>=◌}
use npmfilter.Prelude.Result.{err}
use npmfilter.External.{External}
use npmfilter.Json.{Value, get, as_object, as_str}
use npmfilter.Policy.Types.{
  PolicyConfig, PolicyError, not_an_object, missing_name, missing_versions, RuleStore,
  IntegrityLedger,
}
use npmfilter.Policy.Evaluate.{parse, evaluate}

-- What is wrong with a document, the first thing in the order of the checks.
abbrev pub IsMalformed : PolicyError → Value → Type 0
IsMalformed not_an_object document = as_object document ≡ none
IsMalformed missing_name document =
    (as_object document ≢ none) × ((get "name" document >>= as_str) ≡ none)
IsMalformed missing_versions document =
    (as_object document ≢ none)
    × ((get "name" document >>= as_str) ≢ none)
    × ((get "versions" document >>= as_object) ≡ none)

parse-fails_iff :
    (document : Value) (e : PolicyError) → (parse document ≡ err e) ↔ IsMalformed e document
unfolding parse
parse-fails_iff document not_an_object = ground arith
parse-fails_iff document _ = ground arith

module _ (env : External) {S : Type 0} (rules : RuleStore S) (ledger : IntegrityLedger env S)
    (document : Value) (config : PolicyConfig) (now : env.Instant) (s : S) where
  -- The engine fails with an error exactly if the document is malformed in that way, and then it has
  -- touched neither the rules nor the ledger.
  pub evaluate-fails_iff :
      (e : PolicyError)
      → (evaluate env rules ledger document config now s ≡ (err e, s)) ↔ IsMalformed e document
  unfolding evaluate
  evaluate-fails_iff e = ground (arith, parse-fails_iff document e)
