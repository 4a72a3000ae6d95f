-- ===== src/Tests/Documents.antt =====
-- `evaluate` on a whole packument.
use npmfilter.Prelude.{
  ◌≡◌, ◌≢◌, refl, none, some, [], ◌∷◌, true, arith, String, ◌&&◌, not, eq_iff, if◌then◌else◌, ◌⊎◌,
}
use npmfilter.Prelude.Text.{strip_prefix}
use npmfilter.Prelude.Int.{lt_int}
use npmfilter.Prelude.Dict
use npmfilter.Prelude.Tree
use npmfilter.Prelude.Result.{ok, err}
use npmfilter.Json.{Value, null, string, object, field, end, get, as_str}
use npmfilter.Policy.Types.{PolicyOutcome, Decision, admit, install_script, missing_name}
use npmfilter.Policy.Meta.{
  version_identity, runs_install_script, version_integrity, install_hooks, flags_install_script,
  is_bypassed_scope, package_scope,
}
use npmfilter.Policy.Messages.{commands_detail}
use npmfilter.Policy.Gates.{
  gates, evaluate_version, ledger_gate, deny_gate, quarantine_gate, approval_gate, bypass_gate,
  identity_gate, age_gate, hooks_gate,
}
use npmfilter.Policy.Tags.{repoint_dist_tags, target_is_stable}
use npmfilter.Policy.Tags.Targets.{IsGone, StaysStable, repoint_dist_tags-survives}
use npmfilter.Policy.Memory.{Memory, memory_rules, memory_ledger, observe, lookup_rule, observe_in}
use npmfilter.Policy.Evaluate.{
  Entries, new_record, parse, judge, keep_versions, keep_time, rebuild, evaluate,
}
use npmfilter.Policy.Evaluate.Judge.{Decides, is_withheld}
use npmfilter.Policy.Evaluate.Outcome.{
  IsPackument, section, evaluate_splits, evaluate-admits, evaluate-blocks, get-evaluate_time,
  get-evaluate_other, evaluate_tags,
}
use npmfilter.Policy.Evaluate.Errors.{evaluate-fails_iff}
use npmfilter.Proxy.Shape.{find_record}
use npmfilter.Proxy.Serve.{Response, refused, withheld_body, unknown_body, found_or, serve_version}
use npmfilter.Proxy.Serve.Answers.{Names, serve_version-evaluate}
use npmfilter.Tests.Sample.{
  env, now, config, old_date, plain, hooked, versions, times, tags, packument,
}

-- The root of the packument, and the packument without the version that runs a hook.
abbrev pub root : Entries
root =
    ("dist-tags", object (field "latest" (string "1.1.0") end))
    ∷ ("name", string "pkg")
    ∷ ("readme", string "hello")
    ∷ (
      "time",
      object (
          field "1.0.0" (string old_date)
            (field "1.1.0" (string old_date) (field "modified" (string old_date) end))),
    )
    ∷ ("versions", object (field "1.0.0" plain (field "1.1.0" hooked end)))
    ∷ []

abbrev filtered : Value
filtered = object (
    field "dist-tags" (object (field "latest" (string "1.1.0") end)) (
      field "name" (string "pkg") (
        field "readme" (string "hello") (
          field "time"
            (object (field "1.0.0" (string old_date) (field "modified" (string old_date) end)))
            (field "versions" (object (field "1.0.0" plain end)) end)))))

abbrev outcome : PolicyOutcome
outcome = record {
  packument = filtered;
  blocked = new_record "1.1.0" install_script (commands_detail env (install_hooks env hooked)) ∷ [];
}

abbrev start : Memory env
start = ([], [])

abbrev final : Memory env
final =
    (observe_in env "pkg" "1.1.0" (version_identity hooked) now
      (observe_in env "pkg" "1.0.0" (version_identity plain) now start).1).1

returned :
    evaluate env (memory_rules env) (memory_ledger env) packument config now start
    ≡ (ok outcome, final)
unfolding evaluate parse judge keep_versions keep_time rebuild evaluate_version ledger_gate gates
    deny_gate quarantine_gate approval_gate bypass_gate identity_gate age_gate hooks_gate observe
    lookup_rule Dict.get Dict.insert Tree.get Tree.insert Tree.contains Tree.add runs_install_script
    install_hooks flags_install_script version_identity version_integrity is_bypassed_scope
    package_scope strip_prefix lt_int
returned = refl

pub parsed : IsPackument packument root "pkg" versions
unfolding Tree.get
parsed = record { is_object = refl; named = refl; versioned = refl; distinct = (refl, (refl, tt)) }

evaluate_splits_example :
    (Tree.contains_key "1.1.0" (section "versions" filtered)
      ≡ (Tree.contains_key "1.1.0" versions && not (is_withheld "1.1.0" outcome.blocked)))
    × (is_withheld "1.1.0" outcome.blocked ≡ (
        Tree.contains_key "1.1.0" versions
        && not (Tree.contains_key "1.1.0" (section "versions" filtered))))
evaluate_splits_example =
    evaluate_splits env (memory_rules env) (memory_ledger env) packument config now start parsed
      returned "1.1.0"

evaluate-admits_example :
    (Tree.get "1.0.0" versions ≡ some plain)
    × Decides env
        (memory_rules env)
        (memory_ledger env)
        "pkg"
        (some times)
        config
        now
        "1.0.0"
        plain
        admit
unfolding section Tree.get
evaluate-admits_example =
    evaluate-admits env (memory_rules env) (memory_ledger env) packument config now start parsed
      returned "1.0.0" plain refl

evaluate-blocks_example :
    (meta : Value) × (decision : Decision) × (Tree.get "1.1.0" versions ≡ some meta)
    × Decides env
        (memory_rules env)
        (memory_ledger env)
        "pkg"
        (some times)
        config
        now
        "1.1.0"
        meta
        decision
    × (decision ≢ admit)
unfolding new_record Tree.get
evaluate-blocks_example =
    evaluate-blocks env (memory_rules env) (memory_ledger env) packument config now start parsed
      returned "1.1.0" refl

get-evaluate_time_example :
    Tree.get "modified" (section "time" filtered)
    ≡ (if is_withheld "modified" outcome.blocked then none else Tree.get "modified" times)
unfolding Tree.get
get-evaluate_time_example =
    get-evaluate_time env (memory_rules env) (memory_ledger env) packument config now start parsed
      returned "modified" times refl

get-evaluate_other_example : get "readme" filtered ≡ get "readme" packument
get-evaluate_other_example =
    get-evaluate_other env (memory_rules env) (memory_ledger env) packument config now start parsed
      returned "readme" (ground (arith, eq_iff "readme" "versions"))
      (ground (arith, eq_iff "readme" "time")) (ground (arith, eq_iff "readme" "dist-tags"))

evaluate_tags_example : section "dist-tags" filtered ≡ tags
unfolding Tree.get
evaluate_tags_example =
    evaluate_tags env (memory_rules env) (memory_ledger env) packument config now start parsed
      returned tags refl refl

evaluate-fails_iff_example :
    evaluate env
      (memory_rules env)
      (memory_ledger env)
      (object (field "name" null end))
      config
      now
      start
    ≡ (err missing_name, start)
unfolding Tree.get
evaluate-fails_iff_example =
    (evaluate-fails_iff env (memory_rules env) (memory_ledger env) (object (field "name" null end))
        config now start missing_name).1
      (ground arith, refl)

-- A newer version survived, and the tag stays where it is.
repoint_dist_tags-survives_example :
    (target : Value) × (t : String) × (Tree.get "latest" tags ≡ some target)
    × (string "1.1.0" ≡ string t)
    × (Tree.contains t ("1.1.0" ∷ "2.0.0" ∷ []) ≡ true)
    × ((as_str target ≡ some t)
        ⊎ (IsGone env ("1.1.0" ∷ "2.0.0" ∷ []) (as_str target)
            × StaysStable env ("1.1.0" ∷ "2.0.0" ∷ []) (target_is_stable env (as_str target)) t))
unfolding repoint_dist_tags Tree.get Tree.contains Tree.insert
repoint_dist_tags-survives_example =
    repoint_dist_tags-survives env tags ("1.1.0" ∷ "2.0.0" ∷ []) "latest" (string "1.1.0")
      (refl, tt) refl

-- The tag names the version that is withheld.
serve_version-evaluate_example :
    (v : String) × Names outcome.packument "latest" v
    × (serve_version "pkg" "latest" outcome
        ≡ (elim (find_record v outcome.blocked) as (λ _. Response) [
          | some withheld ↦ refused (withheld_body "pkg" "latest" v withheld)
          | none ↦ found_or (Tree.get v versions) (refused (unknown_body "pkg" "latest"))
        ]))
serve_version-evaluate_example =
    serve_version-evaluate env (memory_rules env) (memory_ledger env) packument config now start
      parsed returned "latest"
