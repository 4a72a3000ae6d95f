-- ===== src/Tests/Refusals.antt =====
-- A request for a package with a version that the state database refuses.
use npmfilter.Prelude.{true, false, none, some, [], ◌≡◌, ◌≢◌, refl, arith, eq_iff}
use npmfilter.Prelude.Dict
use npmfilter.Prelude.Dict.{pair_eq, text_eq}
use npmfilter.Prelude.Tree
use npmfilter.Prelude.Int.{lt_int}
use npmfilter.Prelude.Text.{strip_prefix}
use npmfilter.Prelude.Result.{Result, ok, err}
use npmfilter.Json.{null}
use npmfilter.Policy.Types.{PolicyOutcome, new_deny}
use npmfilter.Policy.Meta.{
  version_identity, version_integrity, runs_install_script, install_hooks, flags_install_script,
  is_bypassed_scope, package_scope,
}
use npmfilter.Policy.Gates.{
  evaluate_version, ledger_gate, gates, deny_gate, quarantine_gate, approval_gate, bypass_gate,
  identity_gate, age_gate, hooks_gate,
}
use npmfilter.Policy.Evaluate
use npmfilter.Policy.Evaluate.{parse, judge, keep_versions, keep_time, rebuild}
use npmfilter.Policy.Evaluate.Judge.{is_withheld}
use npmfilter.Policy.Evaluate.Outcome.{section}
use npmfilter.Store.Connection.{in_transaction, attempt, select, execute, statement}
use npmfilter.Store.Tables.{insert_seen, insert_audit, latest_detail}
use npmfilter.Store.Rows.{stored_rule, parse_verdict, timestamp, verdict_str}
use npmfilter.Store.Ledger.{
  recorded_integrity, record_observation, observe_each, try_observe_batch, try_observe_with,
}
use npmfilter.Store.Rules.{try_lookup_rule}
use npmfilter.Store.Audit.{record_blocks, record_each, append_if_new, append_audit, audit_columns}
use npmfilter.Store.FailClosed.{
  lookup, observe_batch, observe_with, take_failure, clear_failure, note_failure,
}
use npmfilter.Proxy.Errors.{ProxyError}
use npmfilter.Proxy.Requests.{observations, collect_checks, evaluate}
use npmfilter.Proxy.Requests.Refused.{evaluate-refuses}
use npmfilter.Tests.Sample.{env, now, config, versions, packument}
use npmfilter.Tests.Documents.{root, parsed}
use npmfilter.Tests.Stores.{store, rule_row}

abbrev outcome_of : Result ProxyError PolicyOutcome → PolicyOutcome
outcome_of (ok outcome) = outcome
outcome_of (err e) = record { packument = null; blocked = [] }

-- The answer, when upstream was not asked again.
abbrev answered : PolicyOutcome
answered = outcome_of (evaluate env packument "pkg" config true none now store).0

is_answered : (evaluate env packument "pkg" config true none now store).0 ≡ ok answered
unfolding evaluate Evaluate.evaluate parse judge keep_versions keep_time rebuild evaluate_version
    ledger_gate gates deny_gate quarantine_gate approval_gate bypass_gate identity_gate age_gate
    hooks_gate Dict.get Dict.insert Tree.get Tree.insert Tree.contains Tree.add runs_install_script
    install_hooks flags_install_script version_identity version_integrity is_bypassed_scope
    package_scope strip_prefix lt_int in_transaction attempt select execute statement insert_seen
    insert_audit latest_detail stored_rule parse_verdict timestamp recorded_integrity
    record_observation observe_each try_observe_batch try_observe_with try_lookup_rule record_blocks
    record_each append_if_new append_audit audit_columns lookup observe_batch observe_with
    take_failure clear_failure note_failure observations collect_checks new_deny
is_answered = refl

is_found : Dict.get ("pkg", "1.1.0") store.conn.tables.rules ≡ some rule_row
unfolding Dict.get
is_found = refl

is_refusal : rule_row.verdict ≢ "allow"
is_refusal same = ground (arith, (eq_iff "deny" "allow").1 same)

evaluate-refuses_example :
    (Tree.contains_key "1.1.0" (section "versions" answered.packument) ≡ false)
    × (is_withheld "1.1.0" answered.blocked ≡ Tree.contains_key "1.1.0" versions)
unfolding verdict_str
evaluate-refuses_example =
    evaluate-refuses env packument "pkg" config true none now store root versions "pkg" "1.1.0"
      rule_row answered parsed is_found is_refusal is_answered
