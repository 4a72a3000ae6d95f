-- ===== src/Tests/Engine.antt =====
-- The gates at single versions.
use npmfilter.Prelude.{◌≡◌, ◌≢◌, ◌+◌, arith, refl, inl, inr, none, some, []}
use npmfilter.Prelude.Dict
use npmfilter.Prelude.Tree
use npmfilter.Policy.Types.{admit, install_script}
use npmfilter.Policy.Meta.{
  version_identity, runs_install_script, version_integrity, install_hooks, flags_install_script,
  is_bypassed_scope, package_scope,
}
use npmfilter.Prelude.Text.{strip_prefix}
use npmfilter.Prelude.Int.{lt_int}
use npmfilter.Policy.Gates.{
  gates, evaluate_version, deny_gate, quarantine_gate, approval_gate, bypass_gate, identity_gate,
  age_gate, hooks_gate,
}
use npmfilter.Policy.Gates.Admission.{evaluate_version-eq-admit_iff}
use npmfilter.Policy.Gates.Reasons.{Explains, gates-Explains}
use npmfilter.Policy.Gates.Later.{IsLater, gates-later}
use npmfilter.Policy.Memory.{memory_rules, memory_ledger, observe, lookup_rule}
use npmfilter.Policy.Memory.Verdicts.{evaluate_version-insert_deny, evaluate_version-insert_allow}
use npmfilter.Policy.Types.{new_allow, new_deny}
use npmfilter.Policy.Memory.{insert_rule}
use npmfilter.Policy.Messages.{commands_detail}
use npmfilter.Tests.Sample.{env, now, config, old_date, plain, hooked, approval}

evaluate_version-eq-admit_iff_example :
    (evaluate_version env
      (memory_rules env)
      (memory_ledger env)
      "pkg"
      "1.0.0"
      plain
      (some old_date)
      config
      now
      ([], [])).0
    ≡ admit
unfolding observe lookup_rule Dict.get Tree.get Dict.insert runs_install_script install_hooks
    flags_install_script version_identity version_integrity lt_int
evaluate_version-eq-admit_iff_example =
    (evaluate_version-eq-admit_iff env (memory_rules env) (memory_ledger env) "pkg" "1.0.0" plain
        (some old_date) config now ([], [])).1
      (
        tt,
        inr (inl refl),
        inr (record {
          hashed = ground arith;
          aged = inr (old_date, 0, refl, refl, refl);
          hookless = refl;
        }),
      )

gates-Explains_example : Explains env install_script none "pkg" hooked (some old_date) config now
unfolding gates deny_gate quarantine_gate approval_gate bypass_gate identity_gate age_gate
    hooks_gate Tree.get runs_install_script install_hooks flags_install_script version_identity
    version_integrity lt_int is_bypassed_scope package_scope strip_prefix
gates-Explains_example =
    gates-Explains env "pkg" "1.1.0" hooked (some old_date) config now none install_script
      (commands_detail env (install_hooks env hooked)) refl

clock-IsLater : IsLater env now (now + 1)
unfolding lt_int
clock-IsLater at = ground arith

gates-later_example :
    gates env (some approval) "pkg" "1.1.0" hooked (some old_date) config (now + 1) ≡ admit
unfolding gates deny_gate quarantine_gate approval_gate bypass_gate identity_gate age_gate
    hooks_gate Tree.get runs_install_script install_hooks flags_install_script version_identity
    version_integrity lt_int is_bypassed_scope package_scope strip_prefix
gates-later_example =
    gates-later env (some approval) "pkg" "1.1.0" hooked (some old_date) config now (now + 1)
      clock-IsLater refl

evaluate_version-insert_allow_example :
    (evaluate_version env
      (memory_rules env)
      (memory_ledger env)
      "pkg"
      "1.1.0"
      hooked
      (some old_date)
      config
      now
      (insert_rule (new_allow "pkg" "1.1.0" "sha512-BBBB") [], [])).0
    ≡ admit
unfolding observe Dict.get Tree.get version_integrity lt_int
evaluate_version-insert_allow_example =
    evaluate_version-insert_allow env "pkg" "1.1.0" hooked (some old_date) config now [] []
      "sha512-BBBB" refl tt (inr (inr (inr (old_date, 0, refl, refl, refl))))

-- A deny rule for a version that would be admitted.
evaluate_version-insert_deny_example :
    (evaluate_version env
      (memory_rules env)
      (memory_ledger env)
      "pkg"
      "1.0.0"
      plain
      (some old_date)
      config
      now
      (insert_rule (new_deny "pkg" "1.0.0") [], [])).0
    ≢ admit
evaluate_version-insert_deny_example =
    evaluate_version-insert_deny env "pkg" "1.0.0" plain (some old_date) config now [] []
