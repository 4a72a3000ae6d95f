-- ===== src/Policy/Gates/Admission.antt =====
-- Which versions `evaluate_version` of src/policy/mod.rs admits.
use npmfilter.Prelude.{String, true, false, Option, none, some, ◌≡◌, ◌≢◌, ◌⊎◌, ◌↔◌, arith}
use npmfilter.External.{External}
use npmfilter.Json.{Value}
use npmfilter.Policy.Types.{
  PolicyConfig, Rule, LedgerCheck, changed, RuleStore, IntegrityLedger, admit, block,
  integrity_changed,
}
use npmfilter.Policy.Meta.{version_identity, runs_install_script, is_bypassed_scope}
use npmfilter.Policy.Messages.{changed_detail}
use npmfilter.Policy.Gates.{bypass_gate, ledger_gate, gates, evaluate_version}
use npmfilter.Policy.Gates.Conditions.{
  Covers, IsPast, PassesFloor, quarantine_gate_iff, deny_gate_iff, approval_gate-none,
  approval_gate_iff, approval_gate_decides, identity_gate_iff, age_gate_iff, hooks_gate_iff,
  quarantine_gate-ne-admit, identity_gate-ne-admit, age_gate-ne-admit, hooks_gate-ne-admit,
  deny_gate-ne-admit,
}

module _ (env : External) where
  open env use {Instant}

  -- What the automatic gates ask of a version for which there is no rule.
  pub record IsClear (name : String) (meta : Value) (published : Option String)
      (config : PolicyConfig) (now : Instant) : Type 0 where
    pub hashed : version_identity meta ≢ none
    pub aged : (config.min_age_days ≡ 0) ⊎ IsPast env config.min_age_days published now
    pub hookless : runs_install_script env meta ≡ false

  abbrev pub MayPass :
      Option Rule → String → Value → Option String → PolicyConfig → Instant → Type 0
  MayPass (some rule) name meta published config now = Covers env rule meta
  MayPass none name meta published config now =
      (is_bypassed_scope name config ≡ true) ⊎ IsClear name meta published config now

  pub gates-eq-admit_iff :
      (rule : Option Rule) (name version : String) (meta : Value) (published : Option String)
      (config : PolicyConfig) (now : Instant)
      → (gates env rule name version meta published config now ≡ admit) ↔ (
          PassesFloor env name meta published config now
          × MayPass rule name meta published config now)
  unfolding gates bypass_gate
  gates-eq-admit_iff none name version meta published config now = ground (
    arith,
    deny_gate_iff none,
    quarantine_gate_iff env name meta published config now,
    approval_gate-none env name version meta,
    identity_gate_iff env name version meta,
    age_gate_iff env version published config now,
    hooks_gate_iff env meta,
    quarantine_gate-ne-admit env name version meta published config now,
    identity_gate-ne-admit env name version meta published config now,
    age_gate-ne-admit env name version meta published config now,
    hooks_gate-ne-admit env name version meta published config now,
  )
  gates-eq-admit_iff (some r) name version meta published config now = ground (
    arith,
    deny_gate_iff (some r),
    deny_gate-ne-admit (some r),
    quarantine_gate_iff env name meta published config now,
    quarantine_gate-ne-admit env name version meta published config now,
    approval_gate_iff env name version meta r,
    approval_gate_decides env name version meta r,
  )

  abbrev pub IsUnchanged : LedgerCheck → Type 0
  IsUnchanged (changed recorded) = ⊥
  IsUnchanged _ = Unit

  module _ {S : Type 0} (rules : RuleStore S) (ledger : IntegrityLedger env S)
      (name version : String) (meta : Value) (published : Option String) (config : PolicyConfig)
      (now : Instant) (s : S) where
    abbrev seen : LedgerCheck × S
    seen = ledger.observe name version (version_identity meta) now s

    -- A version is admitted exactly if the ledger does not report another identity, the version is
    -- past the quarantine floor or the floor does not concern it, and either an allow rule covers
    -- what it carries, or there is no rule and its scope is bypassed or it has a content hash, the
    -- minimum age and no install script. The rule is the one that the store gives after the
    -- observation.
    pub evaluate_version-eq-admit_iff :
        ((evaluate_version env rules ledger name version meta published config now s).0 ≡ admit) ↔ (
          IsUnchanged seen.0
          × PassesFloor env name meta published config now
          × MayPass (rules.lookup name version seen.1).0 name meta published config now)
    unfolding evaluate_version ledger_gate
    evaluate_version-eq-admit_iff = ground (
      arith,
      gates-eq-admit_iff (rules.lookup name version seen.1).0 name version meta published config
          now,
    )

    -- If the ledger reports another identity the version is blocked as `integrity_changed`,
    -- whatever the rules say, and the rules are not even read: the state is the ledger's.
    pub evaluate_version_changed :
        {recorded : Option String}
        → seen.0 ≡ changed recorded
        → evaluate_version env rules ledger name version meta published config now s ≡ (
          block integrity_changed
              (changed_detail env name version recorded (version_identity meta)),
          seen.1,
        )
    unfolding evaluate_version ledger_gate
    evaluate_version_changed h = ground arith
