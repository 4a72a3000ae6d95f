-- ===== src/Policy/Gates/Reasons.antt =====
-- What each reason says of the version that `evaluate_version` of src/policy/mod.rs blocks.
use npmfilter.Prelude.{
  String, true, false, Option, none, some, ◌≡◌, ◌≢◌, ◌⊎◌, inl, inr, arith, Option-cases, eq_iff,
}
use npmfilter.External.{External}
use npmfilter.Json.{Value}
use npmfilter.Policy.Types.{
  PolicyConfig, Rule, allow, deny, BlockReason, integrity_changed, deny_rule, too_new,
  install_script, scripts_changed, no_integrity, install_script_quarantine, Decision, admit, block,
}
use npmfilter.Policy.Meta.{
  version_identity, version_integrity, scripts_sha256, runs_install_script, is_bypassed_scope,
}
use npmfilter.Policy.Gates.{
  deny_gate, bypass_gate, quarantine_gate, approval_gate, identity_gate, age_gate, hooks_gate,
  gates,
}
use npmfilter.Policy.Gates.Conditions.{
  IsPast, PassesFloor, quarantine_gate_iff, deny_gate_iff, approval_gate-none, same_text_iff,
  identity_gate_iff, age_gate_iff, hooks_gate_iff,
}

-- A gate that goes on, or blocks for one reason.
abbrev BlocksFor : BlockReason → Option Decision → Type 0
BlocksFor reason gate = (gate ≡ none) ⊎ ((detail : String) × (gate ≡ some (block reason detail)))

deny_gate_blocks : (rule : Option Rule) → BlocksFor deny_rule (deny_gate rule)
unfolding deny_gate
deny_gate_blocks none = ground arith
deny_gate_blocks (some r) = ground arith

module _ (env : External) where
  open env use {Instant, num_seconds}

  abbrev pub IsAged : Option String → PolicyConfig → Instant → Type 0
  IsAged published config now =
      (config.min_age_days ≡ 0) ⊎ IsPast env config.min_age_days published now

  abbrev pub IsNotDenied : Option Rule → Type 0
  IsNotDenied none = Unit
  IsNotDenied (some r) = r.verdict ≡ allow

  -- What holds of a version that is blocked for a reason.
  abbrev pub Explains :
      BlockReason → Option Rule → String → Value → Option String → PolicyConfig → Instant → Type 0
  Explains deny_rule rule name meta published config now =
      (r : Rule) × (rule ≡ some r) × (r.verdict ≡ deny)
  Explains install_script_quarantine rule name meta published config now =
      IsNotDenied rule × ¬ PassesFloor env name meta published config now
  Explains integrity_changed rule name meta published config now =
      PassesFloor env name meta published config now
      × ((r : Rule) × (rule ≡ some r)
          × (r.verdict ≡ allow)
          × (r.integrity ≢ version_integrity meta))
  Explains scripts_changed rule name meta published config now =
      PassesFloor env name meta published config now
      × ((r : Rule) × (rule ≡ some r)
          × (r.verdict ≡ allow)
          × (r.integrity ≡ version_integrity meta)
          × (r.scripts_sha256 ≢ none)
          × (r.scripts_sha256 ≢ some (scripts_sha256 env meta)))
  Explains no_integrity rule name meta published config now =
      PassesFloor env name meta published config now
      × (rule ≡ none)
      × (is_bypassed_scope name config ≡ false)
      × (version_identity meta ≡ none)
  Explains too_new rule name meta published config now =
      PassesFloor env name meta published config now
      × (rule ≡ none)
      × (is_bypassed_scope name config ≡ false)
      × (version_identity meta ≢ none)
      × ¬ IsAged published config now
  Explains install_script rule name meta published config now =
      PassesFloor env name meta published config now
      × (rule ≡ none)
      × (is_bypassed_scope name config ≡ false)
      × (version_identity meta ≢ none)
      × IsAged published config now
      × (runs_install_script env meta ≡ true)

  module _ (name version : String) (meta : Value) (published : Option String)
      (config : PolicyConfig) (now : Instant) where
    quarantine_gate_blocks :
        BlocksFor install_script_quarantine (quarantine_gate env name meta published config now)
    unfolding quarantine_gate
    quarantine_gate_blocks = ground arith

    identity_gate_blocks : BlocksFor no_integrity (identity_gate env name version meta)
    unfolding identity_gate
    identity_gate_blocks = ground arith

    age_gate_blocks : BlocksFor too_new (age_gate env version published config now)
    unfolding age_gate
    age_gate_blocks = ground arith

    hooks_gate_blocks : BlocksFor install_script (hooks_gate env meta)
    unfolding hooks_gate
    hooks_gate_blocks = ground arith

    abbrev Pinning : Rule → Option Decision → Type 0
    Pinning r gate =
        (gate ≡ some admit)
        ⊎ ((r.integrity ≢ version_integrity meta)
            × ((detail : String) × (gate ≡ some (block integrity_changed detail))))
        ⊎ ((r.integrity ≡ version_integrity meta)
            × (r.scripts_sha256 ≢ none)
            × (r.scripts_sha256 ≢ some (scripts_sha256 env meta))
            × ((detail : String) × (gate ≡ some (block scripts_changed detail))))

    approval_gate_blocks :
        (r : Rule) → r.verdict ≡ allow → Pinning r (approval_gate env name version meta (some r))
    unfolding approval_gate
    approval_gate_blocks r h = elim (Option-cases r.scripts_sha256) [
      | inl e ↦ ground (arith, same_text_iff r.integrity (version_integrity meta))
      | inr (approved, e) ↦ ground (
        arith,
        same_text_iff r.integrity (version_integrity meta),
        eq_iff approved (scripts_sha256 env meta),
      )
    ]

    -- With a rule, a block is its denial, the floor, or a mismatch with what it covers.
    gates-Explains_rule :
        (r : Rule) (reason : BlockReason) (detail : String)
        → gates env (some r) name version meta published config now ≡ block reason detail
        → Explains reason (some r) name meta published config now
    unfolding gates
    gates-Explains_rule r deny_rule detail h = ground (
      arith,
      deny_gate_blocks (some r),
      deny_gate_iff (some r),
      quarantine_gate_blocks,
      quarantine_gate_iff env name meta published config now,
      approval_gate_blocks r,
    )
    gates-Explains_rule r _ detail h = ground (
      arith,
      deny_gate_blocks (some r),
      deny_gate_iff (some r),
      quarantine_gate_blocks,
      quarantine_gate_iff env name meta published config now,
      approval_gate_blocks r,
    )

    gates-Explains-none :
        (reason : BlockReason) (detail : String)
        → gates env none name version meta published config now ≡ block reason detail
        → Explains reason none name meta published config now
    unfolding gates bypass_gate
    gates-Explains-none deny_rule detail h = ground (
      arith,
      deny_gate_blocks none,
      deny_gate_iff none,
      quarantine_gate_blocks,
      quarantine_gate_iff env name meta published config now,
      approval_gate-none env name version meta,
      identity_gate_blocks,
      identity_gate_iff env name version meta,
      age_gate_blocks,
      age_gate_iff env version published config now,
      hooks_gate_blocks,
      hooks_gate_iff env meta,
    )
    gates-Explains-none _ detail h = ground (
      arith,
      deny_gate_blocks none,
      deny_gate_iff none,
      quarantine_gate_blocks,
      quarantine_gate_iff env name meta published config now,
      approval_gate-none env name version meta,
      identity_gate_blocks,
      identity_gate_iff env name version meta,
      age_gate_blocks,
      age_gate_iff env version published config now,
      hooks_gate_blocks,
      hooks_gate_iff env meta,
    )

    -- A block below the ledger tells the truth about the version, and that no gate above it applied:
    -- `deny_rule` that a deny rule stands; `install_script_quarantine` that the version is not past
    -- the floor and not denied; each other reason that it is past the floor, and then
    -- `integrity_changed` and `scripts_changed` that an allow rule pins another hash, or the same
    -- hash and other commands; `no_integrity`, `too_new` and `install_script` that there is no rule
    -- and no bypass, and that the version has no content hash; or has one and is too young or
    -- undated; or has one, is old enough and runs an install script.
    pub gates-Explains :
        (rule : Option Rule) (reason : BlockReason) (detail : String)
        → gates env rule name version meta published config now ≡ block reason detail
        → Explains reason rule name meta published config now
    gates-Explains none = gates-Explains-none
    gates-Explains (some r) = gates-Explains_rule r
