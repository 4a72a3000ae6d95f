-- ===== src/Policy/Gates.antt =====
-- `evaluate_version` of src/policy/mod.rs: the gates for one version, in the order of the source.
-- Each block of the source that may return early is a function here, which returns the decision or
-- `none` to go on; `decide` makes them in turn.
pub mod Conditions
pub mod Admission
pub mod Reasons
pub mod Later
use npmfilter.Prelude.{
  ℕ, ◌*◌, String, Bool, true, false, not, ◌&&◌, Option, none, some, is_none, List, [], ◌∷◌, ◌==◌,
  ◌>>=◌, ltb, if◌then◌else◌,
}
use npmfilter.Prelude.Int.{ℤ, pos, lt_int}
use npmfilter.External.{External}
use npmfilter.Json.{Value}
use npmfilter.Policy.Types.{
  PolicyConfig, integrity_changed, deny_rule, too_new, install_script, scripts_changed,
  no_integrity, install_script_quarantine, Rule, allow, deny, LedgerCheck, changed, RuleStore,
  IntegrityLedger, Decision, admit, block,
}
use npmfilter.Policy.Meta.{
  version_integrity, version_identity, install_hooks, runs_install_script, flags_install_script,
  is_bypassed_scope, scripts_sha256,
}
use npmfilter.Policy.Describe.{seconds_per_day}
use npmfilter.Policy.Messages.{
  deny_detail, undated_detail, flag_detail, changed_detail, quarantine_detail, pinned_detail,
  scripts_detail, hashless_detail, unparsed_detail, young_detail, commands_detail,
}

-- `Option<&str> == Option<&str>`.
abbrev pub same_text : Option String → Option String → Bool
same_text none none = true
same_text (some a) (some b) = a == b
same_text _ _ = false

-- The gates in order: the first decision stands, and a version that no gate decides is admitted.
abbrev pub decide : List (Option Decision) → Decision
decide [] = admit
decide (none ∷ gates) = decide gates
decide (some decision ∷ gates) = decision

-- 1. An explicit deny rule.
unfoldable pub deny_gate : Option Rule → Option Decision
deny_gate none = none
deny_gate (some rule) = elim rule.verdict [
  | allow ↦ none
  | deny ↦ some (block deny_rule (deny_detail rule.reason))
]

-- 3. First-party scopes.
unfoldable pub bypass_gate : String → PolicyConfig → Option Decision
bypass_gate name config = if is_bypassed_scope name config then some admit else none

module _ (env : External) where
  open env use {Instant, parse_from_rfc3339, num_seconds}

  -- 0. The integrity ledger's answer.
  unfoldable pub ledger_gate : String → String → Option String → LedgerCheck → Option Decision
  ledger_gate name version identity (changed recorded) =
      some (block integrity_changed (changed_detail env name version recorded identity))
  ledger_gate name version identity _ = none

  abbrev pub age_of : Option String → Instant → Option ℤ
  age_of published now =
      published >>= parse_from_rfc3339 >>= λ published_at. some (num_seconds now published_at)

  abbrev pub clears : ℕ → Option ℤ → Bool
  clears days none = false
  clears days (some age) = not (lt_int age (pos (days * seconds_per_day)))

  -- 2. The floor that no approval overrides.
  unfoldable pub quarantine_gate :
      String → Value → Option String → PolicyConfig → Instant → Option Decision
  quarantine_gate name meta published config now =
      let days = config.install_script_quarantine_days in
      let age_secs = age_of published now in
      if ltb 0 days && runs_install_script env meta && not (is_bypassed_scope name config)
      then if clears days age_secs
        then none
        else some (block install_script_quarantine (quarantine_detail env meta days age_secs))
      else none

  -- The two checks of an allow rule. At a deny rule the source has `unreachable!`: `deny_gate` has
  -- returned before.
  unfoldable pub approval_gate : String → String → Value → Option Rule → Option Decision
  approval_gate name version meta none = none
  approval_gate name version meta (some rule) = elim rule.verdict [
    | deny ↦ none
    | allow ↦
        if not (same_text rule.integrity (version_integrity meta))
        then some (block integrity_changed (pinned_detail env name version rule.integrity meta))
        else elim rule.scripts_sha256 [
          | none ↦ some admit
          | some approved ↦
              if not (approved == scripts_sha256 env meta)
              then some (block scripts_changed (scripts_detail env name version approved meta))
              else some admit
        ]
  ]

  -- 4. No content hash at all.
  unfoldable pub identity_gate : String → String → Value → Option Decision
  identity_gate name version meta =
      if is_none (version_identity meta)
      then some (block no_integrity (hashless_detail env name version meta))
      else none

  -- 5. The release age.
  unfoldable pub age_gate : String → Option String → PolicyConfig → Instant → Option Decision
  age_gate version published config now =
      let days = config.min_age_days in
      if ltb 0 days
      then elim published [
        | none ↦ some (block too_new (undated_detail version days))
        | some raw ↦ elim (parse_from_rfc3339 raw) [
          | none ↦ some (block too_new (unparsed_detail env version raw days))
          | some published_at ↦
              let age_secs = num_seconds now published_at in
              if lt_int age_secs (pos (days * seconds_per_day))
              then some (block too_new (young_detail env published_at age_secs days))
              else none
        ]
      ]
      else none

  -- 6. Install hooks, and upstream's flag.
  unfoldable pub hooks_gate : Value → Option Decision
  hooks_gate meta = elim (install_hooks env meta) [
    | [] ↦ if flags_install_script meta then some (block install_script flag_detail) else none
    | h ∷ hooks ↦ some (block install_script (commands_detail env (h ∷ hooks)))
  ]

  -- Everything below the ledger, for the rule that was found.
  unfoldable pub gates :
      Option Rule → String → String → Value → Option String → PolicyConfig → Instant → Decision
  gates rule name version meta published config now = decide (
      deny_gate rule
      ∷ quarantine_gate name meta published config now
      ∷ approval_gate name version meta rule
      ∷ bypass_gate name config
      ∷ identity_gate name version meta
      ∷ age_gate version published config now
      ∷ hooks_gate meta
      ∷ [])

  module _ {S : Type 0} (rules : RuleStore S) (ledger : IntegrityLedger env S) where
    unfoldable pub evaluate_version :
        String → String → Value → Option String → PolicyConfig → Instant → S → Decision × S
    evaluate_version name version meta published config now s =
        let identity = version_identity meta in
        let (check, s') = ledger.observe name version identity now s in
        elim (ledger_gate name version identity check) [
          | some decision ↦ (decision, s')
          | none ↦
              let (rule, s'') = rules.lookup name version s' in
              (gates rule name version meta published config now, s'')
        ]
