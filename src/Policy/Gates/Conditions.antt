-- ===== src/Policy/Gates/Conditions.antt =====
-- When each gate of src/policy/mod.rs lets a version go on, apart from the messages.
use npmfilter.Prelude.{
  ℕ, ◌*◌, String, true, false, Option, none, some, ◌≡◌, ◌≢◌, ◌⊎◌, ◌↔◌, inl, inr, refl, arith,
  Option-cases, eq_iff,
}
use npmfilter.Prelude.Int.{pos, lt_int}
use npmfilter.External.{External}
use npmfilter.Json.{Value}
use npmfilter.Policy.Types.{PolicyConfig, Rule, allow, admit}
use npmfilter.Policy.Meta.{
  version_integrity, version_identity, runs_install_script, is_bypassed_scope, scripts_sha256,
}
use npmfilter.Policy.Describe.{seconds_per_day}
use npmfilter.Policy.Gates.{
  same_text, deny_gate, age_of, clears, quarantine_gate, approval_gate, identity_gate, age_gate,
  hooks_gate,
}

-- A rule that lets a version through once it is past the floor: an allow rule whose pinned hash and
-- whose approved commands, if it has any, are those that the version carries.
pub record Covers (env : External) (rule : Rule) (meta : Value) : Type 0 where
  pub allows : rule.verdict ≡ allow
  pub pinned : rule.integrity ≡ version_integrity meta
  pub approved :
      (rule.scripts_sha256 ≡ none) ⊎ (rule.scripts_sha256 ≡ some (scripts_sha256 env meta))

pub deny_gate_iff :
    (rule : Option Rule)
    → (deny_gate rule ≡ none)
      ↔ ((rule ≡ none) ⊎ ((r : Rule) × (rule ≡ some r) × (r.verdict ≡ allow)))
unfolding deny_gate
deny_gate_iff none = ground arith
deny_gate_iff (some r) = ground arith

pub same_text_iff : (a b : Option String) → (same_text a b ≡ true) ↔ (a ≡ b)
same_text_iff none none = ground arith
same_text_iff none (some b) = ground arith
same_text_iff (some a) none = ground arith
same_text_iff (some a) (some b) = ground (arith, eq_iff a b)

module _ (env : External) where
  open env use {Instant, parse_from_rfc3339, num_seconds}

  -- At least `days` days between the publish time and `now`; never so without a usable time.
  abbrev pub IsPast : ℕ → Option String → Instant → Type 0
  IsPast days published now =
      (raw : String) × (at : Instant) × (published ≡ some raw)
      × (parse_from_rfc3339 raw ≡ some at)
      × (lt_int (num_seconds now at) (pos (days * seconds_per_day)) ≡ false)

  -- At a usable publish time only the age counts.
  IsPast-iff :
      (days : ℕ) (raw : String) (at now : Instant)
      → parse_from_rfc3339 raw ≡ some at
      → IsPast days (some raw) now
        ↔ (lt_int (num_seconds now at) (pos (days * seconds_per_day)) ≡ false)
  IsPast-iff days raw at now e = (λ (r, t, er, et, q). ground arith, λ q. (raw, at, refl, e, q))

  clears_iff :
      (days : ℕ) (published : Option String) (now : Instant)
      → (clears env days (age_of env published now) ≡ true) ↔ IsPast days published now
  clears_iff days none now = ground arith
  clears_iff days (some raw) now = elim (Option-cases (parse_from_rfc3339 raw)) [
    | inl e ↦ ground arith
    | inr (at, e) ↦ ground (arith, IsPast-iff days raw at now e)
  ]

  abbrev pub PassesFloor : String → Value → Option String → PolicyConfig → Instant → Type 0
  PassesFloor name meta published config now =
      (config.install_script_quarantine_days ≡ 0)
      ⊎ (runs_install_script env meta ≡ false)
      ⊎ (is_bypassed_scope name config ≡ true)
      ⊎ IsPast config.install_script_quarantine_days published now

  pub quarantine_gate_iff :
      (name : String) (meta : Value) (published : Option String) (config : PolicyConfig)
      (now : Instant)
      → (quarantine_gate env name meta published config now ≡ none)
        ↔ PassesFloor name meta published config now
  unfolding quarantine_gate
  quarantine_gate_iff name meta published config now =
      ground (arith, clears_iff config.install_script_quarantine_days published now)

  pub approval_gate-none :
      (name version : String) (meta : Value) → approval_gate env name version meta none ≡ none
  unfolding approval_gate
  approval_gate-none name version meta = refl

  pub approval_gate_iff :
      (name version : String) (meta : Value) (r : Rule)
      → (approval_gate env name version meta (some r) ≡ some admit) ↔ Covers env r meta
  unfolding approval_gate
  approval_gate_iff name version meta r = elim (Option-cases r.scripts_sha256) [
    | inl e ↦ ground (arith, same_text_iff r.integrity (version_integrity meta))
    | inr (approved, e) ↦ ground (
      arith,
      same_text_iff r.integrity (version_integrity meta),
      eq_iff approved (scripts_sha256 env meta),
    )
  ]

  pub approval_gate_decides :
      (name version : String) (meta : Value) (r : Rule)
      → r.verdict ≡ allow
      → approval_gate env name version meta (some r) ≢ none
  unfolding approval_gate
  approval_gate_decides name version meta r h = ground arith

  pub identity_gate_iff :
      (name version : String) (meta : Value)
      → (identity_gate env name version meta ≡ none) ↔ (version_identity meta ≢ none)
  unfolding identity_gate
  identity_gate_iff name version meta = ground arith

  pub age_gate_iff :
      (version : String) (published : Option String) (config : PolicyConfig) (now : Instant)
      → (age_gate env version published config now ≡ none)
        ↔ ((config.min_age_days ≡ 0) ⊎ IsPast config.min_age_days published now)
  unfolding age_gate
  age_gate_iff version none config now = ground arith
  age_gate_iff version (some raw) config now = elim (Option-cases (parse_from_rfc3339 raw)) [
    | inl e ↦ ground arith
    | inr (at, e) ↦ ground (arith, IsPast-iff config.min_age_days raw at now e)
  ]

  pub hooks_gate_iff :
      (meta : Value) → (hooks_gate env meta ≡ none) ↔ (runs_install_script env meta ≡ false)
  unfolding hooks_gate runs_install_script
  hooks_gate_iff meta = ground arith

  module _ (name version : String) (meta : Value) (published : Option String)
      (config : PolicyConfig) (now : Instant) where
    pub quarantine_gate-ne-admit : quarantine_gate env name meta published config now ≢ some admit
    unfolding quarantine_gate
    quarantine_gate-ne-admit = ground arith

    pub identity_gate-ne-admit : identity_gate env name version meta ≢ some admit
    unfolding identity_gate
    identity_gate-ne-admit = ground arith

    pub age_gate-ne-admit : age_gate env version published config now ≢ some admit
    unfolding age_gate
    age_gate-ne-admit = ground arith

    pub hooks_gate-ne-admit : hooks_gate env meta ≢ some admit
    unfolding hooks_gate
    hooks_gate-ne-admit = ground arith

pub deny_gate-ne-admit : (rule : Option Rule) → deny_gate rule ≢ some admit
unfolding deny_gate
deny_gate-ne-admit none = ground arith
deny_gate-ne-admit (some r) = ground arith
