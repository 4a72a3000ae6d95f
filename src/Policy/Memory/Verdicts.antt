-- ===== src/Policy/Memory/Verdicts.antt =====
-- What a rule that was inserted into src/policy/memory.rs makes of `evaluate_version`.
use npmfilter.Prelude.{String, Option, some, ◌≡◌, ◌≢◌, refl, sym, subst, inl, arith}
use npmfilter.Prelude.Dict
use npmfilter.Prelude.Dict.{pair_eq}
use npmfilter.External.{External}
use npmfilter.Json.{Value}
use npmfilter.Policy.Types.{PolicyConfig, Rule, allow, deny, admit, new_allow, new_deny}
use npmfilter.Policy.Meta.{version_integrity, version_identity}
use npmfilter.Policy.Gates.{evaluate_version}
use npmfilter.Policy.Gates.Conditions.{Covers, PassesFloor}
use npmfilter.Policy.Gates.Admission.{IsUnchanged, MayPass, evaluate_version-eq-admit_iff}
use npmfilter.Policy.Memory.{
  InMemoryRules, Ledger, insert_rule, lookup_rule, observe, memory_rules, memory_ledger,
}

pub lookup_rule-insert_rule :
    (rule : Rule) (rules : InMemoryRules)
    → lookup_rule rule.name rule.version (insert_rule rule rules) ≡ some rule
unfolding lookup_rule insert_rule
lookup_rule-insert_rule rule rules = Dict.get-insert_self (rule.name, rule.version) rule rules

module _ (env : External) (name version : String) (meta : Value) (published : Option String)
    (config : PolicyConfig) (now : env.Instant) (rules : InMemoryRules)
    (entries : Ledger env.Instant) where
  -- Once a deny rule of a version is inserted the version is not admitted, whatever the ledger, the
  -- other rules, the metadata and the configuration are.
  pub evaluate_version-insert_deny :
      (evaluate_version env
        (memory_rules env)
        (memory_ledger env)
        name
        version
        meta
        published
        config
        now
        (insert_rule (new_deny name version) rules, entries)).0
      ≢ admit
  unfolding new_deny
  evaluate_version-insert_deny admitted =
      let conditions =
        (evaluate_version-eq-admit_iff env (memory_rules env) (memory_ledger env) name version meta
            published config now (insert_rule (new_deny name version) rules, entries)).0
          admitted in
      let covers : Covers env (new_deny name version) meta =
        subst (λ o. MayPass env o name meta published config now)
          (lookup_rule-insert_rule (new_deny name version) rules) conditions.2 in
      let allows : deny ≡ allow = covers.allows in ground arith

  -- Once an allow rule of a version is inserted, pinned to the hash that the version has, the version is
  -- admitted as soon as it is past the quarantine floor, or the floor does not concern it, where
  -- the ledger does not report another identity; its age and its hooks do not matter beyond that.
  pub evaluate_version-insert_allow :
      (integrity : String)
      → version_integrity meta ≡ some integrity
      → IsUnchanged env (observe name version (version_identity meta) now entries).0
      → PassesFloor env name meta published config now
      → (evaluate_version env
          (memory_rules env)
          (memory_ledger env)
          name
          version
          meta
          published
          config
          now
          (insert_rule (new_allow name version integrity) rules, entries)).0
        ≡ admit
  unfolding new_allow
  evaluate_version-insert_allow integrity pinned unchanged floor =
      (evaluate_version-eq-admit_iff env (memory_rules env) (memory_ledger env) name version meta
          published config now (insert_rule (new_allow name version integrity) rules, entries)).1
        (
          unchanged,
          floor,
          subst (λ o. MayPass env o name meta published config now)
              (sym (lookup_rule-insert_rule (new_allow name version integrity) rules))
              (record { allows = refl; pinned = sym pinned; approved = inl refl }),
        )
