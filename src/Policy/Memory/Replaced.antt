-- ===== src/Policy/Memory/Replaced.antt =====
-- A version that comes back with another identity, over the stores of src/policy/memory.rs.
use npmfilter.Prelude.{ap, String, Option, some, ◌≡◌, ◌≢◌, ◌∙◌, arith, List, ◌∷◌}
use npmfilter.External.{External}
use npmfilter.Json.{Value}
use npmfilter.Policy.Types.{PolicyConfig, changed, block, integrity_changed}
use npmfilter.Policy.Meta.{version_identity}
use npmfilter.Policy.Messages.{changed_detail}
use npmfilter.Policy.Gates.{evaluate_version}
use npmfilter.Policy.Gates.Conditions.{same_text_iff}
use npmfilter.Policy.Gates.Admission.{evaluate_version_changed}
use npmfilter.Policy.Memory.{InMemoryRules, memory_rules, memory_ledger}
use npmfilter.Policy.Memory.History.{Observation, run, first_identity, answer, observe-answer}

answer_replaced :
    (recorded identity : Option String)
    → identity ≢ recorded
    → answer (some recorded) identity ≡ changed recorded
unfolding answer
answer_replaced recorded identity other = ground (arith, same_text_iff recorded identity)

module _ (env : External) (rules : InMemoryRules) (history : List (Observation env.Instant))
    (name version : String) (meta : Value) (published : Option String) (config : PolicyConfig)
    (now : env.Instant) where
  -- After any history of observations, a version that carries another identity than at its first
  -- observation is blocked as `integrity_changed`, with a detail of the two identities, whatever the
  -- rules say and however often the other identity was observed since; and only the history grows.
  pub evaluate_version-replaced :
      {recorded : Option String}
      → first_identity (name, version) history ≡ some recorded
      → version_identity meta ≢ recorded
      → evaluate_version env
          (memory_rules env)
          (memory_ledger env)
          name
          version
          meta
          published
          config
          now
          (rules, run history)
        ≡ (
          block integrity_changed
              (changed_detail env name version recorded (version_identity meta)),
          (
            rules,
            run (
                record { key = (name, version); identity = version_identity meta; at = now }
                ∷ history),
          ),
        )
  unfolding run
  evaluate_version-replaced {recorded} first other =
      evaluate_version_changed env (memory_rules env) (memory_ledger env) name version meta
        published config now (rules, run history)
        (observe-answer name version (version_identity meta) now history
          ∙ ap (λ f. answer f (version_identity meta)) first
          ∙ answer_replaced recorded (version_identity meta) other)
