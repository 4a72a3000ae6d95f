-- ===== src/Tests/Memories.antt =====
-- The in-memory ledger over a short history.
use npmfilter.Prelude.{◌≡◌, ◌≢◌, none, some, [], ◌∷◌, List, refl, arith, eq_iff}
use npmfilter.Prelude.Tree
use npmfilter.Policy.Meta.{version_identity, version_integrity}
use npmfilter.Policy.Gates.{evaluate_version}
use npmfilter.Policy.Messages.{changed_detail}
use npmfilter.Policy.Memory.{memory_rules, memory_ledger}
use npmfilter.Policy.Memory.Replaced.{evaluate_version-replaced}
use npmfilter.Tests.Sample.{env, now, config, plain, approval}
use npmfilter.Prelude.Dict
use npmfilter.Prelude.Dict.{pair_eq}
use npmfilter.Policy.Types.{changed, block, integrity_changed}
use npmfilter.Policy.Memory.{observe}
use npmfilter.Policy.Memory.History.{
  Observation, run, first_identity, Summarises, run_summary, answer, observe-answer,
}
use npmfilter.Prelude.{ℕ}

-- The version is seen twice with one hash and then with another; newest first.
abbrev history : List (Observation ℕ)
history =
    record { key = ("pkg", "1.0.0"); identity = some "sha512-NEW"; at = 30 }
    ∷ record { key = ("pkg", "1.0.0"); identity = some "sha512-OLD"; at = 20 }
    ∷ record { key = ("pkg", "1.0.0"); identity = some "sha512-OLD"; at = 10 }
    ∷ []

run_summary_example :
    Summarises
      (first_identity ("pkg", "1.0.0") history)
      ("pkg", "1.0.0")
      history
      (Dict.get ("pkg", "1.0.0") (run history))
run_summary_example = run_summary ("pkg", "1.0.0") history

observe-answer_example :
    (observe "pkg" "1.0.0" (some "sha512-NEW") 40 (run history)).0 ≡ changed (some "sha512-OLD")
unfolding answer first_identity
observe-answer_example = observe-answer "pkg" "1.0.0" (some "sha512-NEW") 40 history

differs : version_identity plain ≢ some "sha512-OLD"
unfolding version_identity version_integrity Tree.get
differs same = ground (arith, (eq_iff "sha512-AAAA" "sha512-OLD").1 (ground arith))

-- The version is approved, and still blocked.
evaluate_version-replaced_example :
    evaluate_version env
      (memory_rules env)
      (memory_ledger env)
      "pkg"
      "1.0.0"
      plain
      none
      config
      now
      ((("pkg", "1.0.0"), approval) ∷ [], run history)
    ≡ (
      block integrity_changed
          (changed_detail env "pkg" "1.0.0" (some "sha512-OLD") (version_identity plain)),
      (
        (("pkg", "1.0.0"), approval) ∷ [],
        run (
            record { key = ("pkg", "1.0.0"); identity = version_identity plain; at = now }
            ∷ history),
      ),
    )
unfolding first_identity
evaluate_version-replaced_example =
    evaluate_version-replaced env ((("pkg", "1.0.0"), approval) ∷ []) history "pkg" "1.0.0" plain
      none config now refl differs
