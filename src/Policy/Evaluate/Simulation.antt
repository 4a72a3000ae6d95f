-- ===== src/Policy/Evaluate/Simulation.antt =====
-- The engine of src/policy/mod.rs over two pairs of stores that answer alike.
use npmfilter.Prelude.{
  String, Option, none, some, [], ◌∷◌, ◌≡◌, refl, subst, ap, ◌∙◌, inl, inr, ◌⊎◌, ◌>>=◌,
}
use npmfilter.Prelude.Tree
use npmfilter.Prelude.Result.{Result, ok, err}
use npmfilter.External.{External}
use npmfilter.Json.{Value, as_object, of_map}
use npmfilter.Policy.Types.{
  PolicyConfig, PolicyOutcome, PolicyError, RuleStore, LedgerCheck, IntegrityLedger, Decision,
}
use npmfilter.Policy.Meta.{version_identity}
use npmfilter.Policy.Gates.{ledger_gate, gates, evaluate_version}
use npmfilter.Policy.Evaluate.{
  Entries, published_in, Judged, note, judge, rebuild, parse, evaluate_parsed, evaluate,
}

-- The states are related and the answers are the same, or the first state is spoilt for good.
abbrev pub Agrees : {A S T : Type 0} → (S → T → Type 0) → (S → Type 0) → A × S → A × T → Type 0
Agrees R Spoilt (a, s) (b, t) = Spoilt s ⊎ ((a ≡ b) × R s t)

pub record Simulation (env : External) (S T : Type 0) (R : S → T → Type 0) (Spoilt : S → Type 0)
    (rules : RuleStore S) (rules' : RuleStore T) (ledger : IntegrityLedger env S)
    (ledger' : IntegrityLedger env T) : Type 0 where
  pub lookup_agrees :
      (name version : String) (s : S) (t : T)
      → R s t
      → Agrees R Spoilt (rules.lookup name version s) (rules'.lookup name version t)
  pub observe_agrees :
      (name version : String) (identity : Option String) (now : env.Instant) (s : S) (t : T)
      → R s t
      → Agrees R Spoilt
          (ledger.observe name version identity now s)
          (ledger'.observe name version identity now t)
  pub lookup_spoilt :
      (name version : String) (s : S) → Spoilt s → Spoilt (rules.lookup name version s).1
  pub observe_spoilt :
      (name version : String) (identity : Option String) (now : env.Instant) (s : S)
      → Spoilt s
      → Spoilt (ledger.observe name version identity now s).1

abbrev outcome_of :
    External → PolicyConfig → Entries → Entries → Judged → Result PolicyError PolicyOutcome
outcome_of env config root versions judged = ok (record {
  packument = of_map (rebuild env config root versions judged.surviving);
  blocked = judged.blocked;
})

-- What `evaluate_version` does with the ledger's answer.
abbrev pub judged_by :
    (env : External) {U : Type 0}
    → RuleStore U
    → String
    → String
    → Value
    → Option String
    → PolicyConfig
    → env.Instant
    → Option Decision
    → U
    → Decision × U
judged_by env store name version meta published config now (some decision) u = (decision, u)
judged_by env store name version meta published config now none u =
    let (rule, u') = store.lookup name version u in
    (gates env rule name version meta published config now, u')

abbrev pub observed :
    (env : External) {U : Type 0}
    → RuleStore U
    → String
    → String
    → Value
    → Option String
    → PolicyConfig
    → env.Instant
    → LedgerCheck × U
    → Decision × U
observed env store name version meta published config now (check, u) =
    judged_by env store name version meta published config now
      (ledger_gate env name version (version_identity meta) check) u

module _ (env : External) {U : Type 0} (store : RuleStore U) (book : IntegrityLedger env U)
    (name : String) (now : env.Instant) where
  judged_by-elim :
      (version : String) (meta : Value) (published : Option String) (config : PolicyConfig)
      (gate : Option Decision) (u : U)
      → (elim gate as (λ _. Decision × U) [
        | some decision ↦ (decision, u)
        | none ↦
            let (rule, u') = store.lookup name version u in
            (gates env rule name version meta published config now, u')
      ])
        ≡ judged_by env store name version meta published config now gate u
  judged_by-elim version meta published config (some decision) u = refl
  judged_by-elim version meta published config none u = refl

  pub evaluate_version_eq :
      (version : String) (meta : Value) (published : Option String) (config : PolicyConfig) (u : U)
      → evaluate_version env store book name version meta published config now u
        ≡ observed env store name version meta published config now
            (book.observe name version (version_identity meta) now u)
  unfolding evaluate_version
  evaluate_version_eq version meta published config u =
      let (check, u') = book.observe name version (version_identity meta) now u in
      judged_by-elim version meta published config
        (ledger_gate env name version (version_identity meta) check) u'

module _ (env : External) {S T : Type 0} {R : S → T → Type 0} {Spoilt : S → Type 0}
    {rules : RuleStore S} {rules' : RuleStore T} {ledger : IntegrityLedger env S}
    {ledger' : IntegrityLedger env T}
    (laws : Simulation env S T R Spoilt rules rules' ledger ledger') where
  open env use {Instant}

  module _ (name version : String) (meta : Value) (published : Option String)
      (config : PolicyConfig) (now : Instant) where
    judged_by-Agrees :
        (gate : Option Decision) (s : S) (t : T)
        → R s t
        → Agrees R Spoilt
            (judged_by env rules name version meta published config now gate s)
            (judged_by env rules' name version meta published config now gate t)
    judged_by-Agrees (some decision) s t r = inr (refl, r)
    judged_by-Agrees none s t r = elim (laws.lookup_agrees name version s t r) [
      | inl spoilt ↦ inl spoilt
      | inr (same, r') ↦ inr (ap (λ o. gates env o name version meta published config now) same, r')
    ]

    judged_by-Spoilt :
        (gate : Option Decision) (s : S)
        → Spoilt s
        → Spoilt (judged_by env rules name version meta published config now gate s).1
    judged_by-Spoilt (some decision) s b = b
    judged_by-Spoilt none s b = laws.lookup_spoilt name version s b

    observed-Agrees :
        (x : LedgerCheck × S) (y : LedgerCheck × T)
        → Agrees R Spoilt x y
        → Agrees R Spoilt
            (observed env rules name version meta published config now x)
            (observed env rules' name version meta published config now y)
    observed-Agrees (check, s) (check', t) (inl spoilt) = inl (judged_by-Spoilt _ s spoilt)
    observed-Agrees (check, s) (check', t) (inr (same, r)) =
        subst
          (λ c.
            Agrees R Spoilt (observed env rules name version meta published config now (check, s))
              (observed env rules' name version meta published config now (c, t)))
          same (judged_by-Agrees (ledger_gate env name version (version_identity meta) check) s t r)

    evaluate_version-Agrees :
        (s : S) (t : T)
        → R s t
        → Agrees R Spoilt
            (evaluate_version env rules ledger name version meta published config now s)
            (evaluate_version env rules' ledger' name version meta published config now t)
    evaluate_version-Agrees s t r =
        rw
          (
            evaluate_version_eq env rules ledger name now version meta published config s,
            evaluate_version_eq env rules' ledger' name now version meta published config t,
          )
          (observed-Agrees (ledger.observe name version (version_identity meta) now s)
            (ledger'.observe name version (version_identity meta) now t)
            (laws.observe_agrees name version (version_identity meta) now s t r))

    evaluate_version-Spoilt :
        (s : S)
        → Spoilt s
        → Spoilt (evaluate_version env rules ledger name version meta published config now s).1
    evaluate_version-Spoilt s b =
        rw (evaluate_version_eq env rules ledger name now version meta published config s)
          (judged_by-Spoilt _ _ (laws.observe_spoilt name version (version_identity meta) now s b))

  module _ (name : String) (time : Option Entries) (config : PolicyConfig) (now : Instant) where
    judge-Spoilt :
        (versions : Entries) (s : S)
        → Spoilt s
        → Spoilt (judge env rules ledger name time config now versions s).1
    unfolding judge
    judge-Spoilt [] s b = b
    judge-Spoilt ((version, meta) ∷ versions) s b =
        judge-Spoilt versions _
          (evaluate_version-Spoilt name version meta (published_in time version) config now s b)

    judge-Agrees :
        (versions : Entries) (s : S) (t : T)
        → R s t
        → Agrees R Spoilt
            (judge env rules ledger name time config now versions s)
            (judge env rules' ledger' name time config now versions t)
    unfolding judge
    judge-Agrees [] s t r = inr (refl, r)
    judge-Agrees ((version, meta) ∷ versions) s t r =
        let published = published_in time version in
        let x = evaluate_version env rules ledger name version meta published config now s in
        let y = evaluate_version env rules' ledger' name version meta published config now t in
        elim (evaluate_version-Agrees name version meta published config now s t r) [
          | inl spoilt ↦ inl (judge-Spoilt versions x.1 spoilt)
          | inr (same, r') ↦ elim (judge-Agrees versions x.1 y.1 r') [
            | inl spoilt ↦ inl spoilt
            | inr (rest, r'') ↦ inr (
              ap (λ d. note version d (judge env rules ledger name time config now versions x.1).0)
                    same
                  ∙ ap (note version y.0) rest,
              r'',
            )
          ]
        ]

  evaluate_parsed-Agrees :
      (parsed : Result PolicyError (Entries × String × Entries)) (config : PolicyConfig)
      (now : Instant) (s : S) (t : T)
      → R s t
      → Agrees R Spoilt
          (evaluate_parsed env rules ledger parsed config now s)
          (evaluate_parsed env rules' ledger' parsed config now t)
  evaluate_parsed-Agrees (err e) config now s t r = inr (refl, r)
  evaluate_parsed-Agrees (ok (root, name, versions)) config now s t r =
      let time = Tree.get "time" root >>= as_object in
      elim (judge-Agrees name time config now versions s t r) [
        | inl spoilt ↦ inl spoilt
        | inr (same, r') ↦ inr (ap (outcome_of env config root versions) same, r')
      ]

  -- Over stores that answer alike the engine gives the same outcome, unless the first state was spoilt
  -- on the way; and if there is no document to judge, it gives the same error.
  pub evaluate-Agrees :
      (document : Value) (config : PolicyConfig) (now : Instant) (s : S) (t : T)
      → R s t
      → Agrees R Spoilt
          (evaluate env rules ledger document config now s)
          (evaluate env rules' ledger' document config now t)
  unfolding evaluate
  evaluate-Agrees document config now s t r =
      evaluate_parsed-Agrees (parse document) config now s t r

  evaluate_parsed-Spoilt :
      (parsed : Result PolicyError (Entries × String × Entries)) (config : PolicyConfig)
      (now : Instant) (s : S)
      → Spoilt s
      → Spoilt (evaluate_parsed env rules ledger parsed config now s).1
  evaluate_parsed-Spoilt (err e) config now s b = b
  evaluate_parsed-Spoilt (ok (root, name, versions)) config now s b =
      judge-Spoilt name (Tree.get "time" root >>= as_object) config now versions s b

  -- A state that is spoilt stays so.
  pub evaluate-Spoilt :
      (document : Value) (config : PolicyConfig) (now : Instant) (s : S)
      → Spoilt s
      → Spoilt (evaluate env rules ledger document config now s).1
  unfolding evaluate
  evaluate-Spoilt document config now s b = evaluate_parsed-Spoilt (parse document) config now s b
