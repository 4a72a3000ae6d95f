-- ===== src/Proxy/Requests/Served.antt =====
-- A request of src/proxy/mod.rs on a state database that may fail, against the engine over in-memory
-- stores that hold the same.
use npmfilter.Prelude.{
  String, Bool, not, Option, none, some, List, ◌≡◌, refl, sym, ap, subst, ◌∙◌, arith, Option-cases,
  inl, inr, ◌⊎◌,
}
use npmfilter.Prelude
use npmfilter.Prelude.Tree
use npmfilter.Prelude.Result.{Result, ok, err}
use npmfilter.External.{External}
use npmfilter.Json.{Value, as_object, of_map}
use npmfilter.Policy.Types.{
  PolicyConfig, PolicyOutcome, PolicyError, LedgerCheck, RuleStore, IntegrityLedger,
}
use npmfilter.Policy.Memory.{Memory, memory_rules}
use npmfilter.Policy.Evaluate
use npmfilter.Policy.Evaluate.{Entries, parse, evaluate_parsed, judge, rebuild}
use npmfilter.Policy.Evaluate.Simulation.{evaluate-Agrees, evaluate-Spoilt}
use npmfilter.Store.Errors.{StoreError, query}
use npmfilter.Store.Connection.{Connection}
use npmfilter.Store.Ledger.{try_observe_batch}
use npmfilter.Store.Ledger.Recorded.{Represents}
use npmfilter.Store.Ledger.Refines.{observe_all}
use npmfilter.Store.FailClosed.{
  Store, clear_failure, take_failure, batch_result, all_changed, note_failure, observe_batch,
  store_rules,
}
use npmfilter.Proxy.Errors.{ProxyError, policy, store_unavailable}
use npmfilter.Proxy.Requests.{observations, collect_checks, request_ledger, finish, evaluate}
use npmfilter.Proxy.Requests.Stores.{
  memory_request_ledger, RepresentsRules, Cause, Spoilt, Holds, note_failure-Spoilt, batch-Holds,
  request-Simulation,
}

-- An error of the engine is passed on.
abbrev pub answer_of : Result PolicyError PolicyOutcome → Result ProxyError PolicyOutcome
answer_of (ok outcome) = ok outcome
answer_of (err e) = err (policy e)

Result-cases : {E A : Type 0} (r : Result E A) → ((e : E) × (r ≡ err e)) ⊎ ((a : A) × (r ≡ ok a))
Result-cases (err e) = inl (e, refl)
Result-cases (ok a) = inr (a, refl)

module _ (env : External) where
  open env use {Instant}

  -- The engine over stores in memory, with the batch observed first.
  unfoldable pub reference :
      Value → String → PolicyConfig → Instant → Memory env → Result PolicyError PolicyOutcome
  reference document name config now (rules, entries) =
      let (checks, entries') = observe_all name (observations document) now entries in
      (Evaluate.evaluate env (memory_rules env)
        (memory_request_ledger env (collect_checks (observations document) checks)) document config
        now (rules, entries')).0

  -- The engine, over any stores, answers a document that it can parse, and fails on the others.
  module _ {S : Type 0} (rules : RuleStore S) (ledger : IntegrityLedger env S)
      (config : PolicyConfig) (now : Instant) (s : S) where
    evaluate_parsed_ok :
        (p : Entries × String × Entries)
        → (outcome : PolicyOutcome) × ((evaluate_parsed env rules ledger (ok p) config now s).0
            ≡ ok outcome)
    evaluate_parsed_ok (root, name, versions) =
        let time = Prelude.◌>>=◌ (Tree.get "time" root) as_object in
        let judged = (judge env rules ledger name time config now versions s).0 in
        (
          record {
            packument = of_map (rebuild env config root versions judged.surviving);
            blocked = judged.blocked;
          },
          refl,
        )

    evaluate_malformed :
        (document : Value) (e : PolicyError)
        → parse document ≡ err e
        → (Evaluate.evaluate env rules ledger document config now s).0 ≡ err e
    unfolding Evaluate.evaluate
    evaluate_malformed document e malformed = rw malformed refl

    evaluate_wellformed :
        (document : Value) (p : Entries × String × Entries)
        → parse document ≡ ok p
        → (outcome : PolicyOutcome) × ((Evaluate.evaluate env rules ledger document config now s).0
            ≡ ok outcome)
    unfolding Evaluate.evaluate
    evaluate_wellformed document p wellformed = rw wellformed (evaluate_parsed_ok p)

  -- What a request answers: a failure of the state database, for a reason, or what the engine says.
  abbrev pub IsServed :
      Store → Result ProxyError PolicyOutcome → Result PolicyError PolicyOutcome → Type 0
  IsServed s out expected =
      ((detail : String) × (out ≡ err (store_unavailable detail))
        × Cause env s.conn.tables.rules s.conn.fails)
      ⊎ (out ≡ answer_of expected)

  module _ (document : Value) (name : String) (cached : Bool) (upstream_host : Option String)
      (now : Instant) (s : Store) where
    abbrev ending : Result PolicyError PolicyOutcome × Store → Result ProxyError PolicyOutcome
    ending x = (finish env name document cached upstream_host now x).0

    abbrev IsSpoilt : Store → Type 0
    IsSpoilt = Spoilt env s.conn.tables.rules s.conn.fails

    finish_spoilt :
        (x : Result PolicyError PolicyOutcome × Store) (outcome : PolicyOutcome)
        → x.0 ≡ ok outcome
        → IsSpoilt x.1
        → (detail : String) × (ending x ≡ err (store_unavailable detail))
          × Cause env s.conn.tables.rules s.conn.fails
    unfolding take_failure
    finish_spoilt (err e, u) outcome done b = ground arith
    finish_spoilt (ok o, u) outcome done (detail, noted, cause) =
        (detail, ground (arith, noted), cause)

    finish_blank :
        (x : Result PolicyError PolicyOutcome × Store)
        → x.1.failure ≡ none
        → ending x ≡ answer_of x.0
    unfolding take_failure
    finish_blank (err e, u) blank = refl
    finish_blank (ok o, u) blank = ground (arith, blank)

    finish_malformed :
        (x : Result PolicyError PolicyOutcome × Store) (e : PolicyError)
        → x.0 ≡ err e
        → ending x ≡ err (policy e)
    finish_malformed (err e', u) e failed = ground arith
    finish_malformed (ok o, u) e failed = ground arith

    module _ (config : PolicyConfig) where
      -- The engine after the batch.
      abbrev engine : List LedgerCheck × Store → Result PolicyError PolicyOutcome × Store
      engine (checks, u) =
          Evaluate.evaluate env (store_rules env)
            (request_ledger env (not cached) (collect_checks (observations document) checks))
            document config now u

      abbrev blank_store : Connection → Store
      blank_store c = record { conn = c; failure = none }

      abbrev after_batch :
          Result StoreError (List LedgerCheck) × Connection → List LedgerCheck × Store
      after_batch out = batch_result env (observations document) (out.0, blank_store out.1)

      module _ (m : Memory env) where
        abbrev expected : Result PolicyError PolicyOutcome
        expected = reference document name config now m

        abbrev BatchAnswered : Result StoreError (List LedgerCheck) × Connection → Type 0
        BatchAnswered out =
            ((out.0 ≡ err query) × Cause env s.conn.tables.rules s.conn.fails)
            ⊎ ((out.0 ≡ ok (observe_all name (observations document) now m.1).0)
                × Holds env s.conn.tables.rules s.conn.fails (blank_store out.1)
                    (m.0, (observe_all name (observations document) now m.1).1))

        IsServed-malformed :
            (e : PolicyError) (x : List LedgerCheck × Store)
            → parse document ≡ err e
            → IsServed s (ending (engine x)) expected
        unfolding reference
        IsServed-malformed e x bad =
            let here = finish_malformed (engine x) e (
              evaluate_malformed (store_rules env)
                (request_ledger env (not cached) (collect_checks (observations document) x.0))
                config now x.1 document e bad) in
            let (checks, entries') = observe_all name (observations document) now m.1 in
            let there =
              evaluate_malformed (memory_rules env)
                (memory_request_ledger env (collect_checks (observations document) checks)) config
                now (m.0, entries') document e bad in
            inr (here ∙ sym (ap answer_of there))

        IsServed-spoilt :
            (wanted : Result PolicyError PolicyOutcome) (p : Entries × String × Entries)
            (x : List LedgerCheck × Store)
            → parse document ≡ ok p
            → IsSpoilt (engine x).1
            → IsServed s (ending (engine x)) wanted
        IsServed-spoilt wanted p x good b =
            let (outcome, done) =
              evaluate_wellformed (store_rules env)
                (request_ledger env (not cached) (collect_checks (observations document) x.0))
                config now x.1 document p good in
            inl (finish_spoilt (engine x) outcome done b)

        IsServed-after :
            (p : Entries × String × Entries)
            (out : Result StoreError (List LedgerCheck) × Connection)
            → parse document ≡ ok p
            → BatchAnswered out
            → IsServed s (ending (engine (after_batch out))) expected
        unfolding reference
        IsServed-after p (err e, d) good (inl (failed, cause)) =
            let checks = all_changed (observations document) in
            let u = note_failure env e (blank_store d) in
            let observed = collect_checks (observations document) checks in
            IsServed-spoilt _ p (checks, u) good
              (evaluate-Spoilt env
                (request-Simulation env s.conn.tables.rules s.conn.fails (not cached) observed)
                document config now u
                (note_failure-Spoilt env s.conn.tables.rules s.conn.fails e (blank_store d) cause))
        IsServed-after p (err e, d) good (inr (done, h)) = ground arith
        IsServed-after p (ok checks, d) good (inl (failed, cause)) = ground arith
        IsServed-after p (ok checks, d) good (inr (done, h)) =
            let (answers, entries') = observe_all name (observations document) now m.1 in
            let same : answers ≡ checks = ground arith in
            let observed = collect_checks (observations document) checks in
            subst
              (λ cs.
                IsServed s (ending (engine (checks, blank_store d)))
                  (Evaluate.evaluate env (memory_rules env)
                    (memory_request_ledger env (collect_checks (observations document) cs)) document
                    config now (m.0, entries')).0)
              (sym same)
              (elim (evaluate-Agrees env
                (request-Simulation env s.conn.tables.rules s.conn.fails (not cached) observed)
                document config now (blank_store d) (m.0, entries') h) [
                  | inl spoilt ↦ IsServed-spoilt _ p (checks, blank_store d) good spoilt
                  | inr (alike, holds) ↦
                      inr
                        (finish_blank (engine (checks, blank_store d)) holds.0 ∙ ap answer_of alike)
                ])

        -- A request on a state database that may fail, with rules and a ledger in memory that hold the
        -- same rules and the same recorded hashes as its tables: either it is answered with
        -- `StoreUnavailable`, and then a use of the connection fails or a rule cannot be read; or it is
        -- answered with exactly what the engine says over the stores in memory, its errors included.
        pub evaluate-IsServed :
            RepresentsRules env s.conn.tables.rules m.0
            → Represents s.conn.tables m.1
            → IsServed s
                (evaluate env document name config cached upstream_host now s).0
                (reference document name config now m)
        unfolding evaluate clear_failure observe_batch
        evaluate-IsServed read seen =
            let out = try_observe_batch env name (observations document) now (not cached) s.conn in
            elim (Result-cases (parse document)) [
              | inl (e, bad) ↦ IsServed-malformed e (after_batch out) bad
              | inr (p, good) ↦ IsServed-after p out good (
                  batch-Holds env s.conn.tables.rules s.conn.fails (not cached) name
                    (observations document) now (blank_store s.conn) m
                    (refl, refl, refl, read, seen))
            ]
