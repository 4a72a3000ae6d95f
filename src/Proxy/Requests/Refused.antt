-- ===== src/Proxy/Requests/Refused.antt =====
-- A request of src/proxy/mod.rs for a package with a version that a row of the table `rules` refuses.
use npmfilter.Prelude.{
  String, Bool, Option, none, some, List, [], ◌∷◌, ◌≡◌, ◌≢◌, ◌∙◌, refl, sym, ap, arith, inl, inr,
  Bool-cases, Option-cases, subst, not, false, ◌==◌, eq_iff,
}
use npmfilter.Prelude.Dict
use npmfilter.Prelude.Dict.{pair_eq, text_eq}
use npmfilter.Prelude.Tree
use npmfilter.Prelude.Result.{Result, ok, err, ◌>>=◌}
use npmfilter.External.{External}
use npmfilter.Json.{Value}
use npmfilter.Policy.Types.{
  PolicyConfig, PolicyOutcome, PolicyError, LedgerCheck, allow, deny, new_deny, with_reason,
}
use npmfilter.Policy.Memory.{Key}
use npmfilter.Policy.Evaluate
use npmfilter.Policy.Evaluate.{Entries}
use npmfilter.Policy.Evaluate.Judge.{is_withheld}
use npmfilter.Policy.Evaluate.Outcome.{section, IsPackument}
use npmfilter.Policy.Evaluate.Denied.{IsRefusal, Refuses, evaluate-refused}
use npmfilter.Store.Errors.{StoreError}
use npmfilter.Store.Types.{StoredRule, pins_from_json}
use npmfilter.Store.Tables.{RuleRow}
use npmfilter.Store.Connection
use npmfilter.Store.Connection.{Connection, pure}
use npmfilter.Store.Connection.Follows.{Reads, select-Reads}
use npmfilter.Store.Rows.{verdict_str, parse_verdict, timestamp, transpose, stored_rule}
use npmfilter.Store.Rules.{try_lookup_rule}
use npmfilter.Store.Ledger.{try_observe_batch, try_observe_with, first_or_changed}
use npmfilter.Store.Ledger.Batch.{try_observe_batch-IsAtomic}
use npmfilter.Store.FailClosed.{
  Store, clear_failure, take_failure, note_failure, observe_batch, observe_with, lookup,
  lookup_result, rule_of, batch_result, check_result, on_connection, store_rules,
}
use npmfilter.Proxy.Requests.{
  observations, collect_checks, checked_or, request_ledger, finish, evaluate,
}
use npmfilter.Proxy.Requests.Stores.{rules-observe_rows}

parse_verdict_allow : (raw : String) → parse_verdict raw ≡ ok allow → raw ≡ verdict_str allow
unfolding parse_verdict verdict_str
parse_verdict_allow raw e = elim (Bool-cases (raw == "allow")) [
  | inl same ↦ (eq_iff raw "allow").0 same
  | inr other ↦ elim (Bool-cases (raw == "deny")) [ inl same ↦ ground arith | inr q ↦ ground arith ]
]

bind_ok :
    {A B : Type 0} (r : Result StoreError A) (f : A → Result StoreError B) (b : B)
    → (r >>= f) ≡ ok b
    → (a : A) × (r ≡ ok a) × (f a ≡ ok b)
bind_ok (err e) f b h = ground arith
bind_ok (ok a) f b h = (a, refl, h)

deny_ne_allow : deny ≢ allow
deny_ne_allow same = ground arith

module _ (env : External) where
  open env use {Instant}

  -- A row is read as an allow rule only if it says so.
  stored_rule_allow :
      (key : Key) (row : RuleRow) (stored : StoredRule Instant)
      → stored_rule env key row ≡ ok stored
      → stored.rule.verdict ≡ allow
      → row.verdict ≡ verdict_str allow
  unfolding stored_rule
  stored_rule_allow key row stored e allows =
      let (pins, read, e1) = bind_ok (transpose (pins_from_json env) row.pins_json) _ stored e in
      let (verdict, said, e2) = bind_ok (parse_verdict row.verdict) _ stored e1 in
      let (created, at, e3) = bind_ok (timestamp env row.created_ts) _ stored e2 in
      let same : verdict ≡ allow = ground arith in
      parse_verdict_allow row.verdict (said ∙ ap ok same)

  lookup_result_refuses :
      (name version : String) (row : RuleRow) (s : Store)
      (out : Result StoreError (Option (StoredRule Instant)) × Connection)
      → row.verdict ≢ verdict_str allow
      → Reads s.conn out (transpose (stored_rule env (name, version)) (some row))
      → IsRefusal (lookup_result env name version (out.0, record s { conn = out.1 })).0
  unfolding new_deny with_reason
  lookup_result_refuses name version row s (err e, d) refused reads = (_, refl, deny_ne_allow)
  lookup_result_refuses name version row s (ok found, d) refused (same, left, inl (failed, fault)) =
      ground arith
  lookup_result_refuses name version row s (ok found, d) refused (same, left, inr from) =
      let (stored, read, is_found) =
        bind_ok (stored_rule env (name, version) row) (λ b. ok (some b)) found (sym from) in
      let here : found ≡ some stored = ground arith in
      (
        stored.rule,
        ap rule_of here,
        λ allows. refused (stored_rule_allow (name, version) row stored read allows),
      )

  module _ (rows : List (Key × RuleRow)) where
    abbrev KeepsRules : Store → Type 0
    KeepsRules s = s.conn.tables.rules ≡ rows

    lookup_result_keeps :
        (name version : String) (s : Store)
        (out : Result StoreError (Option (StoredRule Instant)) × Connection)
        → out.1.tables.rules ≡ rows
        → KeepsRules (lookup_result env name version (out.0, record s { conn = out.1 })).1
    unfolding note_failure
    lookup_result_keeps name version s (ok found, d) kept = kept
    lookup_result_keeps name version s (err e, d) kept = kept

    lookup_keeps :
        (name version : String) (s : Store)
        → KeepsRules s
        → KeepsRules (lookup env name version s).1
    unfolding lookup try_lookup_rule
    lookup_keeps name version s kept =
        let reads =
          select-Reads (λ t. Dict.get (name, version) t.rules)
            (transpose (stored_rule env (name, version))) s.conn in
        lookup_result_keeps name version s (try_lookup_rule env name version s.conn)
          (ap (λ t. t.rules) (reads.1) ∙ kept)

    batch_keeps :
        (bump : Bool) (name : String) (observed : List (String × Option String)) (now : Instant)
        (c : Connection)
        → c.tables.rules ≡ rows
        → (try_observe_batch env name observed now bump c).1.tables.rules ≡ rows
    batch_keeps bump name observed now c kept =
        let (same, outcome) = try_observe_batch-IsAtomic env now bump name observed c in
        elim outcome [
          | inl (failed, fault, left) ↦ ap (λ t. t.rules) left ∙ kept
          | inr (done, left) ↦
              ap (λ t. t.rules) left ∙ rules-observe_rows env bump name observed now c.tables ∙ kept
        ]

    batch_result_keeps :
        (observed : List (String × Option String)) (s : Store)
        (out : Result StoreError (List LedgerCheck) × Connection)
        → out.1.tables.rules ≡ rows
        → KeepsRules (batch_result env observed (out.0, record s { conn = out.1 })).1
    unfolding note_failure
    batch_result_keeps observed s (ok checks, d) kept = kept
    batch_result_keeps observed s (err e, d) kept = kept

    check_result_keeps :
        (s : Store) (out : Result StoreError (List LedgerCheck) × Connection)
        → out.1.tables.rules ≡ rows
        → KeepsRules
            (check_result env (
              on_connection
                (Connection.◌>>=◌ (λ c. out) (λ checks. pure (first_or_changed checks)))
                s)).1
    unfolding note_failure
    check_result_keeps s (ok checks, d) kept = kept
    check_result_keeps s (err e, d) kept = kept

    observe_batch_keeps :
        (bump : Bool) (name : String) (observed : List (String × Option String)) (now : Instant)
        (s : Store)
        → KeepsRules s
        → KeepsRules (observe_batch env name observed now bump s).1
    unfolding observe_batch
    observe_batch_keeps bump name observed now s kept =
        batch_result_keeps observed s (try_observe_batch env name observed now bump s.conn)
          (batch_keeps bump name observed now s.conn kept)

    observe_with_keeps :
        (bump : Bool) (name version : String) (identity : Option String) (now : Instant) (s : Store)
        → KeepsRules s
        → KeepsRules (observe_with env name version identity now bump s).1
    unfolding observe_with try_observe_with
    observe_with_keeps bump name version identity now s kept =
        let observed = (version, identity) ∷ [] in
        check_result_keeps s (try_observe_batch env name observed now bump s.conn)
          (batch_keeps bump name observed now s.conn kept)

    checked_or_keeps :
        (bump : Bool) (check : Option LedgerCheck) (name version : String)
        (identity : Option String) (now : Instant) (s : Store)
        → KeepsRules s
        → KeepsRules (checked_or (observe_with env name version identity now bump) check s).1
    checked_or_keeps bump none name version identity now s kept =
        observe_with_keeps bump name version identity now s kept
    checked_or_keeps bump (some check) name version identity now s kept = kept

    lookup_refuses :
        (name version : String) (row : RuleRow)
        → Dict.get (name, version) rows ≡ some row
        → row.verdict ≢ verdict_str allow
        → (s : Store) → KeepsRules s
        → IsRefusal (lookup env name version s).0
    unfolding lookup try_lookup_rule
    lookup_refuses name version row found refused s kept =
        let key : Key = (name, version) in
        let here : Dict.get key s.conn.tables.rules ≡ some row = ap (Dict.get key) kept ∙ found in
        lookup_result_refuses name version row s (try_lookup_rule env name version s.conn) refused (
          subst
            (λ o.
              Reads s.conn (try_lookup_rule env name version s.conn)
                (transpose (stored_rule env key) o))
            here
            (select-Reads (λ t. Dict.get key t.rules) (transpose (stored_rule env key)) s.conn))

    request-Refuses :
        (bump : Bool) (checks : List (String × LedgerCheck)) (name version : String) (row : RuleRow)
        → Dict.get (name, version) rows ≡ some row
        → row.verdict ≢ verdict_str allow
        → Refuses env Store KeepsRules
            (store_rules env)
            (request_ledger env bump checks)
            name
            version
    request-Refuses bump checks name version row found refused = record {
      lookup_refuses = lookup_refuses name version row found refused;
      lookup_keeps = lookup_keeps;
      observe_keeps = λ n v. checked_or_keeps bump (Dict.get v checks) n v;
    }

  finish_ok :
      (document : Value) (name : String) (cached : Bool) (upstream_host : Option String)
      (now : Instant) (x : Result PolicyError PolicyOutcome × Store) (outcome : PolicyOutcome)
      → (finish env name document cached upstream_host now x).0 ≡ ok outcome
      → x.0 ≡ ok outcome
  unfolding take_failure
  finish_ok document name cached upstream_host now (err e, u) outcome h = ground arith
  finish_ok document name cached upstream_host now (ok o, u) outcome h =
      elim (Option-cases u.failure) [
        | inl blank ↦ ground (arith, blank)
        | inr (detail, noted) ↦ ground (arith, noted)
      ]

  -- A version of a package whose row in the table `rules` does not say `allow` is not among the
  -- versions of the answer to a request, and a block record names it if the packument has it; this
  -- holds whatever uses of the connection fail, whether or not the row can be read, for the rules
  -- that are recorded under the name that the packument gives itself.
  pub evaluate-refuses :
      (document : Value) (requested : String) (config : PolicyConfig) (cached : Bool)
      (upstream_host : Option String) (now : Instant) (s : Store) (root versions : Entries)
      (name version : String) (row : RuleRow) (outcome : PolicyOutcome)
      → IsPackument document root name versions
      → Dict.get (name, version) s.conn.tables.rules ≡ some row
      → row.verdict ≢ verdict_str allow
      → (evaluate env document requested config cached upstream_host now s).0 ≡ ok outcome
      → (Tree.contains_key version (section "versions" outcome.packument) ≡ false)
        × (is_withheld version outcome.blocked ≡ Tree.contains_key version versions)
  unfolding evaluate clear_failure
  evaluate-refuses document requested config cached upstream_host now s root versions name version
        row outcome p found refused returned =
      let rows = s.conn.tables.rules in
      let observed = observations document in
      let blank : Store = record { conn = s.conn; failure = none } in
      let (checks, u) = observe_batch env requested observed now (not cached) blank in
      let collected = collect_checks observed checks in
      let x =
        Evaluate.evaluate env (store_rules env) (request_ledger env (not cached) collected) document
          config now u in
      let answered : x.0 ≡ ok outcome =
        finish_ok document requested cached upstream_host now x outcome returned in
      evaluate-refused env
        (request-Refuses rows (not cached) collected name version row found refused) document config
        now u {s' = x.1} p (ap (λ r. (r, x.1)) answered)
        (observe_batch_keeps rows (not cached) requested observed now blank refl)
