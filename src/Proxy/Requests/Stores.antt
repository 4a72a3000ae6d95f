-- ===== src/Proxy/Requests/Stores.antt =====
-- The state database against the in-memory stores, as the two that the engine is run over in
-- src/proxy/mod.rs.
use npmfilter.Prelude.{
  ℕ, String, Bool, true, Option, none, some, List, [], ◌∷◌, ◌≡◌, refl, subst, sym, ap, ◌∙◌, arith,
  Bool-cases, Option-cases, inl, inr, ◌⊎◌,
}
use npmfilter.Prelude.Dict
use npmfilter.Prelude.Dict.{pair_eq, text_eq}
use npmfilter.Prelude.Result.{Result, ok, err}
use npmfilter.External.{External}
use npmfilter.Policy.Types.{LedgerCheck, IntegrityLedger}
use npmfilter.Policy.Gates.{same_text}
use npmfilter.Policy.Memory
use npmfilter.Policy.Memory.{
  Key, Ledger, InMemoryRules, Memory, memory_rules, lookup_rule, observe_in,
}
use npmfilter.Policy.Evaluate.Simulation.{Agrees, Simulation}
use npmfilter.Store.Errors.{StoreError, query, error_text}
use npmfilter.Store.Types.{StoredRule}
use npmfilter.Store.Tables.{Tables, RuleRow, insert_seen, bump_seen, note_mismatch}
use npmfilter.Store.Connection.{Connection, pure, ◌>>=◌}
use npmfilter.Store.Connection.Follows.{HasFault, Reads, select-Reads}
use npmfilter.Store.Rows.{transpose, stored_rule}
use npmfilter.Store.Rules.{try_lookup_rule}
use npmfilter.Store.Ledger.{
  first_or_changed, recorded_integrity, try_observe_batch, try_observe_with,
}
use npmfilter.Store.Ledger.Batch.{after_row, observe_rows, try_observe_batch-IsAtomic}
use npmfilter.Store.Ledger.Recorded.{Represents}
use npmfilter.Store.Ledger.Refines.{observe_all, observe_rows-refines}
use npmfilter.Store.FailClosed.{
  Store, on_connection, rule_of, note_failure, lookup, lookup_result, observe_with, check_result,
  store_rules,
}
use npmfilter.Proxy.Requests.{checked_or, request_ledger}

module _ (env : External) where
  open env use {Instant}

  -- The request's ledger, over the in-memory one.
  abbrev pub memory_request_ledger : List (String × LedgerCheck) → IntegrityLedger env (Memory env)
  memory_request_ledger checks = record {
    observe = λ name version integrity now.
        checked_or (observe_in env name version integrity now) (Dict.get version checks);
  }

  -- What the row of a key is read as.
  abbrev pub read_row : Key → List (Key × RuleRow) → Result StoreError (Option (StoredRule Instant))
  read_row key rows = transpose (stored_rule env key) (Dict.get key rows)

  -- Every row that can be read says what the map says.
  abbrev pub RepresentsRules : List (Key × RuleRow) → InMemoryRules → Type 0
  RepresentsRules rows rules =
      (name version : String) (found : Option (StoredRule Instant))
      → read_row (name, version) rows ≡ ok found
      → rule_of found ≡ lookup_rule name version rules

  -- A row cannot be read.
  abbrev pub HasUnreadable : List (Key × RuleRow) → Type 0
  HasUnreadable rows = (key : Key) × (e : StoreError) × (read_row key rows ≡ err e)

  -- The rows of the rules are not touched by observations.
  rules-after_row :
      (bump : Bool) (key : Key) (identity : Option String) (now : Instant)
      (recorded : Option (Option String)) (t : Tables)
      → (after_row env key identity now bump recorded t).1.rules ≡ t.rules
  unfolding after_row insert_seen bump_seen note_mismatch
  rules-after_row bump key identity now none t = refl
  rules-after_row bump key identity now (some recorded) t =
      elim (Bool-cases (same_text recorded identity)) [
        | inl e ↦ elim (Bool-cases bump) [ inl b ↦ rw (e, b) refl | inr b ↦ rw (e, b) refl ]
        | inr e ↦ rw e refl
      ]

  pub rules-observe_rows :
      (bump : Bool) (name : String) (observations : List (String × Option String)) (now : Instant)
      (t : Tables)
      → (observe_rows env name observations now bump t).1.rules ≡ t.rules
  unfolding observe_rows
  rules-observe_rows bump name [] now t = refl
  rules-observe_rows bump name ((version, identity) ∷ observations) now t =
      rules-observe_rows bump name observations now _
      ∙ rules-after_row bump (name, version) identity now (recorded_integrity (name, version) t) t

  -- The rows and the faults that a request starts with.
  module _ (rows : List (Key × RuleRow)) (fails : ℕ → Bool) where
    abbrev pub Cause : Type 0
    Cause = ((n : ℕ) × (fails n ≡ true)) ⊎ HasUnreadable rows

    -- A failure was swallowed, for a reason.
    abbrev pub Spoilt : Store → Type 0
    Spoilt s = (detail : String) × (s.failure ≡ some detail) × Cause

    abbrev pub Holds : Store → Memory env → Type 0
    Holds s (rules, entries) =
        (s.failure ≡ none)
        × (s.conn.fails ≡ fails)
        × (s.conn.tables.rules ≡ rows)
        × RepresentsRules rows rules
        × Represents s.conn.tables entries

    pub note_failure-Spoilt : (e : StoreError) (s : Store) → Cause → Spoilt (note_failure env e s)
    unfolding note_failure
    note_failure-Spoilt e s cause = elim (Option-cases s.failure) [
      | inl blank ↦ (error_text env e, ground arith, cause)
      | inr (first, noted) ↦ (first, ground arith, cause)
    ]

    -- The reasons that a fault of the connection is one of.
    fault-Cause : (c : Connection) → c.fails ≡ fails → HasFault c → Cause
    fault-Cause c same (n, e) = inl (n, subst (λ g. g n ≡ true) same e)

    -- The tables are the same, and the rest of the state.
    Holds-read :
        (s : Store) (d : Connection) (m : Memory env)
        → d.fails ≡ s.conn.fails
        → d.tables ≡ s.conn.tables
        → Holds s m
        → Holds (record s { conn = d }) m
    Holds-read s d (rules, entries) same left (blank, faults, kept, read, seen) = (
      blank,
      same ∙ faults,
      ap (λ t. t.rules) left ∙ kept,
      read,
      subst (λ t. Represents t entries) (sym left) seen,
    )

    lookup_result-Agrees :
        (name version : String) (out : Result StoreError (Option (StoredRule Instant)) × Connection)
        (s : Store) (m : Memory env)
        → Holds s m
        → Reads s.conn out (read_row (name, version) rows)
        → Agrees Holds Spoilt
            (lookup_result env name version (out.0, record s { conn = out.1 }))
            ((memory_rules env).lookup name version m)
    lookup_result-Agrees name version (err e, d) s m h (same, left, inl (failed, fault)) =
        inl (note_failure-Spoilt e (record s { conn = d }) (fault-Cause s.conn h.1 fault))
    lookup_result-Agrees name version (err e, d) s m h (same, left, inr from) =
        inl (note_failure-Spoilt e (record s { conn = d }) (inr ((name, version), e, sym from)))
    lookup_result-Agrees name version (ok found, d) s m h (same, left, inl (failed, fault)) =
        ground arith
    lookup_result-Agrees name version (ok found, d) s m h (same, left, inr from) =
        inr (h.3 name version found (sym from), Holds-read s d m same left h)

    lookup-Agrees :
        (name version : String) (s : Store) (m : Memory env)
        → Holds s m
        → Agrees Holds Spoilt (lookup env name version s) ((memory_rules env).lookup name version m)
    unfolding lookup try_lookup_rule
    lookup-Agrees name version s m h =
        lookup_result-Agrees name version (try_lookup_rule env name version s.conn) s m h (
          subst
            (λ rs.
              Reads s.conn (try_lookup_rule env name version s.conn) (read_row (name, version) rs))
            h.2
            (select-Reads (λ t. Dict.get (name, version) t.rules)
              (transpose (stored_rule env (name, version))) s.conn))

    lookup-Spoilt :
        (name version : String) (s : Store) → Spoilt s → Spoilt (lookup env name version s).1
    unfolding lookup note_failure
    lookup-Spoilt name version s (detail, noted, cause) = (detail, ground (arith, noted), cause)

    observe_with-Spoilt :
        (bump : Bool) (name version : String) (identity : Option String) (now : Instant) (s : Store)
        → Spoilt s
        → Spoilt (observe_with env name version identity now bump s).1
    unfolding observe_with note_failure
    observe_with-Spoilt bump name version identity now s (detail, noted, cause) =
        (detail, ground (arith, noted), cause)

    -- An answer of the ledger, from the result of a batch of one or more observations.
    pub batch-Holds :
        (bump : Bool) (name : String) (observations : List (String × Option String)) (now : Instant)
        (s : Store) (m : Memory env)
        → Holds s m
        → (((try_observe_batch env name observations now bump s.conn).0 ≡ err query) × Cause)
          ⊎ (((try_observe_batch env name observations now bump s.conn).0
                ≡ ok (observe_all name observations now m.1).0)
              × Holds
                  (record s { conn = (try_observe_batch env name observations now bump s.conn).1 })
                  (m.0, (observe_all name observations now m.1).1))
    batch-Holds bump name observations now s (rules, entries) (blank, faults, kept, read, seen) =
        let (same, outcome) = try_observe_batch-IsAtomic env now bump name observations s.conn in
        let (answers, last) =
          observe_rows-refines env bump name observations now s.conn.tables entries seen in
        elim outcome [
          | inl (failed, fault, left) ↦ inl (failed, fault-Cause s.conn faults fault)
          | inr (done, left) ↦ inr (
            done ∙ ap ok answers,
            (
              blank,
              same ∙ faults,
              ap (λ t. t.rules) left
                  ∙ rules-observe_rows bump name observations now s.conn.tables
                  ∙ kept,
              read,
              subst (λ t. Represents t (observe_all name observations now entries).1) (sym left)
                  last,
            ),
          )
        ]

    single_out :
        (out : Result StoreError (List LedgerCheck) × Connection) (check : LedgerCheck) (s : Store)
        (m : Memory env)
        → ((out.0 ≡ err query) × Cause)
          ⊎ ((out.0 ≡ ok (check ∷ [])) × Holds (record s { conn = out.1 }) m)
        → Agrees Holds Spoilt
            (check_result env
              (on_connection ((λ c. out) >>= λ checks. pure (first_or_changed checks)) s))
            (check, m)
    single_out (err e, d) check s m (inl (failed, cause)) =
        inl (note_failure-Spoilt e (record s { conn = d }) cause)
    single_out (err e, d) check s m (inr (done, later)) = ground arith
    single_out (ok checks, d) check s m (inl (failed, cause)) = ground arith
    single_out (ok checks, d) check s m (inr (done, later)) =
        let same : checks ≡ check ∷ [] = ground arith in inr (ap first_or_changed same, later)

    observe_with-Agrees :
        (bump : Bool) (name version : String) (identity : Option String) (now : Instant) (s : Store)
        (m : Memory env)
        → Holds s m
        → Agrees Holds Spoilt
            (observe_with env name version identity now bump s)
            (observe_in env name version identity now m)
    unfolding observe_with try_observe_with observe_all
    observe_with-Agrees bump name version identity now s m h =
        single_out (try_observe_batch env name ((version, identity) ∷ []) now bump s.conn)
          (Memory.observe name version identity now m.1).0 s
          (observe_in env name version identity now m).1
          (batch-Holds bump name ((version, identity) ∷ []) now s m h)

    checked_or-Agrees :
        (bump : Bool) (check : Option LedgerCheck) (name version : String)
        (identity : Option String) (now : Instant) (s : Store) (m : Memory env)
        → Holds s m
        → Agrees Holds Spoilt
            (checked_or (observe_with env name version identity now bump) check s)
            (checked_or (observe_in env name version identity now) check m)
    checked_or-Agrees bump none name version identity now s m h =
        observe_with-Agrees bump name version identity now s m h
    checked_or-Agrees bump (some check) name version identity now s m h = inr (refl, h)

    checked_or-Spoilt :
        (bump : Bool) (check : Option LedgerCheck) (name version : String)
        (identity : Option String) (now : Instant) (s : Store)
        → Spoilt s
        → Spoilt (checked_or (observe_with env name version identity now bump) check s).1
    checked_or-Spoilt bump none name version identity now s b =
        observe_with-Spoilt bump name version identity now s b
    checked_or-Spoilt bump (some check) name version identity now s b = b

    -- The two pairs of stores answer alike.
    pub request-Simulation :
        (bump : Bool) (checks : List (String × LedgerCheck))
        → Simulation env Store
            (Memory env)
            Holds
            Spoilt
            (store_rules env)
            (memory_rules env)
            (request_ledger env bump checks)
            (memory_request_ledger checks)
    request-Simulation bump checks = record {
      lookup_agrees = lookup-Agrees;
      observe_agrees =
          λ name version. checked_or-Agrees bump (Dict.get version checks) name version;
      lookup_spoilt = lookup-Spoilt;
      observe_spoilt =
          λ name version. checked_or-Spoilt bump (Dict.get version checks) name version;
    }
