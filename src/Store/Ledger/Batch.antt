-- ===== src/Store/Ledger/Batch.antt =====
-- `try_observe_batch` of src/store/mod.rs against the rows that it writes.
use npmfilter.Prelude.{
  String, Bool, Option, none, some, List, [], ◌∷◌, if◌then◌else◌, refl, subst, Bool-cases, inl, inr,
}
use npmfilter.External.{External}
use npmfilter.Policy.Types.{LedgerCheck, unseen, match, changed}
use npmfilter.Policy.Gates.{same_text}
use npmfilter.Policy.Memory.{Key}
use npmfilter.Store.Tables.{Tables, insert_seen, bump_seen, note_mismatch}
use npmfilter.Store.Connection.{Connection, Action, pure, ◌>>=◌, select, attempt}
use npmfilter.Store.Connection.Follows.{
  Follows, IsAtomic, pure-Follows, select-Follows, execute-pure-Follows, bind-Follows,
  prepared-Follows, in_transaction-IsAtomic,
}
use npmfilter.Store.Ledger.{recorded_integrity, record_observation, observe_each, try_observe_batch}

module _ (env : External) where
  open env use {Instant, timestamp}

  -- The answer to an observation and the tables after it, from the integrity on record.
  unfoldable pub after_row :
      Key → Option String → Instant → Bool → Option (Option String) → Tables → LedgerCheck × Tables
  after_row key identity now bump none t = (unseen, insert_seen key identity (timestamp now) t)
  after_row key identity now bump (some recorded) t =
      if same_text recorded identity
      then (match, if bump then bump_seen key (timestamp now) t else t)
      else (changed recorded, note_mismatch key (timestamp now) t)

  -- The same of a whole batch, in its order.
  unfoldable pub observe_rows :
      String → List (String × Option String) → Instant → Bool → Tables → List LedgerCheck × Tables
  observe_rows name [] now bump t = ([], t)
  observe_rows name ((version, identity) ∷ observations) now bump t =
      let key : Key = (name, version) in
      let (check, t') = after_row key identity now bump (recorded_integrity key t) t in
      let (checks, t'') = observe_rows name observations now bump t' in (check ∷ checks, t'')

  module _ (now : Instant) (bump : Bool) where
    record_observation-Follows :
        (key : Key) (identity : Option String) (recorded : Option (Option String)) (c : Connection)
        → Follows c
            (record_observation env key identity now bump recorded c)
            (after_row key identity now bump recorded c.tables)
    unfolding record_observation after_row
    record_observation-Follows key identity none c =
        execute-pure-Follows (insert_seen key identity (timestamp now)) unseen c
    record_observation-Follows key identity (some recorded) c =
        elim (Bool-cases (same_text recorded identity)) [
          | inl e ↦ elim (Bool-cases bump) [
            | inl b ↦ rw (e, b) (execute-pure-Follows (bump_seen key (timestamp now)) match c)
            | inr b ↦ rw (e, b) (pure-Follows match c)
          ]
          | inr e ↦
              rw e (execute-pure-Follows (note_mismatch key (timestamp now)) (changed recorded) c)
        ]

    observe_each-Follows :
        (name : String) (observations : List (String × Option String)) (c : Connection)
        → Follows c
            (observe_each env name observations now bump c)
            (observe_rows name observations now bump c.tables)
    unfolding observe_each observe_rows
    observe_each-Follows name [] c = pure-Follows [] c
    observe_each-Follows name ((version, identity) ∷ observations) c =
        let key : Key = (name, version) in
        let recorded = recorded_integrity key c.tables in
        let (check, t) = after_row key identity now bump recorded c.tables in
        let (checks, t') = observe_rows name observations now bump t in
        bind-Follows c (select (recorded_integrity key))
          (λ r. record_observation env key identity now bump r >>= λ x.
            observe_each env name observations now bump >>= λ xs. pure (x ∷ xs))
          recorded c.tables (check ∷ checks, t') (select-Follows (recorded_integrity key) c)
          (λ d left same.
            bind-Follows d (record_observation env key identity now bump recorded)
              (λ x. observe_each env name observations now bump >>= λ xs. pure (x ∷ xs)) check t
              (check ∷ checks, t')
              (subst
                (λ u.
                  Follows d (record_observation env key identity now bump recorded d)
                    (after_row key identity now bump recorded u))
                left (record_observation-Follows key identity recorded d))
              (λ d' left' same'.
                bind-Follows d' (observe_each env name observations now bump)
                  (λ xs. pure (check ∷ xs)) checks t' (check ∷ checks, t')
                  (subst
                    (λ u.
                      Follows d' (observe_each env name observations now bump d')
                        (observe_rows name observations now bump u))
                    left' (observe_each-Follows name observations d'))
                  (λ e left'' same''. (refl, inr (refl, left'')))))

    -- A batch of observations is answered, and the table `seen` changed, as by the single observations
    -- in their order, each answered from what is on record by then; or some use of the connection
    -- fails, the batch reports that, and no table has changed.
    pub try_observe_batch-IsAtomic :
        (name : String) (observations : List (String × Option String)) (c : Connection)
        → IsAtomic c
            (try_observe_batch env name observations now bump c)
            (observe_rows name observations now bump c.tables)
    unfolding try_observe_batch observe_rows
    try_observe_batch-IsAtomic name [] c = (refl, inr (refl, refl))
    try_observe_batch-IsAtomic name (o ∷ observations) c =
        let each = observe_each env name (o ∷ observations) now bump in
        let spec = observe_rows name (o ∷ observations) now bump c.tables in
        let t = c.tables in
        let one : Action (List LedgerCheck) = attempt >>= λ u. each in
        let two : Action (List LedgerCheck) = attempt >>= λ u. one in
        let three : Action (List LedgerCheck) = attempt >>= λ u. two in
        in_transaction-IsAtomic c (attempt >>= λ u. three) spec (λ d left same.
          prepared-Follows three spec t d left (λ d1 l1. prepared-Follows two spec t d1 l1 (λ d2 l2.
            prepared-Follows one spec t d2 l2 (λ d3 l3. prepared-Follows each spec t d3 l3 (λ d4 l4.
              subst (λ u. Follows d4 (each d4) (observe_rows name (o ∷ observations) now bump u)) l4
                (observe_each-Follows name (o ∷ observations) d4))))))
