-- ===== src/Store/Audit/Batch.antt =====
-- `record_blocks` of src/store/mod.rs against the rows that it writes.
use npmfilter.Prelude.{
  ℕ, ◌+◌, String, Option, List, [], ◌∷◌, if◌then◌else◌, refl, subst, Bool-cases, inl, inr,
}
use npmfilter.External.{External}
use npmfilter.Policy.Types.{BlockRecord, as_str}
use npmfilter.Store.Types.{AuditEntry, block_entry}
use npmfilter.Store.Tables.{Tables, insert_audit, latest_detail}
use npmfilter.Store.Connection.{Connection, Action, pure, ◌>>=◌, select, attempt}
use npmfilter.Store.Connection.Follows.{
  Follows, IsAtomic, pure-Follows, select-Follows, execute-pure-Follows, bind-Follows,
  prepared-Follows, in_transaction-IsAtomic,
}
use npmfilter.Store.Audit.{repeats, audit_columns, append_if_new, record_each, record_blocks}

module _ (env : External) where
  open env use {Instant}

  -- Whether a row is written, and the tables after it, from the latest row there is.
  unfoldable pub append_row : AuditEntry Instant → String → Option String → Tables → ℕ × Tables
  append_row entry reason previous t =
      if repeats reason previous then (0, t) else (1, insert_audit (audit_columns env entry) t)

  unfoldable pub record_rows : String → List BlockRecord → Instant → Tables → ℕ × Tables
  record_rows name [] now t = (0, t)
  record_rows name (blocked ∷ rest) now t =
      let entry : AuditEntry Instant = block_entry name blocked now in
      let (written, t') =
        append_row entry (as_str blocked.reason)
          (latest_detail entry.name entry.version entry.event t.audit) t in
      let (more, t'') = record_rows name rest now t' in (written + more, t'')

  append_if_new-Follows :
      (entry : AuditEntry Instant) (reason : String) (previous : Option String) (c : Connection)
      → Follows c
          (append_if_new env entry reason previous c)
          (append_row entry reason previous c.tables)
  unfolding append_if_new append_row
  append_if_new-Follows entry reason previous c = elim (Bool-cases (repeats reason previous)) [
    | inl e ↦ rw e (pure-Follows 0 c)
    | inr e ↦ rw e (execute-pure-Follows (insert_audit (audit_columns env entry)) 1 c)
  ]

  module _ (name : String) (now : Instant) where
    record_each-Follows :
        (blocked : List BlockRecord) (c : Connection)
        → Follows c (record_each env name blocked now c) (record_rows name blocked now c.tables)
    unfolding record_each record_rows
    record_each-Follows [] c = pure-Follows 0 c
    record_each-Follows (blocked ∷ rest) c =
        let entry : AuditEntry Instant = block_entry name blocked now in
        let reason = as_str blocked.reason in
        let find : Tables → Option String =
          λ t. latest_detail entry.name entry.version entry.event t.audit in
        let previous = find c.tables in
        let (written, t) = append_row entry reason previous c.tables in
        let (more, t') = record_rows name rest now t in
        bind-Follows c (select find)
          (λ p. append_if_new env entry reason p >>= λ n.
            record_each env name rest now >>= λ m. pure (n + m))
          previous c.tables (written + more, t') (select-Follows find c)
          (λ d left same.
            bind-Follows d (append_if_new env entry reason previous)
              (λ n. record_each env name rest now >>= λ m. pure (n + m)) written t
              (written + more, t')
              (subst
                (λ u.
                  Follows d (append_if_new env entry reason previous d)
                    (append_row entry reason previous u))
                left (append_if_new-Follows entry reason previous d))
              (λ d' left' same'.
                bind-Follows d' (record_each env name rest now) (λ m. pure (written + m)) more t'
                  (written + more, t')
                  (subst
                    (λ u.
                      Follows d' (record_each env name rest now d') (record_rows name rest now u))
                    left' (record_each-Follows rest d'))
                  (λ e there same''. (refl, inr (refl, there)))))

    -- The audit rows of a batch are written as one by one in their order, or a use of the connection
    -- fails and no table has changed.
    pub record_blocks-IsAtomic :
        (blocked : List BlockRecord) (c : Connection)
        → IsAtomic c (record_blocks env name blocked now c) (record_rows name blocked now c.tables)
    unfolding record_blocks record_rows
    record_blocks-IsAtomic [] c = (refl, inr (refl, refl))
    record_blocks-IsAtomic (blocked ∷ rest) c =
        let each = record_each env name (blocked ∷ rest) now in
        let spec = record_rows name (blocked ∷ rest) now c.tables in
        let t = c.tables in
        let prepared : Action ℕ = attempt >>= λ u. each in
        in_transaction-IsAtomic c (attempt >>= λ u. prepared) spec (λ d left same.
          prepared-Follows prepared spec t d left (λ d' left'.
            prepared-Follows each spec t d' left' (λ e there.
              subst (λ u. Follows e (each e) (record_rows name (blocked ∷ rest) now u)) there
                (record_each-Follows (blocked ∷ rest) e))))
