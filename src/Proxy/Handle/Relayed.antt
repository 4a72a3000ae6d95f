-- ===== src/Proxy/Handle/Relayed.antt =====
-- What `handle` of src/proxy/mod.rs relays to upstream as it is.
use npmfilter.Prelude.{◌+◌, Bool, true, false, ◌∷◌, ◌≡◌, ◌⊎◌}
use npmfilter.Prelude.Result.{Result}
use npmfilter.External.{External}
use npmfilter.Store.Tables.{Tables, AuditRow}
use npmfilter.Store.Connection.{Connection}
use npmfilter.Store.Connection.Follows.{Follows}
use npmfilter.Store.Audit.{audit_columns}
use npmfilter.Store.FailClosed.{Store}
use npmfilter.Proxy.Route.{Route, passthrough, classify}
use npmfilter.Proxy.Handle.{is_mutating, Request, mutation_audit_entry}

module _ (env : External) (allowed : Bool) (request : Request) (now : env.Instant) (s : Store) where
  -- The row of the audit log about the request, with the next id.
  abbrev pub audit_row : AuditRow
  audit_row =
      record (audit_columns env
        (mutation_audit_entry env request (classify env request.path) now)) {
          id = s.conn.tables.last_audit_id + 1;
        }

  -- What a relayed request is.
  abbrev pub IsRelayable : Route → Store → Type 0
  IsRelayable route after =
      ((is_mutating request.method route ≡ false) × (route ≡ passthrough) × (after ≡ s))
      ⊎ ((is_mutating request.method route ≡ true)
          × (allowed ≡ true)
          × (after.conn.tables.audit ≡ audit_row ∷ s.conn.tables.audit))
