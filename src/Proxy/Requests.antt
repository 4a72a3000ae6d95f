-- ===== src/Proxy/Requests.antt =====
-- `evaluate` of src/proxy/mod.rs: one request for a packument through the policy engine and the state
-- database. The task that it runs on, and what it logs, are left out.
pub mod Stores
pub mod Served
pub mod Refused
use npmfilter.Prelude.{
  String, Bool, true, false, not, Option, none, some, List, [], ◌∷◌, ◌>>=◌, map, if◌then◌else◌,
}
use npmfilter.Prelude.Dict
use npmfilter.Prelude.Dict.{text_eq}
use npmfilter.Prelude.Result.{Result, ok, err}
use npmfilter.External.{External}
use npmfilter.Json
use npmfilter.Json.{Value, as_object}
use npmfilter.Policy.Types.{PolicyConfig, PolicyOutcome, PolicyError, LedgerCheck, IntegrityLedger}
use npmfilter.Policy.Meta.{version_identity}
use npmfilter.Policy.Evaluate
use npmfilter.Store.FailClosed.{
  Store, on_connection, clear_failure, take_failure, observe_batch, observe_with, store_rules,
}
use npmfilter.Store.Audit.{record_blocks}
use npmfilter.Proxy.Errors.{ProxyError, policy, store_unavailable}
use npmfilter.Proxy.Foreign.{note_foreign_tarballs}

abbrev pub identity_of : String × Value → String × Option String
identity_of (version, meta) = (version, version_identity meta)

abbrev pub identities : Option (List (String × Value)) → List (String × Option String)
identities none = []
identities (some versions) = map identity_of versions

unfoldable pub observations : Value → List (String × Option String)
observations document = identities (Json.get "versions" document >>= as_object)

-- The pairs of `zip`, collected into a map.
unfoldable pub collect_checks :
    List (String × Option String) → List LedgerCheck → List (String × LedgerCheck)
collect_checks ((version, identity) ∷ observed) (check ∷ checks) =
    let rest = collect_checks observed checks in
    if Dict.contains_key version rest then rest else (version, check) ∷ rest
collect_checks _ _ = []

-- `RequestLedger::observe`: the answer of the batch, or an observation of its own.
abbrev pub checked_or :
    {S : Type 0} → (S → LedgerCheck × S) → Option LedgerCheck → S → LedgerCheck × S
checked_or observe (some check) s = (check, s)
checked_or observe none s = observe s

module _ (env : External) where
  open env use {Instant}

  abbrev pub request_ledger : Bool → List (String × LedgerCheck) → IntegrityLedger env Store
  request_ledger bump checks = record {
    observe = λ name version integrity now.
        checked_or (observe_with env name version integrity now bump) (Dict.get version checks);
  }

  abbrev note_unless : Bool → Option String → String → Value → Instant → Store → Store
  note_unless false (some upstream_host) name document now s =
      note_foreign_tarballs env name document upstream_host now s
  note_unless _ _ name document now s = s

  -- What follows the engine: the failure slot, then the two kinds of audit rows, whose failures are
  -- only logged.
  abbrev pub finish :
      String
      → Value
      → Bool
      → Option String
      → Instant
      → Result PolicyError PolicyOutcome × Store
      → Result ProxyError PolicyOutcome × Store
  finish name document cached upstream_host now (err e, s) = (err (policy e), s)
  finish name document cached upstream_host now (ok outcome, s) =
      let (failure, s') = take_failure s in
      elim failure [
        | some detail ↦ (err (store_unavailable detail), s')
        | none ↦
            let recorded = (on_connection (record_blocks env name outcome.blocked now) s').1 in
            (ok outcome, note_unless cached upstream_host name document now recorded)
      ]

  unfoldable pub evaluate :
      Value
      → String
      → PolicyConfig
      → Bool
      → Option String
      → Instant
      → Store
      → Result ProxyError PolicyOutcome × Store
  evaluate document name config cached upstream_host now s =
      let observed = observations document in
      let (checks, s') = observe_batch env name observed now (not cached) (clear_failure s) in
      let ledger = request_ledger (not cached) (collect_checks observed checks) in
      finish name document cached upstream_host now
        (Evaluate.evaluate env (store_rules env) ledger document config now s')
