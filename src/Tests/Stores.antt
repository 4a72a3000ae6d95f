-- ===== src/Tests/Stores.antt =====
-- The state database: a small one, whose connection may fail.
use npmfilter.Prelude.{
  ℕ, String, true, false, Option, none, some, List, [], ◌∷◌, ◌≡◌, ◌⊎◌, ◌↔◌, refl, arith, nat_eq,
  eq_iff,
}
use npmfilter.Prelude.Int.{pos, lt_int}
use npmfilter.Prelude.Dict
use npmfilter.Prelude.Dict.{pair_eq}
use npmfilter.Prelude.Result.{ok, err}
use npmfilter.Policy.Types.{BlockRecord, too_new, allow, new_deny}
use npmfilter.Policy.Meta.{scripts_sha256}
use npmfilter.Policy.Memory.{Ledger, InMemoryRules, first_entry, lookup_rule}
use npmfilter.Store.Errors.{query, migrate_failed}
use npmfilter.Store.Types.{NewRule, block_entry, scripts_digest, from_version}
use npmfilter.Store.Tables.{Tables, SeenRow, RuleRow, latest_detail, insert_audit}
use npmfilter.Store.Connection.{Connection, in_transaction, attempt, select, execute}
use npmfilter.Store.Connection.Follows.{HasFault, Reads}
use npmfilter.Store.Rows.{stored_rule, parse_verdict, timestamp}
use npmfilter.Store.Ledger.{recorded_integrity, try_observe_batch}
use npmfilter.Store.Ledger.Recorded.{Represents}
use npmfilter.Store.Ledger.Refines.{observe_all, try_observe_batch-refines}
use npmfilter.Store.Ledger.Evidence.{recorded_integrity-try_observe_batch}
use npmfilter.Store.Rules.{record_rule, try_lookup_rule, stored_of}
use npmfilter.Store.Rules.Recorded.{try_lookup_rule-record_rule}
use npmfilter.Store.Audit.{record_blocks, record_each, append_if_new, audit_columns, prune_seen}
use npmfilter.Store.Audit.Repeated.{record_blocks_again}
use npmfilter.Store.Audit.Pruned.{IsKept, prune_seen-keeps}
use npmfilter.Store.Migrate.{Database, migrate}
use npmfilter.Store.Migrate.Upgraded.{IsCurrent, migrate-IsCurrent}
use npmfilter.Store.Types.Scripts.{scripts_digest-from_version}
use npmfilter.Store.FailClosed.{Store}
use npmfilter.Proxy.Requests.{evaluate}
use npmfilter.Proxy.Requests.Stores.{RepresentsRules}
use npmfilter.Proxy.Requests.Served.{IsServed, reference, evaluate-IsServed}
use npmfilter.Tests.Sample.{env, now, config, hooked, packument, one_file}

-- `pkg@1.0.0` was seen with its hash, and `pkg@1.1.0` is denied.
abbrev seen_row : SeenRow
seen_row = record {
  integrity = some "sha512-AAAA";
  first_seen_ts = pos 10;
  last_seen_ts = pos 20;
  times_seen = pos 2;
  mismatch_count = pos 0;
  last_mismatch_ts = none;
}

abbrev pub rule_row : RuleRow
rule_row = record {
  id = 1;
  integrity = none;
  verdict = "deny";
  scripts_json = none;
  scripts_sha256 = none;
  pins_json = none;
  reason = none;
  actor = none;
  created_ts = pos 20;
}

abbrev tables : Tables
tables = record {
  rules = (("pkg", "1.1.0"), rule_row) ∷ [];
  seen = (("pkg", "1.0.0"), seen_row) ∷ [];
  audit = [];
  last_rule_id = 1;
  last_audit_id = 0;
}

-- The fortieth use fails.
abbrev connection : Connection
connection = record { tables = tables; uses = 0; fails = nat_eq 40 }

abbrev reliable : Connection
reliable = record { tables = tables; uses = 0; fails = λ n. false }

-- The same in memory.
abbrev entries : Ledger ℕ
entries = (("pkg", "1.0.0"), first_entry (some "sha512-AAAA") 10) ∷ []

abbrev rules : InMemoryRules
rules = (("pkg", "1.1.0"), new_deny "pkg" "1.1.0") ∷ []

tables-Represents : Represents tables entries
unfolding recorded_integrity Dict.get
tables-Represents k = ground arith

tables-RepresentsRules : RepresentsRules env tables.rules rules
unfolding stored_rule parse_verdict timestamp lookup_rule Dict.get new_deny
tables-RepresentsRules name version found h =
    ground (arith, h, eq_iff "pkg" name, eq_iff "1.1.0" version)

abbrev pub store : Store
store = record { conn = connection; failure = none }

evaluate-IsServed_example :
    IsServed env store
      (evaluate env packument "pkg" config false (some "registry.npmjs.org") now store).0
      (reference env packument "pkg" config now (rules, entries))
evaluate-IsServed_example =
    evaluate-IsServed env packument "pkg" false (some "registry.npmjs.org") now store config
      (rules, entries) tables-RepresentsRules tables-Represents

abbrev other_hash : List (String × Option String)
other_hash = ("1.0.0", some "sha512-EEEE") ∷ ("2.0.0", some "sha512-CCCC") ∷ []

try_observe_batch-refines_example :
    (((try_observe_batch env "pkg" other_hash now true connection).0 ≡ err query)
      × HasFault connection
      × Represents (try_observe_batch env "pkg" other_hash now true connection).1.tables entries)
    ⊎ (((try_observe_batch env "pkg" other_hash now true connection).0
          ≡ ok (observe_all "pkg" other_hash now entries).0)
        × Represents
            (try_observe_batch env "pkg" other_hash now true connection).1.tables
            (observe_all "pkg" other_hash now entries).1)
try_observe_batch-refines_example =
    try_observe_batch-refines env true "pkg" other_hash now connection entries tables-Represents

on_record : recorded_integrity ("pkg", "1.0.0") tables ≡ some (some "sha512-AAAA")
unfolding recorded_integrity Dict.get
on_record = refl

recorded_integrity-try_observe_batch_example :
    recorded_integrity
      ("pkg", "1.0.0")
      (try_observe_batch env "pkg" other_hash now true connection).1.tables
    ≡ some (some "sha512-AAAA")
recorded_integrity-try_observe_batch_example =
    recorded_integrity-try_observe_batch env now true ("pkg", "1.0.0") (some "sha512-AAAA") "pkg"
      other_hash connection on_record

seen_here : Dict.get ("pkg", "1.0.0") tables.seen ≡ some seen_row
unfolding Dict.get
seen_here = refl

seen_once : Dict.HasDistinctKeys tables.seen
unfolding Dict.get
seen_once = (refl, tt)

prune_seen-keeps_example :
    (((prune_seen env now connection).0 ≡ err query)
      × HasFault connection
      × ((prune_seen env now connection).1.tables ≡ tables))
    ⊎ (((Dict.get ("pkg", "1.0.0") (prune_seen env now connection).1.tables.seen ≡ some seen_row)
          ↔ IsKept (pos 1_000_000) tables.rules ("pkg", "1.0.0") seen_row)
        × ((Dict.get ("pkg", "1.0.0") (prune_seen env now connection).1.tables.seen ≡ none)
            ↔ (¬ IsKept (pos 1_000_000) tables.rules ("pkg", "1.0.0") seen_row))
        × ((prune_seen env now connection).1.tables.rules ≡ tables.rules)
        × ((prune_seen env now connection).1.tables.audit ≡ []))
prune_seen-keeps_example =
    prune_seen-keeps env now connection ("pkg", "1.0.0") seen_row seen_once seen_here

abbrev young : String → BlockRecord
young version = record {
  version = version;
  reason = too_new;
  detail = "published yesterday";
  public_detail = "too new";
}

abbrev blocks : List BlockRecord
blocks = young "2.0.0" ∷ young "3.0.0" ∷ []

two_written : (record_blocks env "pkg" blocks now connection).0 ≡ ok 2
unfolding record_blocks in_transaction attempt record_each select append_if_new latest_detail
    execute insert_audit audit_columns block_entry
two_written = refl

abbrev once : Connection
once = (record_blocks env "pkg" blocks now connection).1

record_blocks_again_example :
    (((((record_blocks env "pkg" blocks 2_000_000 once).0 ≡ err query) × HasFault once)
        ⊎ ((record_blocks env "pkg" blocks 2_000_000 once).0 ≡ ok 0))
      × ((record_blocks env "pkg" blocks 2_000_000 once).1.tables ≡ once.tables))
record_blocks_again_example =
    record_blocks_again env "pkg" blocks now 2_000_000 2 connection (refl, (refl, tt)) two_written

abbrev reviewed : NewRule
reviewed = record {
  name = "pkg";
  version = "1.1.0";
  verdict = allow;
  integrity = some "sha512-BBBB";
  scripts = some (record { hooks = ("install", "node x.js") ∷ [] });
  pins = some (record { files = one_file });
  reason = none;
  actor = some "agent";
}

try_lookup_rule-record_rule_example :
    (((record_rule env reviewed now connection).0 ≡ err query) × HasFault connection)
    ⊎ ((id : ℕ) × ((record_rule env reviewed now connection).0 ≡ ok (stored_of env reviewed id now))
        × Reads
            (record_rule env reviewed now connection).1
            (try_lookup_rule env "pkg" "1.1.0" (record_rule env reviewed now connection).1)
            (ok (some (stored_of env reviewed id now))))
try_lookup_rule-record_rule_example =
    try_lookup_rule-record_rule env reviewed now connection ("{one}", refl, refl) refl

scripts_digest-from_version_example :
    scripts_digest env (from_version env hooked) ≡ scripts_sha256 env hooked
scripts_digest-from_version_example = scripts_digest-from_version env hooked

-- A file of the second schema: `rules` without pins, no audit log, and a row of `seen` that has no hash.
abbrev database : Database
database = record {
  user_version = pos 2;
  indexes = "rules_name_idx" ∷ [];
  rules_columns = "id" ∷ "name" ∷ "version" ∷ "verdict" ∷ [];
  seen_columns = "name" ∷ "version" ∷ "integrity" ∷ [];
  audit_columns = [];
  tables = record tables {
    seen = (("pkg", "0.1.0"), record seen_row { integrity = none }) ∷ tables.seen;
  };
}

is_older : lt_int (pos 2) (pos 4) ≡ true
unfolding lt_int
is_older = refl

is_not_newer : lt_int (pos 4) (pos 2) ≡ false
unfolding lt_int
is_not_newer = refl

migrate-IsCurrent_example :
    (((migrate (nat_eq 40) database).0 ≡ ok tt)
      × IsCurrent database (migrate (nat_eq 40) database).1)
    ⊎ (((migrate (nat_eq 40) database).0 ≡ err migrate_failed)
        × ((migrate (nat_eq 40) database).1.user_version ≡ pos 2)
        × ((n : ℕ) × (nat_eq 40 n ≡ true)))
migrate-IsCurrent_example = migrate-IsCurrent database (nat_eq 40) is_older is_not_newer
