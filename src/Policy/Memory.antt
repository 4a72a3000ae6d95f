-- ===== src/Policy/Memory.antt =====
-- src/policy/memory.rs: the in-memory rules store and integrity ledger. A mutex around a map is the
-- map: each method holds the lock from its first to its last access.
pub mod History
pub mod Verdicts
pub mod Replaced
use npmfilter.Prelude.{ℕ, String, Bool, Option, none, some, List, [], ◌∷◌, if◌then◌else◌}
use npmfilter.Prelude.Dict
use npmfilter.Prelude.Dict.{pair_eq}
use npmfilter.Prelude.Word.{saturating_add}
use npmfilter.External.{External}
use npmfilter.Policy.Types.{Rule, LedgerCheck, unseen, match, changed, RuleStore, IntegrityLedger}
use npmfilter.Policy.Gates.{same_text}

abbrev pub Key : Type 0
Key = String × String

-- `LedgerEntry`.
pub record LedgerEntry (Instant : Type 0) : Type 0 where
  pub integrity : Option String
  pub first_seen : Instant
  pub last_seen : Instant
  pub times_seen : ℕ
  pub mismatch_count : ℕ
  pub last_mismatch : Option Instant

abbrev pub InMemoryRules : Type 0
InMemoryRules = List (Key × Rule)

-- `InMemoryRules::insert`.
unfoldable pub insert_rule : Rule → InMemoryRules → InMemoryRules
insert_rule rule rules = Dict.insert (rule.name, rule.version) rule rules

unfoldable pub lookup_rule : String → String → InMemoryRules → Option Rule
lookup_rule name version rules = Dict.get (name, version) rules

abbrev pub Ledger : Type 0 → Type 0
Ledger Instant = List (Key × LedgerEntry Instant)

module _ {Instant : Type 0} where
  abbrev pub first_entry : Option String → Instant → LedgerEntry Instant
  first_entry integrity now = record {
    integrity = integrity;
    first_seen = now;
    last_seen = now;
    times_seen = 1;
    mismatch_count = 0;
    last_mismatch = none;
  }

  -- `InMemoryLedger::seed` and `InMemoryLedger::entry`.
  unfoldable pub seed : String → String → Option String → Instant → Ledger Instant → Ledger Instant
  seed name version integrity first_seen entries =
      Dict.insert (name, version) (first_entry integrity first_seen) entries

  unfoldable pub entry : String → String → Ledger Instant → Option (LedgerEntry Instant)
  entry name version entries = Dict.get (name, version) entries

  -- What an observation makes of the entry that is there.
  unfoldable pub seen_again : Option String → Instant → LedgerEntry Instant → LedgerEntry Instant
  seen_again integrity now e =
      if same_text e.integrity integrity
      then record e { last_seen = now; times_seen = saturating_add e.times_seen 1 }
      else record e { mismatch_count = saturating_add e.mismatch_count 1; last_mismatch = some now }

  unfoldable pub observe :
      String → String → Option String → Instant → Ledger Instant → LedgerCheck × Ledger Instant
  observe name version integrity now entries = elim (Dict.get (name, version) entries) [
    | some e ↦ (
      if same_text e.integrity integrity then match else changed e.integrity,
      Dict.insert (name, version) (seen_again integrity now e) entries,
    )
    | none ↦ (unseen, Dict.insert (name, version) (first_entry integrity now) entries)
  ]

-- The two stores behind the engine's traits, over the pair of their states.
module _ (env : External) where
  abbrev pub Memory : Type 0
  Memory = InMemoryRules × Ledger env.Instant

  abbrev pub memory_rules : RuleStore Memory
  memory_rules = record { lookup = λ name version s. (lookup_rule name version s.0, s) }

  abbrev pub observe_in :
      String → String → Option String → env.Instant → Memory → LedgerCheck × Memory
  observe_in name version integrity now (rules, entries) =
      let (check, entries') = observe name version integrity now entries in
      (check, (rules, entries'))

  abbrev pub memory_ledger : IntegrityLedger env Memory
  memory_ledger = record { observe = observe_in }
