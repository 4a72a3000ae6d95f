-- ===== src/Store/Rules.antt =====
-- The rules of src/store/mod.rs.
pub mod Recorded
use npmfilter.Prelude.{
  ℕ, ◌+◌, String, Bool, true, false, ◌&&◌, Option, none, some, List, [], ◌∷◌, if◌then◌else◌, ◌==◌,
  keep, sort_by,
}
use npmfilter.Prelude
use Prim.Native.Nat.{Ordering}
use npmfilter.Prelude.Text.{str_compare}
use npmfilter.Prelude.Dict
use npmfilter.Prelude.Dict.{pair_eq}
use npmfilter.Prelude.Tree
use npmfilter.Prelude.Result
use npmfilter.Prelude.Result.{Result, ok}
use npmfilter.External.{External}
use npmfilter.Policy.Types.{Verdict, allow, deny}
use npmfilter.Policy.Memory.{Key}
use npmfilter.Store.Errors.{StoreError}
use npmfilter.Store.Types.{
  NewRule, StoredRule, RuleFilter, scripts_text, scripts_digest, pins_to_json, audit_entry,
}
use npmfilter.Store.Tables.{RuleRow, upsert_rule}
use npmfilter.Store.Connection.{Action, pure, lift, ◌>>=◌, ◌>>◌, statement, select, attempt}
use npmfilter.Store.Rows.{verdict_str, parse_verdict, transpose, stored_rule}
use npmfilter.Store.Audit.{append_audit}

abbrev is_wanted : Option String → String → Bool
is_wanted none found = true
is_wanted (some wanted) found = wanted == found

abbrev stored_verdict : Option Verdict → Option String
stored_verdict none = none
stored_verdict (some verdict) = some (verdict_str verdict)

-- The WHERE of `list_rules`.
unfoldable pub matches : RuleFilter → Key × RuleRow → Bool
unfolding verdict_str
matches filter (key, row) =
    is_wanted filter.name key.0 && is_wanted (stored_verdict filter.verdict) row.verdict

-- ORDER BY name, version.
abbrev comes_first : Key × RuleRow → Key × RuleRow → Bool
comes_first a b = elim (str_compare a.0.0 b.0.0) [
  | Ordering.lt ↦ true
  | Ordering.eq ↦ elim (str_compare a.0.1 b.0.1) [ Ordering.lt ↦ true | _ ↦ false ]
  | Ordering.gt ↦ false
]

-- SELECT verdict, COUNT(*) ... GROUP BY verdict.
abbrev or_zero : Option ℕ → ℕ
or_zero none = 0
or_zero (some n) = n

unfoldable pub group_verdicts : List (Key × RuleRow) → List (String × ℕ)
group_verdicts [] = []
group_verdicts ((key, row) ∷ rows) =
    let groups = group_verdicts rows in
    Tree.insert row.verdict (or_zero (Tree.get row.verdict groups) + 1) groups

abbrev set_count : Verdict → ℕ → ℕ × ℕ → ℕ × ℕ
set_count allow count (allows, denies) = (count, denies)
set_count deny count (allows, denies) = (allows, count)

unfoldable pub read_counts : List (String × ℕ) → ℕ × ℕ → Result StoreError (ℕ × ℕ)
read_counts [] counts = ok counts
read_counts ((raw, count) ∷ groups) counts =
    Result.◌>>=◌ (parse_verdict raw)
      (λ verdict. read_counts groups (set_count verdict count counts))

unfoldable pub rule_counts : Action (ℕ × ℕ)
rule_counts = do
  attempt
  groups ← select (λ t. group_verdicts t.rules)
  lift (read_counts groups (0, 0))

module _ (env : External) where
  open env use {Instant}

  -- The columns of a rule, all but its id.
  unfoldable pub rule_columns : NewRule → Option String → Instant → RuleRow
  rule_columns rule pins now = record {
    id = 0;
    integrity = rule.integrity;
    verdict = verdict_str rule.verdict;
    scripts_json = Prelude.◌>>=◌ rule.scripts (λ scripts. some (scripts_text env scripts));
    scripts_sha256 = Prelude.◌>>=◌ rule.scripts (λ scripts. some (scripts_digest env scripts));
    pins_json = pins;
    reason = rule.reason;
    actor = rule.actor;
    created_ts = env.timestamp now;
  }

  -- What `record_rule` answers.
  unfoldable pub stored_of : NewRule → ℕ → Instant → StoredRule Instant
  stored_of rule id now = record {
    id = id;
    rule = record {
      name = rule.name;
      version = rule.version;
      verdict = rule.verdict;
      integrity = rule.integrity;
      scripts_sha256 = Prelude.◌>>=◌ rule.scripts (λ scripts. some (scripts_digest env scripts));
      reason = rule.reason;
      actor = rule.actor;
    };
    scripts_json = Prelude.◌>>=◌ rule.scripts (λ scripts. some (scripts_text env scripts));
    pins = rule.pins;
    created = now;
  }

  unfoldable pub record_rule : NewRule → Instant → Action (StoredRule Instant)
  record_rule rule now = do
    pins ← lift (transpose (pins_to_json env) rule.pins)
    id ← statement (upsert_rule (rule.name, rule.version) (rule_columns rule pins now))
    pure (stored_of rule id now)

  unfoldable pub record_rule_audited : NewRule → Instant → Action (StoredRule Instant)
  record_rule_audited rule now = do
    stored ← record_rule rule now
    append_audit env (audit_entry rule now)
    pure stored

  unfoldable pub try_lookup_rule : String → String → Action (Option (StoredRule Instant))
  try_lookup_rule name version = do
    row ← select (λ t. Dict.get (name, version) t.rules)
    lift (transpose (stored_rule env (name, version)) row)

  unfoldable pub read_rules : List (Key × RuleRow) → Result StoreError (List (StoredRule Instant))
  read_rules [] = ok []
  read_rules ((key, row) ∷ rows) =
      Result.◌>>=◌ (stored_rule env key row)
        (λ rule. Result.◌>>=◌ (read_rules rows) (λ rest. ok (rule ∷ rest)))

  unfoldable pub list_rules : RuleFilter → Action (List (StoredRule Instant))
  list_rules filter = do
    attempt
    rows ← select (λ t. sort_by comes_first (keep (matches filter) t.rules))
    lift (read_rules rows)
