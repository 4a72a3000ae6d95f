-- ===== src/Store/Tables.antt =====
-- The tables of src/store/mod.rs and its SQL statements. `rules` and `seen` are keyed by their unique
-- name and version; `audit` lists its rows newest first, which is by falling id. An INTEGER is a signed
-- number; that a count would pass 2 ^ 63 is not modelled.
use npmfilter.Prelude.{
  ℕ, ◌+◌, ◌-◌, String, Bool, false, not, ◌&&◌, Option, none, some, List, [], ◌∷◌, ◌==◌,
  if◌then◌else◌, keep, length, nat_eq,
}
use npmfilter.Prelude.Int.{ℤ, pos, lt_int, increment}
use npmfilter.Prelude.Dict
use npmfilter.Prelude.Dict.{pair_eq}
use npmfilter.Policy.Memory.{Key}

pub record RuleRow : Type 0 where
  pub id : ℕ
  pub integrity : Option String
  pub verdict : String
  pub scripts_json : Option String
  pub scripts_sha256 : Option String
  pub pins_json : Option String
  pub reason : Option String
  pub actor : Option String
  pub created_ts : ℤ

pub record SeenRow : Type 0 where
  pub integrity : Option String
  pub first_seen_ts : ℤ
  pub last_seen_ts : ℤ
  pub times_seen : ℤ
  pub mismatch_count : ℤ
  pub last_mismatch_ts : Option ℤ

pub record AuditRow : Type 0 where
  pub id : ℕ
  pub ts : ℤ
  pub event : String
  pub severity : String
  pub name : String
  pub version : Option String
  pub detail : String

-- `last_rule_id` and `last_audit_id` are what AUTOINCREMENT remembers.
pub record Tables : Type 0 where
  pub rules : List (Key × RuleRow)
  pub seen : List (Key × SeenRow)
  pub audit : List AuditRow
  pub last_rule_id : ℕ
  pub last_audit_id : ℕ

-- The upsert of `record_rule`: `row` holds all but the id, which the conflicting row keeps.
unfoldable pub put_rule : Key → RuleRow → Option RuleRow → Tables → ℕ × Tables
put_rule key row none t =
    let id = t.last_rule_id + 1 in
    (id, record t { rules = Dict.insert key (record row { id = id }) t.rules; last_rule_id = id })
put_rule key row (some old) t =
    (old.id, record t { rules = Dict.insert key (record row { id = old.id }) t.rules })

unfoldable pub upsert_rule : Key → RuleRow → Tables → ℕ × Tables
upsert_rule key row t = put_rule key row (Dict.get key t.rules) t

-- INSERT INTO seen.
unfoldable pub insert_seen : Key → Option String → ℤ → Tables → Tables
insert_seen key identity now t = record t {
  seen =
      Dict.insert key
        (record {
          integrity = identity;
          first_seen_ts = now;
          last_seen_ts = now;
          times_seen = pos 1;
          mismatch_count = pos 0;
          last_mismatch_ts = none;
        })
        t.seen;
}

abbrev pub seen_once_more : ℤ → SeenRow → SeenRow
seen_once_more now row = record row { last_seen_ts = now; times_seen = increment row.times_seen }

abbrev pub mismatched : ℤ → SeenRow → SeenRow
mismatched now row = record row {
  mismatch_count = increment row.mismatch_count;
  last_mismatch_ts = some now;
}

-- UPDATE ... WHERE name = ?1 AND version = ?2.
abbrev pub update_at : {V : Type 0} → Key → (V → V) → Option V → List (Key × V) → List (Key × V)
update_at key f none rows = rows
update_at key f (some row) rows = Dict.insert key (f row) rows

unfoldable pub bump_seen : Key → ℤ → Tables → Tables
bump_seen key now t = record t {
  seen = update_at key (seen_once_more now) (Dict.get key t.seen) t.seen;
}

unfoldable pub note_mismatch : Key → ℤ → Tables → Tables
note_mismatch key now t = record t {
  seen = update_at key (mismatched now) (Dict.get key t.seen) t.seen;
}

-- INSERT INTO audit; the row comes without an id.
unfoldable pub insert_audit : AuditRow → Tables → Tables
insert_audit row t =
    let id = t.last_audit_id + 1 in
    record t { audit = record row { id = id } ∷ t.audit; last_audit_id = id }

-- `version = ?2`, which no NULL is.
abbrev pub equals_text : Option String → Option String → Bool
equals_text (some a) (some b) = a == b
equals_text _ _ = false

abbrev pub is_same_event : String → Option String → String → AuditRow → Bool
is_same_event name version event row =
    row.name == name && equals_text row.version version && row.event == event

-- The newest row of a package, a version and an event.
unfoldable pub latest_detail : String → Option String → String → List AuditRow → Option String
latest_detail name version event [] = none
latest_detail name version event (row ∷ rows) =
    if is_same_event name version event row
    then some row.detail
    else latest_detail name version event rows

-- The three deletions.
abbrev pub is_recent : ℤ → AuditRow → Bool
is_recent before row = not (lt_int row.ts before)

unfoldable pub delete_audit : ℤ → Tables → ℕ × Tables
delete_audit before t =
    let kept = keep (is_recent before) t.audit in
    (length t.audit - length kept, record t { audit = kept })

abbrev pub is_zero : ℤ → Bool
is_zero (pos n) = nat_eq n 0
is_zero _ = false

abbrev pub is_evidence : ℤ → List (Key × RuleRow) → Key × SeenRow → Bool
is_evidence before rules (key, row) = not (
    lt_int row.last_seen_ts before
    && is_zero row.mismatch_count
    && not (Dict.contains_key key rules))

unfoldable pub delete_seen : ℤ → Tables → ℕ × Tables
delete_seen before t =
    let kept = keep (is_evidence before t.rules) t.seen in
    (length t.seen - length kept, record t { seen = kept })
