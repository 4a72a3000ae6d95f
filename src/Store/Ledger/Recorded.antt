-- ===== src/Store/Ledger/Recorded.antt =====
-- What an observation leaves on record, in the table of src/store/mod.rs and in the map of
-- src/policy/memory.rs.
use npmfilter.Prelude.{
  String, Bool, Option, none, some, List, if◌then◌else◌, ◌≡◌, refl, ◌∙◌, arith, Bool-cases,
  Option-cases, inl, inr,
}
use npmfilter.Prelude.Int.{ℤ, pos}
use npmfilter.Prelude.Dict
use npmfilter.Prelude.Dict.{pair_eq, same_pair, same_pair_iff}
use npmfilter.External.{External}
use npmfilter.Policy.Types.{LedgerCheck, unseen, match, changed}
use npmfilter.Policy.Gates.{same_text}
use npmfilter.Policy.Memory
use npmfilter.Policy.Memory.{Key, Ledger, LedgerEntry, first_entry, seen_again}
use npmfilter.Store.Tables.{
  Tables, SeenRow, insert_seen, update_at, seen_once_more, mismatched, bump_seen, note_mismatch,
}
use npmfilter.Store.Ledger.{recorded_integrity}
use npmfilter.Store.Ledger.Batch.{after_row}

-- The integrity that a map has on record for a key.
abbrev pub recorded_in {ℓ} : {V : Type ℓ} → (V → Option String) → Option V → Option (Option String)
recorded_in f none = none
recorded_in f (some v) = some (f v)

abbrev stored_integrity : SeenRow → Option String
stored_integrity row = row.integrity

module _ {Instant : Type 0} where
  abbrev pub integrity_of : LedgerEntry Instant → Option String
  integrity_of e = e.integrity

  -- The table and the map have the same keys, with the same integrity.
  abbrev pub Represents : Tables → Ledger Instant → Type 0
  Represents t entries =
      (k : Key) → recorded_integrity k t ≡ recorded_in integrity_of (Dict.get k entries)

-- What a key has on record after an observation of `key`: only the first observation is kept.
abbrev pub first_kept : Option String → Option (Option String) → Option (Option String)
first_kept identity none = some identity
first_kept identity (some recorded) = some recorded

-- The answer, by what is on record.
abbrev pub check_of : Option String → Option (Option String) → LedgerCheck
check_of identity none = unseen
check_of identity (some recorded) = if same_text recorded identity then match else changed recorded

pub check-after_row :
    (env : External) (bump : Bool) (key : Key) (identity : Option String) (now : env.Instant)
    (recorded : Option (Option String)) (t : Tables)
    → (after_row env key identity now bump recorded t).0 ≡ check_of identity recorded
unfolding after_row
check-after_row env bump key identity now none t = refl
check-after_row env bump key identity now (some recorded) t =
    elim (Bool-cases (same_text recorded identity)) [ inl e ↦ rw e refl | inr e ↦ rw e refl ]

pub check-observe :
    {Instant : Type 0} (name version : String) (identity : Option String) (now : Instant)
    (entries : Ledger Instant)
    → (Memory.observe name version identity now entries).0
      ≡ check_of identity (recorded_in integrity_of (Dict.get (name, version) entries))
unfolding Memory.observe
check-observe name version identity now entries = ground arith

recorded-insert_seen :
    (key k : Key) (identity : Option String) (now : ℤ) (t : Tables)
    → recorded_integrity k (insert_seen key identity now t)
      ≡ (if same_pair key k then some identity else recorded_integrity k t)
unfolding recorded_integrity insert_seen
recorded-insert_seen key k identity now t =
    let row : SeenRow = record {
      integrity = identity;
      first_seen_ts = now;
      last_seen_ts = now;
      times_seen = pos 1;
      mismatch_count = pos 0;
      last_mismatch_ts = none;
    } in
    ground (arith, Dict.get-insert key k row t.seen)

-- An update of a row that leaves its integrity alone.
recorded-update_at :
    (key k : Key) (f : SeenRow → SeenRow) (rows : List (Key × SeenRow))
    → ((row : SeenRow) → (f row).integrity ≡ row.integrity)
    → recorded_in stored_integrity (Dict.get k (update_at key f (Dict.get key rows) rows))
      ≡ recorded_in stored_integrity (Dict.get k rows)
recorded-update_at key k f rows keeps = elim (Option-cases (Dict.get key rows)) [
  | inl absent ↦ rw absent refl
  | inr (row, present) ↦
      rw present (
        ground (arith, present, keeps row, same_pair_iff key k, Dict.get-insert key k (f row) rows))
]

module _ {Instant : Type 0} where
  pub recorded-observe :
      (name version : String) (k : Key) (identity : Option String) (now : Instant)
      (entries : Ledger Instant)
      → recorded_in integrity_of (Dict.get k (Memory.observe name version identity now entries).1)
        ≡ (if same_pair (name, version) k
            then first_kept identity (recorded_in integrity_of (Dict.get (name, version) entries))
            else recorded_in integrity_of (Dict.get k entries))
  unfolding Memory.observe seen_again
  recorded-observe name version k identity now entries =
      let key : Key = (name, version) in
      elim (Option-cases (Dict.get key entries)) [
        | inl absent ↦
            ground (arith, absent, Dict.get-insert key k (first_entry identity now) entries)
        | inr (old, present) ↦
            ground (arith, present, Dict.get-insert key k (seen_again identity now old) entries)
      ]

recorded-update :
    (key k : Key) (f : SeenRow → SeenRow) (t : Tables)
    → ((row : SeenRow) → (f row).integrity ≡ row.integrity)
    → recorded_integrity k (record t { seen = update_at key f (Dict.get key t.seen) t.seen })
      ≡ recorded_integrity k t
unfolding recorded_integrity
recorded-update key k f t keeps = recorded-update_at key k f t.seen keeps

module _ (env : External) (bump : Bool) where
  open env use {Instant, timestamp}

  -- The row that is found is left with its integrity, whichever update it gets.
  recorded-after_found :
      (key k : Key) (identity recorded : Option String) (now : Instant) (t : Tables)
      → recorded_integrity k (after_row env key identity now bump (some recorded) t).1
        ≡ recorded_integrity k t
  unfolding after_row bump_seen note_mismatch
  recorded-after_found key k identity recorded now t =
      let bumped = recorded-update key k (seen_once_more (timestamp now)) t (λ row. refl) in
      let noted = recorded-update key k (mismatched (timestamp now)) t (λ row. refl) in
      elim (Bool-cases (same_text recorded identity)) [
        | inl e ↦ elim (Bool-cases bump) [ inl b ↦ rw (e, b) bumped | inr b ↦ rw (e, b) refl ]
        | inr e ↦ rw e noted
      ]

  pub recorded-after_row :
      (key k : Key) (identity : Option String) (now : Instant) (t : Tables)
      → recorded_integrity k (after_row env key identity now bump (recorded_integrity key t) t).1
        ≡ (if same_pair key k
            then first_kept identity (recorded_integrity key t)
            else recorded_integrity k t)
  unfolding after_row
  recorded-after_row key k identity now t = elim (Option-cases (recorded_integrity key t)) [
    | inl absent ↦ rw absent (recorded-insert_seen key k identity (timestamp now) t)
    | inr (recorded, present) ↦ rw present (
        recorded-after_found key k identity recorded now t
        ∙ ground (arith, present, same_pair_iff key k))
  ]
