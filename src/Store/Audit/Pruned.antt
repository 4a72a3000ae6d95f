-- ===== src/Store/Audit/Pruned.antt =====
-- What `prune_seen` of src/store/mod.rs deletes.
use npmfilter.Prelude.{true, false, none, some, List, ◌≡◌, ◌≢◌, ◌⊎◌, ◌↔◌, inl, inr, arith, ap}
use npmfilter.Prelude.Int.{ℤ, pos, negsuc, lt_int}
use npmfilter.Prelude.Dict
use npmfilter.Prelude.Dict.{pair_eq, same_pair_iff}
use npmfilter.Prelude.Result.{err}
use npmfilter.External.{External}
use npmfilter.Policy.Memory.{Key}
use npmfilter.Store.Errors.{query}
use npmfilter.Store.Tables.{RuleRow, SeenRow, is_zero, is_evidence, delete_seen}
use npmfilter.Store.Connection.{Connection}
use npmfilter.Store.Connection.Follows.{HasFault, statement-IsAtomic}
use npmfilter.Store.Audit.{prune_seen}

-- The row was observed since then, or has a mismatch, or a rule is about its version.
abbrev pub IsKept : ℤ → List (Key × RuleRow) → Key → SeenRow → Type 0
IsKept before rules key row =
    (lt_int row.last_seen_ts before ≡ false)
    ⊎ (row.mismatch_count ≢ pos 0)
    ⊎ (Dict.contains_key key rules ≡ true)

is_zero_iff : (n : ℤ) → (is_zero n ≡ true) ↔ (n ≡ pos 0)
is_zero_iff (pos n) = ground arith
is_zero_iff (negsuc n) = ground arith

is_evidence_iff :
    (before : ℤ) (rules : List (Key × RuleRow)) (key : Key) (row : SeenRow)
    → (is_evidence before rules (key, row) ≡ true) ↔ IsKept before rules key row
is_evidence_iff before rules key row = ground (arith, is_zero_iff row.mismatch_count)

module _ (env : External) (before : env.Instant) (c : Connection) where
  abbrev limit : ℤ
  limit = env.timestamp before

  -- Where each version has one row: the pruning leaves a row as it is exactly if the version was observed
  -- since then, or has recorded a mismatch, or has a rule, and removes it otherwise; the rules and the
  -- audit log are left alone; or the use of the connection fails, and no table has changed.
  pub prune_seen-keeps :
      (k : Key) (row : SeenRow)
      → Dict.HasDistinctKeys c.tables.seen
      → Dict.get k c.tables.seen ≡ some row
      → (((prune_seen env before c).0 ≡ err query)
          × HasFault c
          × ((prune_seen env before c).1.tables ≡ c.tables))
        ⊎ (((Dict.get k (prune_seen env before c).1.tables.seen ≡ some row)
              ↔ IsKept limit c.tables.rules k row)
            × ((Dict.get k (prune_seen env before c).1.tables.seen ≡ none)
                ↔ (¬ IsKept limit c.tables.rules k row))
            × ((prune_seen env before c).1.tables.rules ≡ c.tables.rules)
            × ((prune_seen env before c).1.tables.audit ≡ c.tables.audit))
  unfolding prune_seen delete_seen
  prune_seen-keeps k row distinct present =
      let kept = Dict.get-keep-when (is_evidence limit c.tables.rules) k c.tables.seen distinct in
      elim (statement-IsAtomic (delete_seen limit) c).1 [
        | inl failed ↦ inl failed
        | inr (done, left) ↦ inr (
          ground (arith, left, kept, present, is_evidence_iff limit c.tables.rules k row),
          ground (arith, left, kept, present, is_evidence_iff limit c.tables.rules k row),
          ap (λ t. t.rules) left,
          ap (λ t. t.audit) left,
        )
      ]
