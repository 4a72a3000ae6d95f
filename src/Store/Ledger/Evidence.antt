-- ===== src/Store/Ledger/Evidence.antt =====
-- What is on record in the ledger of src/store/mod.rs stays on record.
use npmfilter.Prelude.{String, Bool, Option, some, List, [], ◌∷◌, ◌≡◌, ap, ◌∙◌, arith, inl, inr}
use npmfilter.Prelude.Dict.{pair_eq, same_pair_iff}
use npmfilter.External.{External}
use npmfilter.Policy.Memory.{Key}
use npmfilter.Store.Tables.{Tables}
use npmfilter.Store.Connection.{Connection}
use npmfilter.Store.Ledger.{recorded_integrity, try_observe_batch}
use npmfilter.Store.Ledger.Batch.{after_row, observe_rows, try_observe_batch-IsAtomic}
use npmfilter.Store.Ledger.Recorded.{recorded-after_row}

module _ (env : External) (now : env.Instant) (bump : Bool) (k : Key)
    (recorded : Option String) where
  first_kept_some :
      (key : Key) (identity : Option String) (t : Tables)
      → recorded_integrity k t ≡ some recorded
      → recorded_integrity k (after_row env key identity now bump (recorded_integrity key t) t).1
        ≡ some recorded
  first_kept_some key identity t h =
      ground (arith, recorded-after_row env bump key k identity now t, same_pair_iff key k, h)

  observe_rows_keeps :
      (name : String) (observations : List (String × Option String)) (t : Tables)
      → recorded_integrity k t ≡ some recorded
      → recorded_integrity k (observe_rows env name observations now bump t).1 ≡ some recorded
  unfolding observe_rows
  observe_rows_keeps name [] t h = h
  observe_rows_keeps name ((version, identity) ∷ observations) t h =
      observe_rows_keeps name observations _ (first_kept_some (name, version) identity t h)

  -- The integrity that is on record for a version is on record after any batch of observations, of that
  -- version or others, with whatever hashes, and whether the batch succeeds or a use of the connection
  -- fails in it.
  pub recorded_integrity-try_observe_batch :
      (name : String) (observations : List (String × Option String)) (c : Connection)
      → recorded_integrity k c.tables ≡ some recorded
      → recorded_integrity k (try_observe_batch env name observations now bump c).1.tables
        ≡ some recorded
  recorded_integrity-try_observe_batch name observations c h =
      elim (try_observe_batch-IsAtomic env now bump name observations c).1 [
        | inl (failed, fault, left) ↦ ap (recorded_integrity k) left ∙ h
        | inr (done, left) ↦
            ap (recorded_integrity k) left ∙ observe_rows_keeps name observations c.tables h
      ]
