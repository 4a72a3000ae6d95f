-- ===== src/Store/Ledger/Refines.antt =====
-- The ledger of src/store/mod.rs against the ledger of src/policy/memory.rs.
use npmfilter.Prelude.{
  String, Bool, Option, List, [], ◌∷◌, ◌≡◌, refl, subst, ◌∙◌, sym, ap, arith, inl, inr, ◌⊎◌,
}
use npmfilter.Prelude.Dict.{pair_eq}
use npmfilter.Prelude.Result.{ok, err}
use npmfilter.External.{External}
use npmfilter.Policy.Types.{LedgerCheck}
use npmfilter.Policy.Memory
use npmfilter.Policy.Memory.{Key, Ledger, LedgerEntry, first_entry, seen_again}
use npmfilter.Store.Errors.{query}
use npmfilter.Store.Tables.{Tables}
use npmfilter.Store.Connection.{Connection}
use npmfilter.Store.Connection.Follows.{HasFault}
use npmfilter.Store.Ledger.{recorded_integrity, try_observe_batch}
use npmfilter.Store.Ledger.Recorded.{
  Represents, check_of, check-after_row, check-observe, recorded-observe, recorded-after_row,
}
use npmfilter.Store.Ledger.Batch.{after_row, observe_rows, try_observe_batch-IsAtomic}

module _ {Instant : Type 0} where
  -- The observations of a batch, one after the other, on the map.
  unfoldable pub observe_all :
      String
      → List (String × Option String)
      → Instant
      → Ledger Instant
      → List LedgerCheck × Ledger Instant
  observe_all name [] now entries = ([], entries)
  observe_all name ((version, identity) ∷ observations) now entries =
      let (check, entries') = Memory.observe name version identity now entries in
      let (checks, entries'') = observe_all name observations now entries' in
      (check ∷ checks, entries'')

module _ (env : External) (bump : Bool) where
  open env use {Instant}

  observe_row :
      (name version : String) (identity : Option String) (now : Instant) (t : Tables)
      (entries : Ledger Instant)
      → Represents t entries
      → ((after_row env
            (name, version)
            identity
            now
            bump
            (recorded_integrity (name, version) t)
            t).0
          ≡ (Memory.observe name version identity now entries).0)
        × Represents
            (after_row env
              (name, version)
              identity
              now
              bump
              (recorded_integrity (name, version) t)
              t).1
            (Memory.observe name version identity now entries).1
  observe_row name version identity now t entries h =
      let key : Key = (name, version) in
      (
        check-after_row env bump key identity now (recorded_integrity key t) t
            ∙ ap (check_of identity) (h key)
            ∙ sym (check-observe name version identity now entries),
        λ k.
            recorded-after_row env bump key k identity now t
            ∙ ground (arith, h k, h key)
            ∙ sym (recorded-observe name version k identity now entries),
      )

  pub observe_rows-refines :
      (name : String) (observations : List (String × Option String)) (now : Instant) (t : Tables)
      (entries : Ledger Instant)
      → Represents t entries
      → ((observe_rows env name observations now bump t).0
          ≡ (observe_all name observations now entries).0)
        × Represents
            (observe_rows env name observations now bump t).1
            (observe_all name observations now entries).1
  unfolding observe_rows observe_all
  observe_rows-refines name [] now t entries h = (refl, h)
  observe_rows-refines name ((version, identity) ∷ observations) now t entries h =
      let key : Key = (name, version) in
      let t' = (after_row env key identity now bump (recorded_integrity key t) t).1 in
      let entries' = (Memory.observe name version identity now entries).1 in
      let (check, next) = observe_row name version identity now t entries h in
      let (checks, last) = observe_rows-refines name observations now t' entries' next in
      (ground (arith, check, checks), last)

  -- Where `seen` has the same keys as the in-memory ledger, with the same integrity, a batch is answered
  -- as the in-memory ledger answers its observations one by one, and the two agree again after it,
  -- whether the counts are bumped or not; or a use of the connection fails, the batch reports that, and
  -- the table still agrees with the ledger from before.
  pub try_observe_batch-refines :
      (name : String) (observations : List (String × Option String)) (now : Instant)
      (c : Connection) (entries : Ledger Instant)
      → Represents c.tables entries
      → (((try_observe_batch env name observations now bump c).0 ≡ err query)
          × HasFault c
          × Represents (try_observe_batch env name observations now bump c).1.tables entries)
        ⊎ (((try_observe_batch env name observations now bump c).0
              ≡ ok (observe_all name observations now entries).0)
            × Represents
                (try_observe_batch env name observations now bump c).1.tables
                (observe_all name observations now entries).1)
  try_observe_batch-refines name observations now c entries h =
      let (answers, last) = observe_rows-refines name observations now c.tables entries h in
      let (same, outcome) = try_observe_batch-IsAtomic env now bump name observations c in
      elim outcome [
        | inl (failed, fault, left) ↦
            inl (failed, fault, subst (λ t. Represents t entries) (sym left) h)
        | inr (done, left) ↦ inr (
          done ∙ ap ok answers,
          subst (λ t. Represents t (observe_all name observations now entries).1) (sym left) last,
        )
      ]
