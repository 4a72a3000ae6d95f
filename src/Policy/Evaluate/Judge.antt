-- ===== src/Policy/Evaluate/Judge.antt =====
-- The loop of `evaluate` (src/policy/mod.rs) over the versions: what it collects.
use npmfilter.Prelude.{
  subst, String, Bool, true, false, not, ◌&&◌, ◌||◌, Option, some, List, [], ◌∷◌, any, ◌≡◌, ◌≢◌,
  refl, arith, eq_iff, ◌==◌, Bool-cases, inl, inr, ◌⊎◌,
}
use npmfilter.Prelude.Tree
use npmfilter.External.{External}
use npmfilter.Json.{Value}
use npmfilter.Policy.Types.{
  PolicyConfig, BlockRecord, RuleStore, IntegrityLedger, Decision, admit, block,
}
use npmfilter.Policy.Gates.{evaluate_version}
use npmfilter.Policy.Evaluate.{Entries, published_in, new_record, note, Judged, judge}

abbrev names : String → BlockRecord → Bool
names version r = r.version == version

-- A block record names the version.
abbrev pub is_withheld : String → List BlockRecord → Bool
is_withheld version = any (names version)

-- A version of the document, `present`, is kept or withheld, and not both; no other is either.
abbrev pub IsSplit : String → Bool → Judged → Type 0
IsSplit v present judged =
    (Tree.contains v judged.surviving ≡ (present && not (is_withheld v judged.blocked)))
    × (is_withheld v judged.blocked ≡ (present && not (Tree.contains v judged.surviving)))

note-IsSplit :
    (version v : String) (decision : Decision) (judged : Judged) (present : Bool)
    → ((version == v) ≡ true → present ≡ false)
    → IsSplit v present judged
    → IsSplit v (version == v || present) (note version decision judged)
unfolding new_record
note-IsSplit version v admit judged present h p =
    ground (arith, Tree.contains-add version v judged.surviving)
note-IsSplit version v (block reason detail) judged present h p = ground arith

note_kept :
    (version v : String) (decision : Decision) (judged : Judged)
    → Tree.contains v (note version decision judged).surviving ≡ true
    → ((version ≡ v) × (decision ≡ admit)) ⊎ (Tree.contains v judged.surviving ≡ true)
note_kept version v admit judged h =
    ground (arith, Tree.contains-add version v judged.surviving, eq_iff version v)
note_kept version v (block reason detail) judged h = inr h

note_withheld :
    (version v : String) (decision : Decision) (judged : Judged)
    → is_withheld v (note version decision judged).blocked ≡ true
    → ((version ≡ v) × (decision ≢ admit)) ⊎ (is_withheld v judged.blocked ≡ true)
unfolding new_record
note_withheld version v admit judged h = inr h
note_withheld version v (block reason detail) judged h = ground (arith, eq_iff version v)

get_later :
    (version v : String) (meta m : Value) (versions : Entries)
    → Tree.contains_key version versions ≡ false
    → Tree.get v versions ≡ some m
    → Tree.get v ((version, meta) ∷ versions) ≡ some m
unfolding Tree.get
get_later version v meta m versions fresh e = ground (arith, eq_iff version v)

get_here :
    (v : String) (meta : Value) (versions : Entries) → Tree.get v ((v, meta) ∷ versions) ≡ some meta
unfolding Tree.get
get_here v meta versions = ground (arith, eq_iff v v)

module _ (env : External) {S : Type 0} (rules : RuleStore S) (ledger : IntegrityLedger env S)
    (name : String) (time : Option Entries) (config : PolicyConfig) (now : env.Instant) where
  -- The decision about a version, taken at some state.
  abbrev pub Decides : String → Value → Decision → Type 0
  Decides version meta decision =
      (s : S) × ((evaluate_version env rules ledger name version meta (published_in time version)
          config now s).0
        ≡ decision)

  pub judge-IsSplit :
      (versions : Entries) (s : S) (v : String)
      → Tree.HasDistinctKeys versions
      → IsSplit v
          (Tree.contains_key v versions)
          (judge env rules ledger name time config now versions s).0
  unfolding judge Tree.get Tree.contains
  judge-IsSplit [] s v h = (refl, refl)
  judge-IsSplit ((version, meta) ∷ versions) s v (fresh, h) =
      let (decision, s') =
        evaluate_version env rules ledger name version meta (published_in time version) config now
          s in
      let (judged, s'') = judge env rules ledger name time config now versions s' in
      let step =
        note-IsSplit version v decision judged (Tree.contains_key v versions)
          (λ e. ground (arith, eq_iff version v)) (judge-IsSplit versions s' v h) in
      elim (Bool-cases (version == v)) [ inl e ↦ ground arith | inr e ↦ ground arith ]

  -- A version that is kept was admitted, with its own metadata.
  pub judge-admits :
      (versions : Entries) (s : S) (v : String)
      → Tree.HasDistinctKeys versions
      → Tree.contains v (judge env rules ledger name time config now versions s).0.surviving ≡ true
      → (meta : Value) × (Tree.get v versions ≡ some meta) × Decides v meta admit
  unfolding judge Tree.get Tree.contains
  judge-admits [] s v h e = cc
  judge-admits ((version, meta) ∷ versions) s v (fresh, h) e =
      let (decision, s') =
        evaluate_version env rules ledger name version meta (published_in time version) config now
          s in
      let (judged, s'') = judge env rules ledger name time config now versions s' in
      elim (note_kept version v decision judged e) [
        | inl (same, admitted) ↦
            subst
              (λ w.
                (m : Value) × (Tree.get w ((version, meta) ∷ versions) ≡ some m)
                × Decides w m admit)
              same (meta, get_here version meta versions, (s, admitted))
        | inr later ↦
            let (m, found, decided) = judge-admits versions s' v h later in
            (m, get_later version v meta m versions fresh found, decided)
      ]

  -- A version that is withheld was not admitted, with its own metadata.
  pub judge-blocks :
      (versions : Entries) (s : S) (v : String)
      → Tree.HasDistinctKeys versions
      → is_withheld v (judge env rules ledger name time config now versions s).0.blocked ≡ true
      → (meta : Value) × (decision : Decision) × (Tree.get v versions ≡ some meta)
        × Decides v meta decision
        × (decision ≢ admit)
  unfolding judge Tree.get
  judge-blocks [] s v h e = cc
  judge-blocks ((version, meta) ∷ versions) s v (fresh, h) e =
      let (decision, s') =
        evaluate_version env rules ledger name version meta (published_in time version) config now
          s in
      let (judged, s'') = judge env rules ledger name time config now versions s' in
      elim (note_withheld version v decision judged e) [
        | inl (same, refused) ↦
            subst
              (λ w.
                (m : Value) × (d : Decision) × (Tree.get w ((version, meta) ∷ versions) ≡ some m)
                × Decides w m d
                × (d ≢ admit))
              same (meta, decision, get_here version meta versions, (s, refl), refused)
        | inr later ↦
            let (m, d, found, decided, refused) = judge-blocks versions s' v h later in
            (m, d, get_later version v meta m versions fresh found, decided, refused)
      ]
