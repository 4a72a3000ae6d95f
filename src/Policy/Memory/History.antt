-- ===== src/Policy/Memory/History.antt =====
-- The ledger of src/policy/memory.rs against the history of its observations: trust on first use.
use npmfilter.Prelude.{
  ℕ, ◌+◌, min, String, Bool, true, false, ◌&&◌, Option, none, some, List, [], ◌∷◌, ◌≡◌, refl, subst,
  arith, if◌then◌else◌, Option-cases, Bool-cases, inl, inr, not,
}
use npmfilter.Prelude.Dict
use npmfilter.Prelude.Dict.{pair_eq, same_pair, same_pair_iff}
use npmfilter.Prelude.Word.{u64_max, saturating_add_capped}
use npmfilter.Policy.Types.{LedgerCheck, unseen, match, changed}
use npmfilter.Policy.Gates.{same_text}
use npmfilter.Policy.Gates.Conditions.{same_text_iff}
use npmfilter.Policy.Memory.{Key, LedgerEntry, Ledger, first_entry, seen_again, observe}

pub record Observation (Instant : Type 0) : Type 0 where
  pub key : Key
  pub identity : Option String
  pub at : Instant

-- What the ledger answers, from the first identity of the key.
unfoldable pub answer : Option (Option String) → Option String → LedgerCheck
answer none identity = unseen
answer (some recorded) identity = if same_text recorded identity then match else changed recorded

first_step : Option String → Option (Option String) → Option (Option String)
first_step identity none = some identity
first_step identity (some recorded) = some recorded

module _ {Instant : Type 0} where
  -- The ledger after a history, newest observation first, from an empty one.
  unfoldable pub run : List (Observation Instant) → Ledger Instant
  run [] = []
  run (o ∷ older) = (observe o.key.0 o.key.1 o.identity o.at (run older)).1

  -- The identity of the oldest observation of a key.
  unfoldable pub first_identity : Key → List (Observation Instant) → Option (Option String)
  first_identity k [] = none
  first_identity k (o ∷ older) = elim (first_identity k older) [
    | some identity ↦ some identity
    | none ↦ if same_pair o.key k then some o.identity else none
  ]

  -- How often a key was observed with the identity `recorded`, and with another.
  unfoldable pub count : Key → Bool → Option String → List (Observation Instant) → ℕ
  count k wanted recorded [] = 0
  count k wanted recorded (o ∷ older) =
      let agrees = same_text recorded o.identity in
      if same_pair o.key k && (if wanted then agrees else not agrees)
      then count k wanted recorded older + 1
      else count k wanted recorded older

  -- The entry after an observation of its own key.
  abbrev next_entry : Option String → Instant → Option (LedgerEntry Instant) → LedgerEntry Instant
  next_entry identity now none = first_entry identity now
  next_entry identity now (some e) = seen_again identity now e

  module _ (name version : String) (identity : Option String) (now : Instant)
      (entries : Ledger Instant) where
    get-observe_self :
        Dict.get (name, version) (observe name version identity now entries).1
        ≡ some (next_entry identity now (Dict.get (name, version) entries))
    unfolding observe
    get-observe_self = elim (Option-cases (Dict.get (name, version) entries)) [
      | inl absent ↦
          ground (arith, Dict.get-insert_self (name, version) (first_entry identity now) entries)
      | inr (old, present) ↦
          ground (arith, Dict.get-insert_self (name, version) (seen_again identity now old) entries)
    ]

    get-observe_ne :
        (k : Key)
        → same_pair (name, version) k ≡ false
        → Dict.get k (observe name version identity now entries).1 ≡ Dict.get k entries
    unfolding observe
    get-observe_ne k e = elim (Option-cases (Dict.get (name, version) entries)) [
      | inl absent ↦
          ground (arith, Dict.get-insert (name, version) k (first_entry identity now) entries)
      | inr (old, present) ↦
          ground (arith, Dict.get-insert (name, version) k (seen_again identity now old) entries)
    ]

  -- What the ledger holds of a key, by the first identity in the history.
  abbrev pub Summarises :
      Option (Option String)
      → Key
      → List (Observation Instant)
      → Option (LedgerEntry Instant)
      → Type 0
  Summarises none k history e =
      (e ≡ none)
      × ((wanted : Bool) (recorded : Option String) → count k wanted recorded history ≡ 0)
  Summarises (some recorded) k history e =
      (entry : LedgerEntry Instant) × (e ≡ some entry)
      × (entry.integrity ≡ recorded)
      × (entry.times_seen ≡ min (count k true recorded history) u64_max)
      × (entry.mismatch_count ≡ min (count k false recorded history) u64_max)

  summary_self :
      (o : Observation Instant) (older : List (Observation Instant)) (f : Option (Option String))
      (e : Option (LedgerEntry Instant))
      → Summarises f o.key older e
      → Summarises (first_step o.identity f) o.key (o ∷ older) (some (next_entry o.identity o.at e))
  unfolding count seen_again first_step
  summary_self o older none e h = (
    first_entry o.identity o.at,
    ground arith,
    refl,
    ground (
      arith,
      h.1 true o.identity,
      same_pair_iff o.key o.key,
      same_text_iff o.identity o.identity,
    ),
    ground (
      arith,
      h.1 false o.identity,
      same_pair_iff o.key o.key,
      same_text_iff o.identity o.identity,
    ),
  )
  summary_self o older (some recorded) e (old, here, same, times, mismatches) = (
    seen_again o.identity o.at old,
    ground arith,
    ground arith,
    ground (
      arith,
      same_pair_iff o.key o.key,
      saturating_add_capped old.times_seen 1 (count o.key true recorded older) times,
    ),
    ground (
      arith,
      same_pair_iff o.key o.key,
      saturating_add_capped old.mismatch_count 1 (count o.key false recorded older) mismatches,
    ),
  )

  summary_ne :
      (o : Observation Instant) (older : List (Observation Instant)) (k : Key)
      (f : Option (Option String)) (e : Option (LedgerEntry Instant))
      → same_pair o.key k ≡ false
      → Summarises f k older e
      → Summarises f k (o ∷ older) e
  unfolding count
  summary_ne o older k none e ne h = (h.0, λ wanted recorded. rw ne (h.1 wanted recorded))
  summary_ne o older k (some recorded) e ne (old, here, same, times, mismatches) =
      (old, here, same, rw ne times, rw ne mismatches)

  first_identity_cons :
      (k : Key) (o : Observation Instant) (older : List (Observation Instant))
      → first_identity k (o ∷ older) ≡ (
          if same_pair o.key k
          then first_step o.identity (first_identity k older)
          else first_identity k older)
  unfolding first_identity first_step
  first_identity_cons k o older = ground arith

  -- After any history of observations, in any order of the packages and versions, the ledger holds
  -- for each key that was observed the identity of its first observation; `times_seen` is how often
  -- that identity was observed and `mismatch_count` how often another was, both held at `u64::MAX`;
  -- for a key that was not observed it holds nothing.
  pub run_summary :
      (k : Key) (history : List (Observation Instant))
      → Summarises (first_identity k history) k history (Dict.get k (run history))
  unfolding run first_identity Dict.get count
  run_summary k [] = (refl, λ wanted recorded. refl)
  run_summary k (o ∷ older) = elim (Bool-cases (same_pair o.key k)) [
    | inl e ↦
        subst
          (λ q.
            Summarises (first_identity q (o ∷ older)) q (o ∷ older) (Dict.get q (run (o ∷ older))))
          ((same_pair_iff o.key k).0 e)
          (rw
            (
              first_identity_cons o.key o older,
              (same_pair_iff o.key o.key).1 refl,
              get-observe_self o.key.0 o.key.1 o.identity o.at (run older),
            )
            (summary_self o older (first_identity o.key older) (Dict.get o.key (run older))
              (run_summary o.key older)))
    | inr e ↦
        rw
          (
            first_identity_cons k o older,
            e,
            get-observe_ne o.key.0 o.key.1 o.identity o.at (run older) k e,
          )
          (summary_ne o older k (first_identity k older) (Dict.get k (run older)) e
            (run_summary k older))
  ]

  -- The answer of an observation, from the entry that it finds.
  answer_lem :
      (k : Key) (identity : Option String) (history : List (Observation Instant))
      (f : Option (Option String)) (e : Option (LedgerEntry Instant))
      → Summarises f k history e
      → (elim e as (λ _. LedgerCheck) [
        | none ↦ unseen
        | some x ↦ if same_text x.integrity identity then match else changed x.integrity
      ])
        ≡ answer f identity
  unfolding answer
  answer_lem k identity history none e h = ground arith
  answer_lem k identity history (some recorded) e (x, here, same, times, mismatches) = ground arith

  -- Trust on first use: after any history, an observation is answered `unseen` if its key was never
  -- observed, `match` if it was and the first observation had the same identity, and else `changed`
  -- with the identity of the first observation.
  pub observe-answer :
      (name version : String) (identity : Option String) (now : Instant)
      (history : List (Observation Instant))
      → (observe name version identity now (run history)).0
        ≡ answer (first_identity (name, version) history) identity
  unfolding observe answer
  observe-answer name version identity now history =
      let lemma =
        answer_lem (name, version) identity history (first_identity (name, version) history)
          (Dict.get (name, version) (run history)) (run_summary (name, version) history) in
      ground arith
