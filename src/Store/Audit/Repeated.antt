-- ===== src/Store/Audit/Repeated.antt =====
-- `record_blocks` of src/store/mod.rs, called again.
use Prim.Native.String
use Prim.Native.String.{String}
use text.Mathlib.TextLemmas.{nil-append, cons-append}
use npmfilter.Prelude.{
  ℕ, Bool, true, false, some, List, [], ◌∷◌, ◌==◌, any, All, if◌then◌else◌, ◌≡◌, refl, sym, ap, ◌∙◌,
  subst, arith, eq_iff, Bool-cases, inl, inr, ◌⊎◌, is_some,
}
use npmfilter.Prelude.Text.{format, strip_prefix_text}
use npmfilter.Prelude.Result.{Result, ok, err}
use npmfilter.External.{External}
use npmfilter.Policy.Types.{BlockRecord, as_str, is_critical}
use npmfilter.Store.Errors.{query}
use npmfilter.Store.Types.{block_entry, event_block, event_tamper}
use npmfilter.Store.Tables.{Tables, insert_audit, latest_detail}
use npmfilter.Store.Connection.{Connection}
use npmfilter.Store.Connection.Follows.{HasFault}
use npmfilter.Store.Audit.{repeats, audit_columns, record_blocks}
use npmfilter.Store.Audit.Batch.{append_row, record_rows, record_blocks-IsAtomic}

-- A common beginning is stripped.
strip_prefix_text-append :
    (a b c : String) → strip_prefix_text (String.◌++◌ a b) (String.◌++◌ a c) ≡ strip_prefix_text b c
unfolding strip_prefix_text
strip_prefix_text-append String.[] b c = rw (nil-append b, nil-append c) refl
strip_prefix_text-append (String.◌∷◌ x a) b c =
    rw (cons-append x a b, cons-append x a c) (ground (arith, strip_prefix_text-append a b c))

-- The detail of a block begins with its reason.
detail_repeats :
    (reason detail : String) → repeats reason (some (format (reason ∷ ": " ∷ detail ∷ []))) ≡ true
unfolding format strip_prefix_text
detail_repeats reason detail = ap is_some (
    strip_prefix_text-append reason (format (": " ∷ [])) (format (": " ∷ detail ∷ []))
    ∙ strip_prefix_text-append ": " (format []) (format (detail ∷ [])))

ok≢err : {E A : Type 0} {a : A} {e : E} → Path (Result E A) (ok a) (err e) → ⊥
ok≢err h = ground arith

-- No version occurs twice.
abbrev names_version : BlockRecord → BlockRecord → Bool
names_version a b = b.version == a.version

abbrev pub HasDistinctVersions : List BlockRecord → Type 0
HasDistinctVersions [] = Unit
HasDistinctVersions (blocked ∷ rest) =
    (any (names_version blocked) rest ≡ false) × HasDistinctVersions rest

module _ (env : External) (name : String) where
  open env use {Instant}

  -- The event of a block, which does not depend on the time.
  abbrev event_of : BlockRecord → String
  event_of blocked = if is_critical blocked.reason then event_tamper else event_block

  -- The newest row of the version and the event has the reason.
  abbrev IsNoted : Tables → BlockRecord → Type 0
  IsNoted t blocked =
      repeats (as_str blocked.reason)
        (latest_detail name (some blocked.version) (event_of blocked) t.audit)
      ≡ true

  -- The step of one block.
  abbrev noted_by : BlockRecord → Instant → Tables → ℕ × Tables
  noted_by blocked now t =
      append_row env (block_entry name blocked now) (as_str blocked.reason)
        (latest_detail name (some blocked.version) (event_of blocked) t.audit) t

  noted_by-IsNoted :
      (blocked : BlockRecord) (now : Instant) (t : Tables)
      → IsNoted (noted_by blocked now t).1 blocked
  unfolding append_row insert_audit latest_detail audit_columns block_entry
  noted_by-IsNoted blocked now t =
      elim (Bool-cases (
        repeats (as_str blocked.reason)
          (latest_detail name (some blocked.version) (event_of blocked) t.audit))) [
            | inl e ↦ rw e e
            | inr e ↦ rw e (
                ground (
                  arith,
                  eq_iff name name,
                  eq_iff blocked.version blocked.version,
                  eq_iff (event_of blocked) (event_of blocked),
                  detail_repeats (as_str blocked.reason) blocked.detail,
                ))
          ]

  noted_by_keeps :
      (blocked other : BlockRecord) (now : Instant) (t : Tables)
      → (blocked.version == other.version) ≡ false
      → IsNoted t other
      → IsNoted (noted_by blocked now t).1 other
  unfolding append_row insert_audit latest_detail audit_columns block_entry
  noted_by_keeps blocked other now t ne h =
      elim (Bool-cases (
        repeats (as_str blocked.reason)
          (latest_detail name (some blocked.version) (event_of blocked) t.audit))) [
            | inl e ↦ rw e h
            | inr e ↦ rw e (ground (arith, ne, h))
          ]

  noted_by_again :
      (blocked : BlockRecord) (now : Instant) (t : Tables)
      → IsNoted t blocked
      → noted_by blocked now t ≡ (0, t)
  unfolding append_row
  noted_by_again blocked now t h = rw h refl

  record_rows_keeps :
      (rest : List BlockRecord) (other : BlockRecord) (now : Instant) (t : Tables)
      → any (names_version other) rest ≡ false
      → IsNoted t other
      → IsNoted (record_rows env name rest now t).1 other
  unfolding record_rows block_entry
  record_rows_keeps [] other now t ne h = h
  record_rows_keeps (blocked ∷ rest) other now t ne h =
      record_rows_keeps rest other now (noted_by blocked now t).1 (ground arith)
        (noted_by_keeps blocked other now t (ground arith) h)

  record_rows-IsNoted :
      (blocks : List BlockRecord) (now : Instant) (t : Tables)
      → HasDistinctVersions blocks
      → All (IsNoted (record_rows env name blocks now t).1) blocks
  unfolding record_rows block_entry
  record_rows-IsNoted [] now t h = tt
  record_rows-IsNoted (blocked ∷ rest) now t (fresh, h) =
      let t' = (noted_by blocked now t).1 in
      (
        record_rows_keeps rest blocked now t' fresh (noted_by-IsNoted blocked now t),
        record_rows-IsNoted rest now t' h,
      )

  record_rows_again :
      (blocks : List BlockRecord) (now : Instant) (t : Tables)
      → All (IsNoted t) blocks
      → record_rows env name blocks now t ≡ (0, t)
  unfolding record_rows block_entry
  record_rows_again [] now t h = refl
  record_rows_again (blocked ∷ rest) now t (noted, h) =
      rw (noted_by_again blocked now t noted, record_rows_again rest now t h) refl

  -- Where no version is blocked twice: once `record_blocks` has recorded the blocks of a document, a
  -- second call with the same blocks, at whatever time, appends no row and changes no table; or a use of
  -- the connection fails in it, and no table has changed either.
  pub record_blocks_again :
      (blocks : List BlockRecord) (now later : Instant) (written : ℕ) (c : Connection)
      → HasDistinctVersions blocks
      → (record_blocks env name blocks now c).0 ≡ ok written
      → let d = (record_blocks env name blocks now c).1 in
        let (r, e) = record_blocks env name blocks later d in
        (((r ≡ err query) × HasFault d) ⊎ (r ≡ ok 0)) × (e.tables ≡ d.tables)
  record_blocks_again blocks now later written c distinct done =
      let d = (record_blocks env name blocks now c).1 in
      elim (record_blocks-IsAtomic env name now blocks c).1 [
        | inl (failed, fault, left) ↦ absurd (ok≢err (sym done ∙ failed))
        | inr (first, left) ↦
            let noted : All (IsNoted d.tables) blocks =
              subst (λ t. All (IsNoted t) blocks) (sym left)
                (record_rows-IsNoted blocks now c.tables distinct) in
            let again = record_rows_again blocks later d.tables noted in
            elim (record_blocks-IsAtomic env name later blocks d).1 [
              | inl (failed, fault, same) ↦ (inl (failed, fault), same)
              | inr (second, same) ↦
                  (inr (second ∙ ap (λ x. ok x.0) again), same ∙ ap (λ x. x.1) again)
            ]
      ]
