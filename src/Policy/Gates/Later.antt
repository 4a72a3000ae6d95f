-- ===== src/Policy/Gates/Later.antt =====
-- What the passing of time changes for the gates of src/policy/mod.rs.
use npmfilter.Prelude.{ℕ, String, Option, none, some, ◌≡◌, inl, inr, arith}
use npmfilter.Prelude.Int.{◌≤ℤ◌, lt_int_mono}
use npmfilter.External.{External}
use npmfilter.Json.{Value}
use npmfilter.Policy.Types.{PolicyConfig, Rule, admit}
use npmfilter.Policy.Gates.{gates}
use npmfilter.Policy.Gates.Conditions.{IsPast, PassesFloor}
use npmfilter.Policy.Gates.Admission.{MayPass, gates-eq-admit_iff}

module _ (env : External) where
  open env use {Instant, num_seconds}

  -- The clock does not run backwards: a later `now` is no nearer to any instant.
  abbrev pub IsLater : Instant → Instant → Type 0
  IsLater now later = (at : Instant) → num_seconds now at ≤ℤ num_seconds later at

  IsPast-later :
      (days : ℕ) (published : Option String) (now later : Instant)
      → IsLater now later
      → IsPast env days published now
      → IsPast env days published later
  IsPast-later days published now later h (raw, at, e, q, old) =
      (raw, at, e, q, lt_int_mono (num_seconds now at) (num_seconds later at) _ old (h at))

  MayPass-later :
      (rule : Option Rule) (name : String) (meta : Value) (published : Option String)
      (config : PolicyConfig) (now later : Instant)
      → IsLater now later
      → MayPass env rule name meta published config now
      → MayPass env rule name meta published config later
  MayPass-later (some r) name meta published config now later h c = c
  MayPass-later none name meta published config now later h (inl b) = inl b
  MayPass-later none name meta published config now later h (inr c) = inr (record {
    hashed = c.hashed;
    aged = elim c.aged [
      | inl z ↦ inl z
      | inr p ↦ inr (IsPast-later config.min_age_days published now later h p)
    ];
    hookless = c.hookless;
  })

  PassesFloor-later :
      (name : String) (meta : Value) (published : Option String) (config : PolicyConfig)
      (now later : Instant)
      → IsLater now later
      → PassesFloor env name meta published config now
      → PassesFloor env name meta published config later
  PassesFloor-later name meta published config now later h p =
      ground (arith, IsPast-later config.install_script_quarantine_days published now later h)

  -- If no instant is nearer at `later` than at `now`, what the gates below the ledger admit at `now`
  -- they admit at `later`, under the same rule, metadata and configuration.
  pub gates-later :
      (rule : Option Rule) (name version : String) (meta : Value) (published : Option String)
      (config : PolicyConfig) (now later : Instant)
      → IsLater now later
      → gates env rule name version meta published config now ≡ admit
      → gates env rule name version meta published config later ≡ admit
  gates-later rule name version meta published config now later h e =
      let (floor, pass) =
        (gates-eq-admit_iff env rule name version meta published config now).0 e in
      (gates-eq-admit_iff env rule name version meta published config later).1 (
        PassesFloor-later name meta published config now later h floor,
        MayPass-later rule name meta published config now later h pass,
      )
