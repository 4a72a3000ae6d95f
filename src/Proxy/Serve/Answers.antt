-- ===== src/Proxy/Serve/Answers.antt =====
-- What `serve_version` of src/proxy/mod.rs answers of a packument that the policy engine filtered.
use npmfilter.Prelude.{
  String, true, false, if◌then◌else◌, Bool-cases, sym, subst, Option, none, some, List, [], ◌∷◌,
  is_some, ◌>>=◌, ◌≡◌, refl, arith, Option-cases, inl, inr,
}
use npmfilter.Prelude.Tree
use npmfilter.Prelude.Result.{ok}
use npmfilter.External.{External}
use npmfilter.Json
use npmfilter.Json.{Value, as_object}
use npmfilter.Policy.Types.{PolicyConfig, PolicyOutcome, BlockRecord, RuleStore, IntegrityLedger}
use npmfilter.Policy.Evaluate.{Entries, evaluate}
use npmfilter.Policy.Evaluate.Judge.{is_withheld}
use npmfilter.Policy.Evaluate.Outcome.{section, IsPackument, evaluate_splits, evaluate-admits}
use npmfilter.Proxy.Shape.{find_record}
use npmfilter.Proxy.Serve.{
  Source, versions_in, exact_or_tag, resolve_spec, Response, refused, target_of, withheld_body,
  unknown_body, refusal, version_not_found, found_or, serve_version,
}

is_withheld-find_record :
    (v : String) (blocked : List BlockRecord)
    → is_withheld v blocked ≡ is_some (find_record v blocked)
unfolding find_record
is_withheld-find_record v [] = refl
is_withheld-find_record v (r ∷ blocked) = ground (arith, is_withheld-find_record v blocked)

-- The version that a request names in a packument, by the text after the package: a version of the
-- packument, first of all; else what a tag of that name says; else no version that is known, and the
-- text stands for itself.
pub data Names (packument : Value) (spec : String) : String → Type 0 where
  by_number :
      Tree.contains_key spec (section "versions" packument) ≡ true → Names packument spec spec
  by_tag :
      {version : String}
      → Tree.contains_key spec (section "versions" packument) ≡ false
      → (Tree.get spec (section "dist-tags" packument) >>= Json.as_str) ≡ some version
      → Names packument spec version
  unknown :
      Tree.contains_key spec (section "versions" packument) ≡ false
      → (Tree.get spec (section "dist-tags" packument) >>= Json.as_str) ≡ none
      → Names packument spec spec

-- What the code looks for: what the text resolves to, or the text.
unfoldable named : PolicyOutcome → String → String
named outcome spec = target_of (resolve_spec outcome.packument spec) spec

or_empty : Option Source → Source
or_empty none = []
or_empty (some versions) = versions

section_versions :
    (document : Value) → section "versions" document ≡ or_empty (versions_in document)
unfolding section or_empty
section_versions document = elim (Option-cases (versions_in document)) [
  | inl absent ↦ ground arith
  | inr (versions, present) ↦ ground arith
]

entry_lem :
    (versions tags : Option Source) (spec : String)
    → (exact_or_tag versions tags spec >>= λ version. versions >>= Tree.get version)
      ≡ Tree.get (target_of (exact_or_tag versions tags spec) spec) (or_empty versions)
unfolding or_empty Tree.get
entry_lem none tags spec = elim (Option-cases (exact_or_tag none tags spec)) [
  | inl absent ↦ rw absent refl
  | inr (target, present) ↦ rw present refl
]
entry_lem (some versions) tags spec = elim (Option-cases (exact_or_tag (some versions) tags spec)) [
  | inl absent ↦ rw absent (ground (arith, absent))
  | inr (target, present) ↦ rw present refl
]

-- What is served is the entry of the named version in the filtered packument, if there is one.
served_lem :
    (name spec : String) (outcome : PolicyOutcome)
    → serve_version name spec outcome
      ≡ found_or (Tree.get (named outcome spec) (section "versions" outcome.packument)) (
          refusal name spec (named outcome spec) (find_record (named outcome spec) outcome.blocked))
unfolding serve_version resolve_spec version_not_found named
served_lem name spec outcome =
    rw
      (
        section_versions outcome.packument,
        entry_lem (versions_in outcome.packument)
            (Json.get "dist-tags" outcome.packument >>= as_object) spec,
      )
      refl

-- In the terms of the two sections of the packument, empty where there is none.
resolve_lem :
    (versions tags : Option Source) (spec : String)
    → exact_or_tag versions tags spec ≡ (
        if Tree.contains_key spec (or_empty versions)
        then some spec
        else Tree.get spec (or_empty tags) >>= Json.as_str)
unfolding or_empty Tree.get
resolve_lem none none spec = refl
resolve_lem none (some tags) spec = refl
resolve_lem (some versions) none spec = refl
resolve_lem (some versions) (some tags) spec = refl

section_tags :
    (document : Value)
    → section "dist-tags" document ≡ or_empty (Json.get "dist-tags" document >>= as_object)
unfolding section or_empty
section_tags document = elim (Option-cases (Json.get "dist-tags" document >>= as_object)) [
  | inl absent ↦ ground arith
  | inr (tags, present) ↦ ground arith
]

resolve_spec_lem :
    (packument : Value) (spec : String)
    → resolve_spec packument spec ≡ (
        if Tree.contains_key spec (section "versions" packument)
        then some spec
        else Tree.get spec (section "dist-tags" packument) >>= Json.as_str)
unfolding resolve_spec
resolve_spec_lem packument spec =
    rw (section_versions packument, section_tags packument)
      (resolve_lem (versions_in packument) (Json.get "dist-tags" packument >>= as_object) spec)

-- The code looks for the version that is named.
named_lem :
    (outcome : PolicyOutcome) (spec : String) {v : String}
    → Names outcome.packument spec v
    → named outcome spec ≡ v
unfolding named
named_lem outcome spec (by_number present) =
    ground (arith, present, resolve_spec_lem outcome.packument spec)
named_lem outcome spec (by_tag absent says) =
    ground (arith, absent, says, resolve_spec_lem outcome.packument spec)
named_lem outcome spec (unknown absent says) =
    ground (arith, absent, says, resolve_spec_lem outcome.packument spec)

-- Every text names a version.
Names-named :
    (outcome : PolicyOutcome) (spec : String) → Names outcome.packument spec (named outcome spec)
Names-named outcome spec =
    let found : (v : String)
        → Names outcome.packument spec v
        → Names outcome.packument spec (named outcome spec) =
      λ v names. subst (Names outcome.packument spec) (sym (named_lem outcome spec names)) names in
    let tag = Tree.get spec (section "dist-tags" outcome.packument) >>= Json.as_str in
    elim (Bool-cases (Tree.contains_key spec (section "versions" outcome.packument))) [
      | inl e ↦ found spec (by_number e)
      | inr e ↦ elim (Option-cases tag) [
        | inl untagged ↦ found spec (unknown e untagged)
        | inr (v, tagged) ↦ found v (by_tag e tagged)
      ]
    ]

module _ (env : External) {S : Type 0} (rules : RuleStore S) (ledger : IntegrityLedger env S)
    (document : Value) (config : PolicyConfig) (now : env.Instant) (s : S) {root : Entries}
    {name : String} {versions : Entries} (p : IsPackument document root name versions)
    {outcome : PolicyOutcome} {s' : S}
    (returned : evaluate env rules ledger document config now s ≡ (ok outcome, s')) where
  answer_lem :
      (spec : String)
      → serve_version name spec outcome
        ≡ (elim (find_record (named outcome spec) outcome.blocked) as (λ _. Response) [
          | some withheld ↦ refused (withheld_body name spec (named outcome spec) withheld)
          | none ↦
              found_or (Tree.get (named outcome spec) versions) (refused (unknown_body name spec))
        ])
  answer_lem spec =
      let v = named outcome spec in
      let splits = evaluate_splits env rules ledger document config now s p returned v in
      let admits = evaluate-admits env rules ledger document config now s p returned v in
      let withheld = is_withheld-find_record v outcome.blocked in
      let served = served_lem name spec outcome in
      elim (Option-cases (find_record v outcome.blocked)) [
        | inl kept ↦ elim (Option-cases (Tree.get v (section "versions" outcome.packument))) [
          | inl absent ↦
              let nowhere : Tree.get v versions ≡ none = ground (arith, splits.0, withheld) in
              rw (kept, nowhere) (ground arith)
          | inr (meta, present) ↦
              let upstream = (admits meta present).0 in rw (kept, upstream) (ground arith)
        ]
        | inr (r, refused_for) ↦
            let gone : Tree.get v (section "versions" outcome.packument) ≡ none =
              ground (arith, splits.0, withheld) in
            rw refused_for (ground arith)
      ]

  -- A request for a version of a filtered packument names one version: the one with that number if it is
  -- served, and else the one that a tag of that name gives, and else the text itself. It is answered
  -- with the refusal that names the gate if the engine withheld that version, and else with the
  -- metadata that upstream published of it, or with "not found" if upstream has no such version.
  pub serve_version-evaluate :
      (spec : String)
      → (v : String) × Names outcome.packument spec v
        × (serve_version name spec outcome
            ≡ (elim (find_record v outcome.blocked) as (λ _. Response) [
              | some withheld ↦ refused (withheld_body name spec v withheld)
              | none ↦ found_or (Tree.get v versions) (refused (unknown_body name spec))
            ]))
  serve_version-evaluate spec = (named outcome spec, Names-named outcome spec, answer_lem spec)
