-- ===== src/Policy/Tags/Targets.antt =====
-- Where `repoint_dist_tags` of src/policy/mod.rs moves a tag.
use npmfilter.Prelude.{
  String, Bool, true, false, ◌==◌, Option, none, some, List, [], ◌∷◌, keep, ◌≡◌, ◌≢◌, refl, arith,
  if◌then◌else◌, is_some, ◌&&◌, sym, ◌∙◌, ◌>>=◌, eq_iff, Option-cases, Bool-cases, inl, inr, ◌⊎◌,
}
use npmfilter.Prelude.Tree
use mathlib.Core.Option
use npmfilter.External.{External}
use npmfilter.Json.{Value, string, as_str}
use npmfilter.Policy.Tags.{
  is_stable, later_max, max_from, insert_some, pick_newest, newest_surviving, target_is_stable,
  repoint, repoint_dist_tags,
}

module _ (env : External) where
  max_from-mem :
      (best : String) (versions : List String)
      → Tree.contains (max_from env best versions) (best ∷ versions) ≡ true
  unfolding Tree.contains
  max_from-mem best [] = ground (arith, eq_iff best best)
  max_from-mem best (version ∷ versions) =
      ground (arith, max_from-mem (later_max env best version) versions)

  pick_newest-mem :
      (versions : List String) {newest : String}
      → pick_newest env versions ≡ some newest
      → Tree.contains newest versions ≡ true
  unfolding pick_newest
  pick_newest-mem [] h = cc
  pick_newest-mem (version ∷ versions) h = ground (arith, max_from-mem version versions)

  keep-stable_mem :
      (v : String) (versions : List String)
      → Tree.contains v (keep (is_stable env) versions) ≡ true
      → (Tree.contains v versions ≡ true) × (is_stable env v ≡ true)
  unfolding Tree.contains
  keep-stable_mem v [] h = cc
  keep-stable_mem v (version ∷ versions) h =
      ground (arith, keep-stable_mem v versions, eq_iff version v)

  pick_newest-ne-none :
      (v : String) (versions : List String)
      → Tree.contains v versions ≡ true
      → pick_newest env versions ≢ none
  unfolding pick_newest Tree.contains
  pick_newest-ne-none v [] h = cc
  pick_newest-ne-none v (version ∷ versions) h = cc

  mem-keep :
      (v : String) (versions : List String)
      → Tree.contains v versions ≡ true
      → is_stable env v ≡ true
      → Tree.contains v (keep (is_stable env) versions) ≡ true
  unfolding Tree.contains
  mem-keep v [] h k = cc
  mem-keep v (version ∷ versions) h k = ground (arith, mem-keep v versions, eq_iff version v)

  -- A preferred stable release, where one survives.
  newest_surviving-mem :
      (surviving : List String) (prefer : Bool) {newest : String}
      → newest_surviving env surviving prefer ≡ some newest
      → Tree.contains newest surviving ≡ true
  unfolding newest_surviving
  newest_surviving-mem surviving false h = pick_newest-mem surviving h
  newest_surviving-mem surviving true {newest} h =
      elim (Option-cases (pick_newest env (keep (is_stable env) surviving))) [
        | inl e ↦ pick_newest-mem surviving (ground arith)
        | inr (stable, e) ↦
            (keep-stable_mem newest surviving
              (pick_newest-mem (keep (is_stable env) surviving) (ground arith))).0
      ]

  newest_surviving-stable :
      (v : String) (surviving : List String) {newest : String}
      → Tree.contains v surviving ≡ true
      → is_stable env v ≡ true
      → newest_surviving env surviving true ≡ some newest
      → is_stable env newest ≡ true
  unfolding newest_surviving
  newest_surviving-stable v surviving {newest} mem stable h =
      elim (Option-cases (pick_newest env (keep (is_stable env) surviving))) [
        | inl e ↦ absurd (
            pick_newest-ne-none v (keep (is_stable env) surviving) (mem-keep v surviving mem stable)
              e)
        | inr (found, e) ↦
            (keep-stable_mem newest surviving
              (pick_newest-mem (keep (is_stable env) surviving) (ground arith))).1
      ]

  abbrev pub StaysStable : List String → Bool → String → Type 0
  StaysStable surviving prefer t =
      (v : String)
      → prefer ≡ true
      → Tree.contains v surviving ≡ true
      → is_stable env v ≡ true
      → is_stable env t ≡ true

  newest_surviving_lem :
      (surviving : List String) (prefer : Bool) {t : String}
      → newest_surviving env surviving prefer ≡ some t
      → (Tree.contains t surviving ≡ true) × StaysStable surviving prefer t
  newest_surviving_lem surviving false h =
      (newest_surviving-mem surviving false h, λ v no_pref mem stable. cc)
  newest_surviving_lem surviving true h = (
    newest_surviving-mem surviving true h,
    λ v pref mem stable. newest_surviving-stable v surviving mem stable h,
  )

  -- The target is not a text, or a version that did not survive.
  abbrev pub IsGone : List String → Option String → Type 0
  IsGone surviving target =
      (version : String) → target ≡ some version → Tree.contains version surviving ≡ false

  -- Wherever a tag goes, it goes to a version that survived: its own target if that survived, and
  -- only else, if the target was a stable release or no text at all and some stable release survived,
  -- to a stable release.
  pub repoint-survives :
      (surviving : List String) (target : Option String) {t : String}
      → repoint env surviving target ≡ some t
      → (Tree.contains t surviving ≡ true)
        × ((target ≡ some t)
            ⊎ (IsGone surviving target × StaysStable surviving (target_is_stable env target) t))
  repoint-survives surviving none h =
      let (mem, stable) = newest_surviving_lem surviving true h in
      (mem, inr (λ version e. cc, stable))
  repoint-survives surviving (some target) {t} h =
      elim (Bool-cases (Tree.contains target surviving)) [
        | inl e ↦ (ground arith, inl (ground arith))
        | inr e ↦
            let (mem, stable) =
              newest_surviving_lem surviving (is_stable env target) {t = t} (ground arith) in
            (mem, inr (λ version same. ground arith, stable))
      ]

  insert_some_lem :
      (tag q : String) (target : Option String) (out : List (String × Value))
      → Tree.get q (insert_some env tag target out)
        ≡ (if tag == q && is_some target then Option.map string target else Tree.get q out)
  insert_some_lem tag q none out = ground arith
  insert_some_lem tag q (some t) out = ground (arith, Tree.get-insert tag q (string t) out)

  get-repoint_dist_tags :
      (tags : List (String × Value)) (surviving : List String) (tag : String)
      → Tree.HasDistinctKeys tags
      → Tree.get tag (repoint_dist_tags env tags surviving) ≡ (
          Tree.get tag tags >>= λ target. Option.map string (repoint env surviving (as_str target)))
  unfolding repoint_dist_tags Tree.get
  get-repoint_dist_tags [] surviving tag d = refl
  get-repoint_dist_tags ((k, target) ∷ tags) surviving tag (fresh, d) =
      elim (Option-cases (repoint env surviving (as_str target))) [
        | inl e ↦ ground (
          arith,
          e,
          eq_iff k tag,
          get-repoint_dist_tags tags surviving tag d,
          insert_some_lem k tag (repoint env surviving (as_str target))
              (repoint_dist_tags env tags surviving),
        )
        | inr (t, e) ↦ ground (
          arith,
          e,
          eq_iff k tag,
          get-repoint_dist_tags tags surviving tag d,
          insert_some_lem k tag (repoint env surviving (as_str target))
              (repoint_dist_tags env tags surviving),
        )
      ]

  -- With `allow_dist_tag_downgrade`, a tag of the rebuilt map is a tag of the packument and names a
  -- version that survived: it stays as the packument gives it, or the version that the packument gives
  -- it did not survive, and then, where that was a stable release or no text and some stable release
  -- survived, it names a stable release.
  pub repoint_dist_tags-survives :
      (tags : List (String × Value)) (surviving : List String) (tag : String) (v : Value)
      → Tree.HasDistinctKeys tags
      → Tree.get tag (repoint_dist_tags env tags surviving) ≡ some v
      → (target : Value) × (t : String) × (Tree.get tag tags ≡ some target)
        × (v ≡ string t)
        × (Tree.contains t surviving ≡ true)
        × ((as_str target ≡ some t)
            ⊎ (IsGone surviving (as_str target)
                × StaysStable surviving (target_is_stable env (as_str target)) t))
  repoint_dist_tags-survives tags surviving tag v d h =
      let e = sym (get-repoint_dist_tags tags surviving tag d) ∙ h in
      elim (Option-cases (Tree.get tag tags)) [
        | inl absent ↦ absurd (ground arith)
        | inr (target, found) ↦ elim (Option-cases (repoint env surviving (as_str target))) [
          | inl gone ↦ absurd (ground arith)
          | inr (t, goes) ↦
              let (mem, kept) = repoint-survives surviving (as_str target) goes in
              (target, t, found, ground arith, mem, kept)
        ]
      ]
