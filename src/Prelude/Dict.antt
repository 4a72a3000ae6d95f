-- ===== src/Prelude/Dict.antt =====
-- `HashMap`, as an association list over keys with a Boolean equality. The order of the entries is
-- the order in which an iterator visits them, which the program does not choose.
use mathlib.Core.Path.{◌≡◌, refl}
use mathlib.Core.Logic.{◌↔◌, ◌⊎◌, inl}
use mathlib.Core.Bool.{Bool, true, false, ◌&&◌}
use mathlib.Core.Option.{Option, none, some}
use mathlib.Core.List.{List, [], ◌∷◌}
use native.Mathlib.Omega.{arith}
use text.Mathlib.Text.{◌==◌}
use text.Mathlib.TextEquality.{eq_iff}
use Prim.Native.String.{String}
use npmfilter.Prelude.Tests.{if◌then◌else◌, is_some}
use npmfilter.Prelude.Lists.{keep}

pub record Eq {ℓ} (K : Type ℓ) : Type ℓ where
  pub same : K → K → Bool
  pub same_iff : (a b : K) → (same a b ≡ true) ↔ (a ≡ b)

abbrev pub same_pair : String × String → String × String → Bool
same_pair a b = a.0 == b.0 && a.1 == b.1

pub same_pair_iff : (a b : String × String) → (same_pair a b ≡ true) ↔ (a ≡ b)
same_pair_iff (a, c) (b, d) = ground (arith, eq_iff a b, eq_iff c d)

-- The keys of the rules and of the ledger: a package name and a version.
instance abbrev pub pair_eq : Eq (String × String)
pair_eq = record { same = same_pair; same_iff = same_pair_iff }

-- The keys of a map of texts.
instance abbrev pub text_eq : Eq String
text_eq = record { same = λ a b. a == b; same_iff = eq_iff }

-- `Option::filter`.
abbrev pub when {ℓ} : {V : Type ℓ} → (V → Bool) → Option V → Option V
when p none = none
when p (some v) = if p v then some v else none

module _ {ℓ} {K V : Type ℓ} ⦃e : Eq K⦄ where
  unfoldable pub get : K → List (K × V) → Option V
  get k [] = none
  get k ((j, v) ∷ m) = if e.same j k then some v else get k m

  abbrev pub contains_key : K → List (K × V) → Bool
  contains_key k m = is_some (get k m)

  unfoldable pub insert : K → V → List (K × V) → List (K × V)
  insert k v [] = (k, v) ∷ []
  insert k v ((j, w) ∷ m) = if e.same j k then (k, v) ∷ m else (j, w) ∷ insert k v m

  unfoldable pub remove : K → List (K × V) → List (K × V)
  remove k [] = []
  remove k ((j, w) ∷ m) = if e.same j k then m else (j, w) ∷ remove k m

  pub get-insert :
      (k q : K) (v : V) (m : List (K × V))
      → get q (insert k v m) ≡ (if e.same k q then some v else get q m)
  unfolding get insert
  get-insert k q v [] = refl
  get-insert k q v ((j, w) ∷ m) =
      ground (arith, e.same_iff k q, e.same_iff j k, e.same_iff j q, get-insert k q v m)

  pub get-insert_self : (k : K) (v : V) (m : List (K × V)) → get k (insert k v m) ≡ some v
  get-insert_self k v m = ground (arith, get-insert k k v m, e.same_iff k k)

  abbrev pub HasDistinctKeys : List (K × V) → Type 0
  HasDistinctKeys [] = Unit
  HasDistinctKeys ((j, v) ∷ m) = (contains_key j m ≡ false) × HasDistinctKeys m

  pub get-remove :
      (k q : K) (m : List (K × V))
      → HasDistinctKeys m
      → get q (remove k m) ≡ (if e.same k q then none else get q m)
  unfolding get remove
  get-remove k q [] h = ground arith
  get-remove k q ((j, w) ∷ m) h =
      ground (arith, e.same_iff k q, e.same_iff j k, e.same_iff j q, get-remove k q m h.1)

  pub insert-HasDistinctKeys :
      (k : K) (v : V) (m : List (K × V)) → HasDistinctKeys m → HasDistinctKeys (insert k v m)
  unfolding insert get
  insert-HasDistinctKeys k v [] h = (refl, tt)
  insert-HasDistinctKeys k v ((j, w) ∷ m) h =
      ground (
        arith,
        e.same_iff j k,
        e.same_iff k j,
        get-insert k j v m,
        insert-HasDistinctKeys k v m h.1,
      )

  pub remove-HasDistinctKeys :
      (k : K) (m : List (K × V)) → HasDistinctKeys m → HasDistinctKeys (remove k m)
  unfolding remove
  remove-HasDistinctKeys k [] h = tt
  remove-HasDistinctKeys k ((j, w) ∷ m) h =
      ground (arith, get-remove k j m h.1, remove-HasDistinctKeys k m h.1)

  -- Filtered by a test, a key has what it had or nothing.
  pub get-keep :
      (p : K × V → Bool) (q : K) (m : List (K × V))
      → HasDistinctKeys m
      → (get q (keep p m) ≡ none) ⊎ (get q (keep p m) ≡ get q m)
  unfolding get
  get-keep p q [] h = inl refl
  get-keep p q ((j, w) ∷ m) h = ground (arith, e.same_iff j q, get-keep p q m h.1)

  pub keep-HasDistinctKeys :
      (p : K × V → Bool) (m : List (K × V)) → HasDistinctKeys m → HasDistinctKeys (keep p m)
  keep-HasDistinctKeys p [] h = tt
  keep-HasDistinctKeys p ((j, w) ∷ m) h =
      ground (arith, get-keep p j m h.1, keep-HasDistinctKeys p m h.1)

  -- Filtered by a test, a key has what it had, if that passes.
  pub get-keep-when :
      (p : K × V → Bool) (q : K) (m : List (K × V))
      → HasDistinctKeys m
      → get q (keep p m) ≡ when (λ v. p (q, v)) (get q m)
  unfolding get
  get-keep-when p q [] h = refl
  get-keep-when p q ((j, w) ∷ m) h = ground (arith, e.same_iff j q, get-keep-when p q m h.1)
