-- ===== src/Prelude/Tree.antt =====
-- `BTreeMap<String, _>` and `BTreeSet<String>` as association lists in the order of the keys, which
-- is the order of iteration. `serde_json::Map` is such a map.
use Prim.Native.Nat.{Ordering}
use Prim.Native.String.{String}
use mathlib.Core.Path.{◌≡◌, refl}
use mathlib.Core.Bool.{Bool, false, ◌||◌}
use mathlib.Core.Option.{Option, none, some}
use mathlib.Core.List.{List, [], ◌∷◌}
use native.Mathlib.Omega.{arith}
use text.Mathlib.Text.{◌==◌}
use text.Mathlib.TextEquality.{eq_iff, path_by_compare}
use npmfilter.Prelude.Tests.{if◌then◌else◌, is_some}
use npmfilter.Prelude.Text.{str_compare}

module _ {ℓ} {V : Type ℓ} where
  unfoldable pub get : String → List (String × V) → Option V
  get k [] = none
  get k ((j, v) ∷ m) = if j == k then some v else get k m

  abbrev pub contains_key : String → List (String × V) → Bool
  contains_key k m = is_some (get k m)

  -- Each key once, as in every map that was built by insertions.
  abbrev pub HasDistinctKeys : List (String × V) → Type 0
  HasDistinctKeys [] = Unit
  HasDistinctKeys ((k, v) ∷ m) = (contains_key k m ≡ false) × HasDistinctKeys m

  unfoldable pub insert : String → V → List (String × V) → List (String × V)
  insert k v [] = (k, v) ∷ []
  insert k v ((j, w) ∷ m) = elim (str_compare j k) [
    | Ordering.lt ↦ (j, w) ∷ insert k v m
    | Ordering.eq ↦ (k, v) ∷ m
    | Ordering.gt ↦ (k, v) ∷ (j, w) ∷ m
  ]

  pub get-insert :
      (k q : String) (v : V) (m : List (String × V))
      → get q (insert k v m) ≡ (if k == q then some v else get q m)
  unfolding get insert
  get-insert k q v [] = refl
  get-insert k q v ((j, w) ∷ m) =
      ground (arith, eq_iff k q, eq_iff j k, eq_iff j q, path_by_compare j k, get-insert k q v m)

  pub get-insert_self : (k : String) (v : V) (m : List (String × V)) → get k (insert k v m) ≡ some v
  get-insert_self k v m = ground (arith, get-insert k k v m, eq_iff k k)

-- `BTreeSet`.
unfoldable pub add : String → List String → List String
add k [] = k ∷ []
add k (j ∷ s) = elim (str_compare j k) [
  | Ordering.lt ↦ j ∷ add k s
  | Ordering.eq ↦ k ∷ s
  | Ordering.gt ↦ k ∷ j ∷ s
]

unfoldable pub contains : String → List String → Bool
contains k [] = false
contains k (j ∷ s) = j == k || contains k s

pub contains-add :
    (k q : String) (s : List String) → contains q (add k s) ≡ (k == q || contains q s)
unfolding contains add
contains-add k q [] = refl
contains-add k q (j ∷ s) =
    ground (arith, eq_iff k q, eq_iff j k, eq_iff j q, path_by_compare j k, contains-add k q s)
