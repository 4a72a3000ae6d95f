-- ===== src/Proxy/Cache/Room.antt =====
-- `make_room` of src/proxy/cache.rs, with the loop that evicts the oldest entries.
use mathlib.Core.Bool.{false≢true}
use npmfilter.Prelude.{
  ℕ, ◌≤◌, Bool, true, false, none, List, [], ◌∷◌, map, length, any, ◌||◌, ◌≡◌, refl, is_some,
  Bool-cases, inl, inr, ◌⊎◌, arith,
}
use npmfilter.Proxy.Cache.Entries.{
  Entries, IsConsistent, total, remove-IsConsistent, expire-IsConsistent, get-remove,
}
use npmfilter.Prelude.Dict
use npmfilter.Prelude.Dict.{HasDistinctKeys}
use npmfilter.Prelude.Word.{u64_max, saturating_add-le}
use npmfilter.Proxy.Cache.{
  CacheKey, CacheInner, same_key, same_key_iff, key_eq, remove, fits, is_fresh, expire, by_stored,
  insert_sorted, sort_by_age, evict, make_room,
}

-- The keys of a list by age.
lists : CacheKey → List (ℕ × CacheKey) → Bool
lists q xs = any (λ x. same_key x.1 q) xs

lists-insert_sorted :
    (q : CacheKey) (x : ℕ × CacheKey) (xs : List (ℕ × CacheKey))
    → lists q (insert_sorted x xs) ≡ (same_key x.1 q || lists q xs)
unfolding lists
lists-insert_sorted q x [] = ground arith
lists-insert_sorted q x (y ∷ ys) = ground (arith, lists-insert_sorted q x ys)

lists-sort : (q : CacheKey) (xs : List (ℕ × CacheKey)) → lists q (sort_by_age xs) ≡ lists q xs
unfolding lists sort_by_age
lists-sort q [] = refl
lists-sort q (x ∷ xs) = ground (arith, lists-insert_sorted q x (sort_by_age xs), lists-sort q xs)

lists-keys : (q : CacheKey) (m : Entries) → lists q (map by_stored m) ≡ is_some (Dict.get q m)
unfolding lists Dict.get
lists-keys q [] = refl
lists-keys q ((j, e) ∷ m) = ground (arith, lists-keys q m)

-- No key, no entry.
empty_lem : (m : Entries) → ((q : CacheKey) → is_some (Dict.get q m) ≡ false) → m ≡ []
unfolding Dict.get
empty_lem [] h = refl
empty_lem ((j, e) ∷ m) h = ground (arith, h j, same_key_iff j j)

no_entries :
    (inner : CacheInner)
    → ((q : CacheKey) → is_some (Dict.get q inner.entries) ≡ true → false ≡ true)
    → inner.entries ≡ []
no_entries inner h = empty_lem inner.entries (λ q.
    elim (Bool-cases (is_some (Dict.get q inner.entries))) [
      | inl e ↦ absurd (false≢true (h q e))
      | inr e ↦ e
    ])

empty-fits :
    (max_entries max_bytes incoming : ℕ) (inner : CacheInner)
    → 1 ≤ max_entries
    → incoming ≤ max_bytes
    → IsConsistent inner
    → inner.entries ≡ []
    → fits inner max_entries max_bytes incoming ≡ true
unfolding fits
empty-fits max_entries max_bytes incoming inner n b c e =
    let none_left : (length inner.entries ≡ 0) × (total inner.entries ≡ 0) = rw e (refl, refl) in
    ground (arith, saturating_add-le inner.bytes incoming)

-- With every key on its list, the loop goes on until there is room.
evict-fits :
    (max_entries max_bytes incoming : ℕ) (by_age : List (ℕ × CacheKey)) (inner : CacheInner)
    → 1 ≤ max_entries
    → incoming ≤ max_bytes
    → IsConsistent inner
    → ((q : CacheKey) → is_some (Dict.get q inner.entries) ≡ true → lists q by_age ≡ true)
    → fits (evict max_entries max_bytes incoming by_age inner) max_entries max_bytes incoming ≡ true
unfolding evict lists
evict-fits max_entries max_bytes incoming [] inner n b c h =
    empty-fits max_entries max_bytes incoming inner n b c (no_entries inner h)
evict-fits max_entries max_bytes incoming ((t, key) ∷ by_age) inner n b c h =
    let rest =
      evict-fits max_entries max_bytes incoming by_age (remove key inner) n b
        (remove-IsConsistent key inner c) (λ q e. ground (arith, h q, get-remove key q inner c)) in
    ground (arith, rest)

evict-IsConsistent :
    (max_entries max_bytes incoming : ℕ) (by_age : List (ℕ × CacheKey)) (inner : CacheInner)
    → IsConsistent inner
    → IsConsistent (evict max_entries max_bytes incoming by_age inner)
unfolding evict
evict-IsConsistent max_entries max_bytes incoming [] inner c = c
evict-IsConsistent max_entries max_bytes incoming ((t, key) ∷ by_age) inner c =
    let rest =
      evict-IsConsistent max_entries max_bytes incoming by_age (remove key inner)
        (remove-IsConsistent key inner c) in
    elim (Bool-cases (fits inner max_entries max_bytes incoming)) [
      | inl e ↦ rw e c
      | inr e ↦ rw e rest
    ]

-- A key has the entry it had, or none.
abbrev pub IsKept : CacheKey → CacheInner → CacheInner → Type 0
IsKept q before after =
    (Dict.get q after.entries ≡ none) ⊎ (Dict.get q after.entries ≡ Dict.get q before.entries)

pub evict-IsKept :
    (max_entries max_bytes incoming : ℕ) (by_age : List (ℕ × CacheKey)) (inner : CacheInner)
    (q : CacheKey)
    → IsConsistent inner
    → IsKept q inner (evict max_entries max_bytes incoming by_age inner)
unfolding evict
evict-IsKept max_entries max_bytes incoming [] inner q c = inr refl
evict-IsKept max_entries max_bytes incoming ((t, key) ∷ by_age) inner q c =
    let rest =
      evict-IsKept max_entries max_bytes incoming by_age (remove key inner) q
        (remove-IsConsistent key inner c) in
    elim (Bool-cases (fits inner max_entries max_bytes incoming)) [
      | inl e ↦ rw e (inr refl)
      | inr e ↦ rw e (ground (arith, rest, get-remove key q inner c))
    ]

module _ (ttl max_entries max_bytes incoming now : ℕ) (inner : CacheInner)
    (c : IsConsistent inner) where
  pub make_room-IsKept :
      (q : CacheKey)
      → inner.bytes ≤ u64_max
      → IsKept q inner (make_room ttl max_entries max_bytes incoming now inner)
  unfolding make_room expire
  make_room-IsKept q h =
      let fresh = expire-IsConsistent ttl now inner h c in
      let by_age = sort_by_age (map by_stored (expire ttl now inner).entries) in
      let rest =
        evict-IsKept max_entries max_bytes incoming by_age (expire ttl now inner) q fresh in
      let kept = Dict.get-keep (is_fresh ttl now) q inner.entries c.1 in ground (arith, rest, kept)

  -- If the cache may hold an entry at all and the document that comes is not larger than
  -- `max_bytes`, there is room for it after `make_room`, whatever was held before, where the byte
  -- total was the sum of the entries, each key was there once, and the total was at most
  -- `usize::MAX`.
  pub make_room-fits :
      1 ≤ max_entries
      → incoming ≤ max_bytes
      → inner.bytes ≤ u64_max
      → fits (make_room ttl max_entries max_bytes incoming now inner) max_entries max_bytes incoming
        ≡ true
  unfolding make_room
  make_room-fits n b h =
      let fresh = expire-IsConsistent ttl now inner h c in
      let by_age = sort_by_age (map by_stored (expire ttl now inner).entries) in
      let rest =
        evict-fits max_entries max_bytes incoming by_age (expire ttl now inner) n b fresh (λ q e.
          ground (
            arith,
            lists-sort q (map by_stored (expire ttl now inner).entries),
            lists-keys q (expire ttl now inner).entries,
          )) in
      ground (arith, rest)

  pub make_room-IsConsistent :
      inner.bytes ≤ u64_max → IsConsistent (make_room ttl max_entries max_bytes incoming now inner)
  unfolding make_room
  make_room-IsConsistent h =
      let fresh = expire-IsConsistent ttl now inner h c in
      let by_age = sort_by_age (map by_stored (expire ttl now inner).entries) in
      let rest =
        evict-IsConsistent max_entries max_bytes incoming by_age (expire ttl now inner) fresh in
      elim (Bool-cases (fits inner max_entries max_bytes incoming)) [
        | inl e ↦ rw e c
        | inr e ↦ elim (Bool-cases (fits (expire ttl now inner) max_entries max_bytes incoming)) [
          | inl f ↦ rw (e, f) fresh
          | inr f ↦ rw (e, f) rest
        ]
      ]
