-- ===== src/Proxy/Cache/Order.antt =====
-- Which entries the loop of `make_room` (src/proxy/cache.rs) evicts.
use mathlib.Core.Bool.{false≢true}
use npmfilter.Prelude.{
  ℕ, ◌≤◌, Bool, true, false, ◌&&◌, ◌||◌, Option, none, some, List, [], ◌∷◌, All, map, any, nat_eq,
  leb, ◌≡◌, refl, Bool-cases, inl, inr, arith, ◌⊎◌, ◌∙◌,
}
use npmfilter.Prelude.Dict
use npmfilter.Prelude.Dict.{HasDistinctKeys}
use npmfilter.Prelude.Word.{u64_max}
use npmfilter.Proxy.Cache.{
  CacheKey, CacheEntry, CacheInner, same_key, same_key_iff, key_eq, remove, fits, is_fresh, expire,
  by_stored, insert_sorted, sort_by_age, evict, make_room,
}
use npmfilter.Proxy.Cache.Entries.{
  Entries, IsConsistent, get-remove, remove-IsConsistent, expire-IsConsistent,
}
use npmfilter.Proxy.Cache.Room.{evict-IsKept}

abbrev Ages : Type 0
Ages = List (ℕ × CacheKey)

abbrev IsSorted : Ages → Type 0
IsSorted [] = Unit
IsSorted (x ∷ xs) = All (λ y. x.0 ≤ y.0) xs × IsSorted xs

lists_at : ℕ → CacheKey → Ages → Bool
lists_at t k xs = any (λ x. nat_eq x.0 t && same_key x.1 k) xs

All-le_trans : (a b : ℕ) (xs : Ages) → a ≤ b → All (λ y. b ≤ y.0) xs → All (λ y. a ≤ y.0) xs
All-le_trans a b [] h p = tt
All-le_trans a b (x ∷ xs) h p = (omega (arith, p.0), All-le_trans a b xs h p.1)

All-insert_sorted :
    (a : ℕ) (x : ℕ × CacheKey) (xs : Ages)
    → a ≤ x.0
    → All (λ y. a ≤ y.0) xs
    → All (λ y. a ≤ y.0) (insert_sorted x xs)
All-insert_sorted a x [] h p = (h, tt)
All-insert_sorted a x (y ∷ ys) h p = elim (Bool-cases (leb x.0 y.0)) [
  | inl e ↦ rw e (h, p)
  | inr e ↦ rw e (p.0, All-insert_sorted a x ys h p.1)
]

insert_sorted-IsSorted :
    (x : ℕ × CacheKey) (xs : Ages) → IsSorted xs → IsSorted (insert_sorted x xs)
insert_sorted-IsSorted x [] p = (tt, tt)
insert_sorted-IsSorted x (y ∷ ys) p = elim (Bool-cases (leb x.0 y.0)) [
  | inl e ↦ let le : x.0 ≤ y.0 = ground arith in rw e ((le, All-le_trans x.0 y.0 ys le p.0), p)
  | inr e ↦
      let le : y.0 ≤ x.0 = ground arith in
      rw e (All-insert_sorted y.0 x ys le p.0, insert_sorted-IsSorted x ys p.1)
]

sort-IsSorted : (xs : Ages) → IsSorted (sort_by_age xs)
unfolding sort_by_age
sort-IsSorted [] = tt
sort-IsSorted (x ∷ xs) = insert_sorted-IsSorted x (sort_by_age xs) (sort-IsSorted xs)

lists_at-insert_sorted :
    (t : ℕ) (k : CacheKey) (x : ℕ × CacheKey) (xs : Ages)
    → lists_at t k (insert_sorted x xs) ≡ ((nat_eq x.0 t && same_key x.1 k) || lists_at t k xs)
unfolding lists_at
lists_at-insert_sorted t k x [] = ground arith
lists_at-insert_sorted t k x (y ∷ ys) = ground (arith, lists_at-insert_sorted t k x ys)

lists_at-sort : (t : ℕ) (k : CacheKey) (xs : Ages) → lists_at t k (sort_by_age xs) ≡ lists_at t k xs
unfolding lists_at sort_by_age
lists_at-sort t k [] = refl
lists_at-sort t k (x ∷ xs) =
    ground (arith, lists_at-insert_sorted t k x (sort_by_age xs), lists_at-sort t k xs)

abbrev is_at : ℕ → Option CacheEntry → Bool
is_at t none = false
is_at t (some e) = nat_eq e.stored t

lists_at-entries :
    (t : ℕ) (k : CacheKey) (m : Entries)
    → HasDistinctKeys m
    → lists_at t k (map by_stored m) ≡ is_at t (Dict.get k m)
unfolding lists_at Dict.get
lists_at-entries t k [] h = refl
lists_at-entries t k ((j, d) ∷ m) h = ground (arith, lists_at-entries t k m h.1, same_key_iff j k)

sorted_le :
    (t u : ℕ) (j k : CacheKey) (xs : Ages)
    → All (λ y. t ≤ y.0) xs
    → lists_at u k ((t, j) ∷ xs) ≡ true
    → t ≤ u
unfolding lists_at
sorted_le t u j k [] p h = ground arith
sorted_le t u j k ((v, i) ∷ xs) p h = ground (arith, sorted_le t u j k xs p.1)

module _ (max_entries max_bytes incoming : ℕ) (q r : CacheKey) (gone kept : CacheEntry) where
  evict_order :
      (by_age : Ages) (inner : CacheInner)
      → IsConsistent inner
      → IsSorted by_age
      → ((k : CacheKey) (e : CacheEntry)
          → Dict.get k inner.entries ≡ some e
          → lists_at e.stored k by_age ≡ true)
      → ((t : ℕ) (k : CacheKey) (e : CacheEntry)
          → lists_at t k by_age ≡ true
          → Dict.get k inner.entries ≡ some e
          → e.stored ≡ t)
      → Dict.get q inner.entries ≡ some gone
      → Dict.get q (evict max_entries max_bytes incoming by_age inner).entries ≡ none
      → Dict.get r (evict max_entries max_bytes incoming by_age inner).entries ≡ some kept
      → gone.stored ≤ kept.stored
  unfolding evict lists_at
  evict_order [] inner c s l a hq nq hr = absurd (false≢true (ground arith))
  evict_order ((t, key) ∷ by_age) inner c s l a hq nq hr =
      let rest = evict max_entries max_bytes incoming by_age (remove key inner) in
      let c' = remove-IsConsistent key inner c in
      let go =
        evict_order by_age (remove key inner) c' s.1
          (λ k e h. ground (arith, l k e, get-remove key k inner c))
          (λ u k e m h. ground (arith, a u k e, get-remove key k inner c)) in
      elim (Bool-cases (fits inner max_entries max_bytes incoming)) [
        | inl full ↦ absurd (false≢true (ground arith))
        | inr full ↦
            let nq' : Dict.get q rest.entries ≡ none = ground arith in
            let hr' : Dict.get r rest.entries ≡ some kept = ground arith in
            let before =
              evict-IsKept max_entries max_bytes incoming by_age (remove key inner) r c' in
            elim (Bool-cases (same_key key q)) [
              | inl same ↦
                  let first : gone.stored ≡ t = ground (arith, a t q gone) in
                  let held : Dict.get r inner.entries ≡ some kept =
                    ground (arith, before, get-remove key r inner c) in
                  let le = sorted_le t kept.stored key r by_age s.0 (l r kept held) in
                  omega (arith, first, le)
              | inr differ ↦ go (ground (arith, get-remove key q inner c)) nq' hr'
            ]
      ]

expire_kept :
    (ttl now : ℕ) (inner : CacheInner) (q : CacheKey)
    → IsConsistent inner
    → (Dict.get q (expire ttl now inner).entries ≡ none)
      ⊎ (Dict.get q (expire ttl now inner).entries ≡ Dict.get q inner.entries)
unfolding expire
expire_kept ttl now inner q c = Dict.get-keep (is_fresh ttl now) q inner.entries c.1

-- Where the byte total is the sum, each key is there once and the total is at most `usize::MAX`, an
-- entry that is not expired and that `make_room` evicts was not stored after any entry that it keeps.
pub make_room-oldest :
    (ttl max_entries max_bytes incoming now : ℕ) (inner : CacheInner) (q r : CacheKey)
    (gone kept : CacheEntry)
    → IsConsistent inner
    → inner.bytes ≤ u64_max
    → Dict.get q (expire ttl now inner).entries ≡ some gone
    → Dict.get q (make_room ttl max_entries max_bytes incoming now inner).entries ≡ none
    → Dict.get r (make_room ttl max_entries max_bytes incoming now inner).entries ≡ some kept
    → gone.stored ≤ kept.stored
unfolding make_room
make_room-oldest ttl max_entries max_bytes incoming now inner q r gone kept c low hq nq hr =
    let fresh = expire ttl now inner in
    let c' = expire-IsConsistent ttl now inner low c in
    let ages = map by_stored fresh.entries in
    let is_where : (t : ℕ) (k : CacheKey)
        → lists_at t k (sort_by_age ages) ≡ is_at t (Dict.get k fresh.entries) =
      λ t k. lists_at-sort t k ages ∙ lists_at-entries t k fresh.entries c'.1 in
    let order =
      evict_order max_entries max_bytes incoming q r gone kept (sort_by_age ages) fresh c'
        (sort-IsSorted ages) (λ k e h. ground (arith, is_where e.stored k))
        (λ t k e m h. ground (arith, is_where t k)) hq in
    let before = expire_kept ttl now inner q c in
    elim (Bool-cases (fits inner max_entries max_bytes incoming)) [
      | inl full ↦ absurd (false≢true (ground arith))
      | inr full ↦ elim (Bool-cases (fits fresh max_entries max_bytes incoming)) [
        | inl room ↦ absurd (false≢true (ground arith))
        | inr room ↦ order (ground arith) (ground arith)
      ]
    ]
