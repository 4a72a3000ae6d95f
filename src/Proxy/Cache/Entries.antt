-- ===== src/Proxy/Cache/Entries.antt =====
-- The byte total and the keys of the packument cache of src/proxy/cache.rs, through `remove` and
-- `expire`.
use npmfilter.Prelude.{
  ℕ, ◌+◌, ◌≤◌, none, some, List, [], ◌∷◌, keep, length, ◌≡◌, Option-cases, inl, inr, arith,
  if◌then◌else◌,
}
use npmfilter.Prelude.Dict
use npmfilter.Prelude.Dict.{HasDistinctKeys}
use npmfilter.Prelude.Word.{u64_max, saturating_add, saturating_add-exact}
use npmfilter.Proxy.Cache.{
  CacheKey, CacheEntry, CacheInner, PackumentCache, same_key, same_key_iff, key_eq, remove,
  is_fresh, freed_from, expire,
}

abbrev pub Entries : Type 0
Entries = List (CacheKey × CacheEntry)

abbrev pub total : Entries → ℕ
total [] = 0
total ((key, e) ∷ m) = e.bytes + total m

-- The running total is the sum, and each key is there once.
abbrev pub IsConsistent : CacheInner → Type 0
IsConsistent inner = (inner.bytes ≡ total inner.entries) × HasDistinctKeys inner.entries

-- And neither bound is exceeded.
abbrev pub IsBounded : PackumentCache → CacheInner → Type 0
IsBounded cache inner =
    IsConsistent inner
    × (length inner.entries ≤ cache.max_entries)
    × (inner.bytes ≤ cache.max_bytes)

total-remove :
    (key : CacheKey) (e : CacheEntry) (m : Entries)
    → Dict.get key m ≡ some e
    → (total (Dict.remove key m) + e.bytes ≡ total m) × (length (Dict.remove key m) + 1 ≡ length m)
unfolding Dict.remove Dict.get
total-remove key e [] h = ground arith
total-remove key e ((j, d) ∷ m) h = ground (arith, total-remove key e m)

pub total-insert :
    (key : CacheKey) (e : CacheEntry) (m : Entries)
    → Dict.get key m ≡ none
    → (total (Dict.insert key e m) ≡ total m + e.bytes)
      × (length (Dict.insert key e m) ≡ length m + 1)
unfolding Dict.insert Dict.get
total-insert key e [] h = ground arith
total-insert key e ((j, d) ∷ m) h = ground (arith, total-insert key e m)

freed_lem :
    (ttl now freed : ℕ) (m : Entries)
    → freed + total m ≤ u64_max
    → freed_from ttl now freed m + total (keep (is_fresh ttl now) m) ≡ freed + total m
freed_lem ttl now freed [] h = omega arith
freed_lem ttl now freed ((j, e) ∷ m) h = ground (
  arith,
  saturating_add-exact freed e.bytes,
  freed_lem ttl now freed m,
  freed_lem ttl now (saturating_add freed e.bytes) m,
)

pub remove-IsConsistent :
    (key : CacheKey) (inner : CacheInner) → IsConsistent inner → IsConsistent (remove key inner)
unfolding remove
remove-IsConsistent key inner h = elim (Option-cases (Dict.get key inner.entries)) [
  | inl absent ↦ ground arith
  | inr (e, present) ↦ ground (
    arith,
    total-remove key e inner.entries present,
    Dict.remove-HasDistinctKeys key inner.entries h.1,
  )
]

pub expire-IsConsistent :
    (ttl now : ℕ) (inner : CacheInner)
    → inner.bytes ≤ u64_max
    → IsConsistent inner
    → IsConsistent (expire ttl now inner)
unfolding expire
expire-IsConsistent ttl now inner h c = (
  omega (arith, c.0, freed_lem ttl now 0 inner.entries (omega (arith, c.0))),
  Dict.keep-HasDistinctKeys (is_fresh ttl now) inner.entries c.1,
)

-- Nothing is larger after a removal or an expiry.
pub remove-le :
    (key : CacheKey) (inner : CacheInner)
    → IsConsistent inner
    → ((remove key inner).bytes ≤ inner.bytes)
      × (length (remove key inner).entries ≤ length inner.entries)
      × (Dict.get key (remove key inner).entries ≡ none)
unfolding remove
remove-le key inner h = elim (Option-cases (Dict.get key inner.entries)) [
  | inl absent ↦ ground arith
  | inr (e, present) ↦ ground (
    arith,
    total-remove key e inner.entries present,
    Dict.get-remove key key inner.entries h.1,
    same_key_iff key key,
  )
]

pub get-remove :
    (key q : CacheKey) (inner : CacheInner)
    → IsConsistent inner
    → Dict.get q (remove key inner).entries
      ≡ (if same_key key q then none else Dict.get q inner.entries)
unfolding remove
get-remove key q inner h = elim (Option-cases (Dict.get key inner.entries)) [
  | inl absent ↦ ground (arith, same_key_iff key q)
  | inr (e, present) ↦ ground (arith, Dict.get-remove key q inner.entries h.1)
]
