-- ===== src/Proxy/Cache/Bounds.antt =====
-- `insert_at` of src/proxy/cache.rs and the two bounds of the cache.
use npmfilter.Prelude.{
  ℕ, ◌+◌, ◌≤◌, ◌<◌, none, length, ltb, nat_eq, ◌||◌, ◌≡◌, refl, Bool-cases, inl, inr, arith,
}
use npmfilter.Proxy.Cache.Entries.{IsBounded, total-insert, remove-le, remove-IsConsistent}
use npmfilter.Proxy.Cache.Room.{make_room-fits, make_room-IsConsistent, make_room-IsKept}
use npmfilter.Prelude.Dict
use npmfilter.Prelude.Dict.{HasDistinctKeys}
use npmfilter.Prelude.Word.{u64_max, saturating_add}
use npmfilter.Json.{Value}
use npmfilter.Proxy.Size.{estimate_size}
use npmfilter.Proxy.Cache.{
  CacheKey, CacheEntry, CacheInner, PackumentCache, key_eq, remove, fits, make_room, insert_at,
  clear,
}

-- A capped sum below the cap is the sum.
saturating_sum :
    {t u max : ℕ} (a b : ℕ)
    → u ≡ t + b
    → a ≡ t
    → saturating_add a b ≤ max
    → max < u64_max
    → saturating_add a b ≡ u
unfolding saturating_add
saturating_sum a b e f h k = omega arith

module _ (cache : PackumentCache) (key : CacheKey) (document : Value) (now : ℕ)
    (inner : CacheInner) where
  -- An insertion into a cache within its bounds leaves it within its bounds: the byte total is the sum
  -- of the estimates of the entries, no key is there twice, and there are at most `max_entries`
  -- entries of at most `max_bytes` bytes, whatever the clock says, where `max_bytes` is below
  -- `usize::MAX`.
  pub insert_at-IsBounded :
      cache.max_bytes < u64_max
      → IsBounded cache inner
      → IsBounded cache (insert_at cache key document now inner)
  unfolding insert_at fits
  insert_at-IsBounded small h =
      let bytes = estimate_size document in
      let removed = remove key inner in
      let roomy = make_room cache.ttl cache.max_entries cache.max_bytes bytes now removed in
      let le = remove-le key inner h.0 in
      let consistent = remove-IsConsistent key inner h.0 in
      let low : removed.bytes ≤ u64_max = omega (arith, le.0, h.2) in
      let room_consistent =
        make_room-IsConsistent cache.ttl cache.max_entries cache.max_bytes bytes now removed
          consistent low in
      let absent =
        make_room-IsKept cache.ttl cache.max_entries cache.max_bytes bytes now removed consistent
          key low in
      let free =
        make_room-fits cache.ttl cache.max_entries cache.max_bytes bytes now removed consistent in
      let e : CacheEntry = record { document = document; stored = now; bytes = bytes } in
      let grown = total-insert key e roomy.entries in
      let distinct = Dict.insert-HasDistinctKeys key e roomy.entries room_consistent.1 in
      elim (Bool-cases
        (nat_eq cache.ttl 0 || nat_eq cache.max_entries 0 || nat_eq cache.max_bytes 0)) [
          | inl disabled ↦ rw disabled h
          | inr enabled ↦ elim (Bool-cases (ltb cache.max_bytes bytes)) [
            | inl large ↦
                rw (enabled, large) (consistent, omega (arith, le.1, h.1), omega (arith, le.0, h.2))
            | inr fitting ↦
                let room = free (ground arith) (ground arith) low in
                let gone : Dict.get key roomy.entries ≡ none = ground (arith, absent, le.2) in
                let fit : (length roomy.entries < cache.max_entries)
                    × (saturating_add roomy.bytes bytes ≤ cache.max_bytes) =
                  ground (arith, room) in
                rw (enabled, fitting)
                  (
                    (
                      saturating_sum roomy.bytes bytes (grown gone).0 room_consistent.0 fit.1 small,
                      distinct,
                    ),
                    omega (arith, (grown gone).1, fit.0),
                    fit.1,
                  )
          ]
        ]

pub clear-IsBounded : (cache : PackumentCache) (inner : CacheInner) → IsBounded cache (clear inner)
unfolding clear
clear-IsBounded cache inner = ((refl, tt), omega arith, omega arith)
