-- ===== src/Proxy/Cache/Reads.antt =====
-- What `PackumentCache::get` of src/proxy/cache.rs answers after any history of insertions and clears.
use mathlib.Core.Bool.{false≢true}
use npmfilter.Prelude.{
  ℕ, ◌-◌, ◌≤◌, ◌<◌, Bool, true, false, Option, none, some, List, [], ◌∷◌, ltb, nat_eq, ◌||◌, ◌≡◌,
  ◌⊎◌, refl, Option-cases, Bool-cases, inl, inr, arith, if◌then◌else◌,
}
use npmfilter.Prelude.Dict
use npmfilter.Prelude.Word.{u64_max}
use npmfilter.Json.{Value}
use npmfilter.Proxy.Size.{estimate_size}
use npmfilter.Proxy.Cache.{
  CacheKey, CacheEntry, CacheInner, PackumentCache, same_key, key_eq, remove, make_room, get_at,
  insert_at, clear,
}
use npmfilter.Proxy.Cache.Entries.{IsBounded, get-remove, remove-le, remove-IsConsistent}
use npmfilter.Proxy.Cache.Room.{make_room-IsKept}
use npmfilter.Proxy.Cache.Bounds.{insert_at-IsBounded, clear-IsBounded}

-- What changes the cache.
pub data Event : Type 0 where
  inserted : (key : CacheKey) (document : Value) (now : ℕ) → Event
  cleared : Event

unfoldable pub run : PackumentCache → List Event → CacheInner
run cache [] = record { entries = []; bytes = 0 }
run cache (inserted key document now ∷ older) = insert_at cache key document now (run cache older)
run cache (cleared ∷ older) = clear (run cache older)

unfoldable pub is_disabled : PackumentCache → Bool
is_disabled cache = nat_eq cache.ttl 0 || nat_eq cache.max_entries 0 || nat_eq cache.max_bytes 0

-- The newest insertion under a key since the newest clear, and its time; newest event first.
unfoldable pub last_insertion : CacheKey → List Event → Option (Value × ℕ)
last_insertion key [] = none
last_insertion key (inserted k document now ∷ older) =
    if same_key k key then some (document, now) else last_insertion key older
last_insertion key (cleared ∷ older) = none

pub run-IsBounded :
    (cache : PackumentCache) (history : List Event)
    → cache.max_bytes < u64_max
    → IsBounded cache (run cache history)
unfolding run
run-IsBounded cache [] small = ((refl, tt), omega arith, omega arith)
run-IsBounded cache (inserted key document now ∷ older) small =
    insert_at-IsBounded cache key document now (run cache older) small
      (run-IsBounded cache older small)
run-IsBounded cache (cleared ∷ older) small = clear-IsBounded cache (run cache older)

-- A cache that is switched off holds nothing.
run_disabled :
    (cache : PackumentCache) (history : List Event)
    → is_disabled cache ≡ true
    → (run cache history).entries ≡ []
unfolding run is_disabled insert_at clear
run_disabled cache [] h = refl
run_disabled cache (inserted key document now ∷ older) h = rw h (run_disabled cache older h)
run_disabled cache (cleared ∷ older) h = refl

module _ (cache : PackumentCache) (key : CacheKey) (document : Value) (now : ℕ) (inner : CacheInner)
    (small : cache.max_bytes < u64_max) (enabled : is_disabled cache ≡ false)
    (bounded : IsBounded cache inner) where
  entry : CacheEntry
  entry = record { document = document; stored = now; bytes = estimate_size document }

  -- What a key has after an insertion.
  get-insert_at :
      (q : CacheKey)
      → (Dict.get q (insert_at cache key document now inner).entries ≡ none)
        ⊎ (Dict.get q (insert_at cache key document now inner).entries
            ≡ (if same_key key q then some entry else Dict.get q inner.entries))
  unfolding insert_at is_disabled entry
  get-insert_at q =
      let bytes = estimate_size document in
      let consistent = remove-IsConsistent key inner bounded.0 in
      let le = remove-le key inner bounded.0 in
      let removed = get-remove key q inner bounded.0 in
      let roomy =
        make_room cache.ttl cache.max_entries cache.max_bytes bytes now (remove key inner) in
      let kept =
        make_room-IsKept cache.ttl cache.max_entries cache.max_bytes bytes now (remove key inner)
          consistent q (omega (arith, le.0, bounded.2)) in
      let put = Dict.get-insert key q entry roomy.entries in
      elim (Bool-cases (ltb cache.max_bytes bytes)) [
        | inl large ↦ rw (enabled, large) ground (arith, removed)
        | inr fitting ↦ rw (enabled, fitting) ground (arith, kept, removed, put)
      ]

-- An entry that is held is the newest insertion under its key.
last_held :
    (cache : PackumentCache) (small : cache.max_bytes < u64_max)
    (enabled : is_disabled cache ≡ false) (key : CacheKey) (history : List Event) (e : CacheEntry)
    → Dict.get key (run cache history).entries ≡ some e
    → last_insertion key history ≡ some (e.document, e.stored)
unfolding run last_insertion clear Dict.get entry
last_held cache small enabled key [] e h = ground arith
last_held cache small enabled key (inserted k document now ∷ older) e h =
    let step =
      get-insert_at cache k document now (run cache older) small enabled
        (run-IsBounded cache older small) key in
    ground (arith, step, last_held cache small enabled key older e)
last_held cache small enabled key (cleared ∷ older) e h = ground arith

-- After any history of insertions and clears from an empty cache, at whatever times, a document that is
-- read under a key is the one of the newest insertion under that very key since the newest clear,
-- and was stored less than `ttl` before the read, where `max_bytes` is below `usize::MAX`: no
-- document is stale, and none is of another package or of another credential.
pub get_at-run :
    (cache : PackumentCache) (key : CacheKey) (now : ℕ) (history : List Event) (document : Value)
    → cache.max_bytes < u64_max
    → get_at cache key now (run cache history) ≡ some document
    → (stored : ℕ) × (last_insertion key history ≡ some (document, stored))
      × (now - stored < cache.ttl)
unfolding get_at Dict.get
get_at-run cache key now history document small h =
    elim (Option-cases (Dict.get key (run cache history).entries)) [
      | inl absent ↦ absurd (false≢true (ground arith))
      | inr (e, present) ↦ elim (Bool-cases (is_disabled cache)) [
        | inl off ↦
            let nothing : Dict.get key (run cache history).entries ≡ none =
              rw (run_disabled cache history off) refl in
            absurd (false≢true (ground arith))
        | inr on ↦
            (e.stored, ground (arith, last_held cache small on key history e present), ground arith)
      ]
    ]

-- Right after an insertion under a key, and until `ttl` has passed, the document is read under it,
-- where the cache is on and the document alone is not larger than `max_bytes`.
pub get_at-insert_at :
    (cache : PackumentCache) (key : CacheKey) (document : Value) (now later : ℕ)
    (inner : CacheInner)
    → is_disabled cache ≡ false
    → estimate_size document ≤ cache.max_bytes
    → get_at cache key later (insert_at cache key document now inner)
      ≡ (if ltb (later - now) cache.ttl then some document else none)
unfolding get_at insert_at is_disabled
get_at-insert_at cache key document now later inner enabled small =
    let bytes = estimate_size document in
    let roomy =
      make_room cache.ttl cache.max_entries cache.max_bytes bytes now (remove key inner) in
    let e : CacheEntry = record { document = document; stored = now; bytes = bytes } in
    ground (arith, Dict.get-insert_self key e roomy.entries)
