-- ===== src/Proxy/Cache.antt =====
-- src/proxy/cache.rs: the packument cache. Instants and durations are counts of nanoseconds, so
-- `saturating_duration_since` is the truncated subtraction.
pub mod Entries
pub mod Room
pub mod Bounds
pub mod Reads
pub mod Order
use npmfilter.Prelude.{
  ℕ, ◌+◌, ◌-◌, ◌*◌, String, Bool, true, false, not, ◌&&◌, ◌||◌, Option, none, some, List, [], ◌∷◌,
  ◌++◌, map, keep, length, ltb, leb, nat_eq, if◌then◌else◌, ◌>>=◌, ◌↔◌, ◌≡◌, eq_iff, ◌==◌, arith,
  is_empty,
}
use npmfilter.Prelude.Dict
use npmfilter.Prelude.Dict.{Eq}
use npmfilter.Prelude.Word.{saturating_add}
use npmfilter.External.{External}
use npmfilter.Hex.{hex_encode}
use npmfilter.Json.{Value}
use npmfilter.Proxy.Size.{estimate_size}

-- `DEFAULT_MAX_ENTRIES` and `DEFAULT_MAX_BYTES`.
abbrev pub default_max_entries : ℕ
default_max_entries = 1024

abbrev pub default_max_bytes : ℕ
default_max_bytes = 64 * 1024 * 1024

pub record CacheKey : Type 0 where
  pub package_name : String
  pub credential : Option String

abbrev same_credential : Option String → Option String → Bool
same_credential none none = true
same_credential (some a) (some b) = a == b
same_credential _ _ = false

same_credential_iff : (a b : Option String) → (same_credential a b ≡ true) ↔ (a ≡ b)
same_credential_iff none none = ground arith
same_credential_iff none (some b) = ground arith
same_credential_iff (some a) none = ground arith
same_credential_iff (some a) (some b) = ground (arith, eq_iff a b)

abbrev pub same_key : CacheKey → CacheKey → Bool
same_key a b = a.package_name == b.package_name && same_credential a.credential b.credential

pub same_key_iff : (a b : CacheKey) → (same_key a b ≡ true) ↔ (a ≡ b)
same_key_iff a b =
    ground
      (arith, eq_iff a.package_name b.package_name, same_credential_iff a.credential b.credential)

instance abbrev pub key_eq : Eq CacheKey
key_eq = record { same = same_key; same_iff = same_key_iff }

pub record CacheEntry : Type 0 where
  pub document : Value
  pub stored : ℕ
  pub bytes : ℕ

-- `fingerprint`: the digest of a credential, two lower-case digits to a byte.
unfoldable pub credential_digest : External → List ℕ → String
credential_digest env secret = hex_encode (env.sha256 secret)

abbrev digested : External → Option (List ℕ) → Option String
digested env none = none
digested env (some secret) = some (credential_digest env secret)

-- `CacheKey::new`.
unfoldable pub new_key : External → String → Option (List ℕ) → CacheKey
new_key env name authorization = record {
  package_name = name;
  credential = digested env authorization;
}

-- `CacheInner`: the map and its running byte total.
pub record CacheInner : Type 0 where
  pub entries : List (CacheKey × CacheEntry)
  pub bytes : ℕ

-- `CacheInner::remove`.
unfoldable pub remove : CacheKey → CacheInner → CacheInner
remove key inner = elim (Dict.get key inner.entries) [
  | none ↦ inner
  | some e ↦ record inner { entries = Dict.remove key inner.entries; bytes = inner.bytes - e.bytes }
]

unfoldable pub fits : CacheInner → ℕ → ℕ → ℕ → Bool
fits inner max_entries max_bytes incoming_bytes =
    ltb (length inner.entries) max_entries
    && leb (saturating_add inner.bytes incoming_bytes) max_bytes

abbrev pub is_fresh : ℕ → ℕ → CacheKey × CacheEntry → Bool
is_fresh ttl now (key, e) = ltb (now - e.stored) ttl

-- What `retain` drops, added up.
abbrev pub freed_from : ℕ → ℕ → ℕ → List (CacheKey × CacheEntry) → ℕ
freed_from ttl now freed [] = freed
freed_from ttl now freed (e ∷ entries) =
    freed_from ttl now (if is_fresh ttl now e then freed else saturating_add freed e.1.bytes)
      entries

unfoldable pub expire : ℕ → ℕ → CacheInner → CacheInner
expire ttl now inner = record inner {
  entries = keep (is_fresh ttl now) inner.entries;
  bytes = inner.bytes - freed_from ttl now 0 inner.entries;
}

abbrev by_stored : CacheKey × CacheEntry → ℕ × CacheKey
by_stored (key, e) = (e.stored, key)

-- `sort_by_key`: a stable sort by the time of storing.
abbrev pub insert_sorted : ℕ × CacheKey → List (ℕ × CacheKey) → List (ℕ × CacheKey)
insert_sorted x [] = x ∷ []
insert_sorted x (y ∷ ys) = if leb x.0 y.0 then x ∷ y ∷ ys else y ∷ insert_sorted x ys

unfoldable pub sort_by_age : List (ℕ × CacheKey) → List (ℕ × CacheKey)
sort_by_age [] = []
sort_by_age (x ∷ xs) = insert_sorted x (sort_by_age xs)

-- The loop over the keys by age: remove one after the other until there is room.
unfoldable pub evict : ℕ → ℕ → ℕ → List (ℕ × CacheKey) → CacheInner → CacheInner
evict max_entries max_bytes incoming_bytes [] inner = inner
evict max_entries max_bytes incoming_bytes ((stored, key) ∷ by_age) inner =
    let rest = evict max_entries max_bytes incoming_bytes by_age (remove key inner) in
    if fits inner max_entries max_bytes incoming_bytes then inner else rest

unfoldable pub make_room : ℕ → ℕ → ℕ → ℕ → ℕ → CacheInner → CacheInner
make_room ttl max_entries max_bytes incoming_bytes now inner =
    let fresh = expire ttl now inner in
    let by_age = sort_by_age (map by_stored fresh.entries) in
    let evicted = evict max_entries max_bytes incoming_bytes by_age fresh in
    if fits inner max_entries max_bytes incoming_bytes
    then inner
    else if fits fresh max_entries max_bytes incoming_bytes
    then fresh
    else evicted

-- `PackumentCache`, the settings; the map behind its mutex is passed along.
pub record PackumentCache : Type 0 where
  pub ttl : ℕ
  pub max_entries : ℕ
  pub max_bytes : ℕ

unfoldable pub with_limits : ℕ → ℕ → ℕ → PackumentCache
with_limits ttl max_entries max_bytes = record {
  ttl = ttl;
  max_entries = max_entries;
  max_bytes = max_bytes;
}

unfoldable pub get_at : PackumentCache → CacheKey → ℕ → CacheInner → Option Value
get_at cache key now inner = do
  e ← Dict.get key inner.entries
  if is_fresh cache.ttl now (key, e) then some e.document else none

unfoldable pub insert_at : PackumentCache → CacheKey → Value → ℕ → CacheInner → CacheInner
insert_at cache key document now inner =
    let bytes = estimate_size document in
    let removed = remove key inner in
    let roomy = make_room cache.ttl cache.max_entries cache.max_bytes bytes now removed in
    if nat_eq cache.ttl 0 || nat_eq cache.max_entries 0 || nat_eq cache.max_bytes 0
    then inner
    else if ltb cache.max_bytes bytes
    then removed
    else record roomy {
      entries =
          Dict.insert key (record { document = document; stored = now; bytes = bytes })
            roomy.entries;
      bytes = saturating_add roomy.bytes bytes;
    }

-- `PackumentCache::clear`.
unfoldable pub clear : CacheInner → CacheInner
clear inner = record { entries = []; bytes = 0 }
