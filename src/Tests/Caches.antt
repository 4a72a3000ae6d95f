-- ===== src/Tests/Caches.antt =====
-- A cache of one entry.
use npmfilter.Prelude.{◌≤◌, ℕ, ◌≡◌, ◌<◌, ◌-◌, refl, none, some, [], ◌∷◌, List, arith, min, true}
use npmfilter.Prelude.Word.{u64_max, saturating_add}
use npmfilter.Prelude.Dict
use npmfilter.Json.{null, string}
use npmfilter.Proxy.Size.{estimate_size, walk, nodes}
use npmfilter.Proxy.Size.Sound.{size, estimate_size_lem}
use npmfilter.Proxy.Cache.{
  CacheKey, CacheEntry, CacheInner, PackumentCache, insert_at, get_at, make_room, remove, fits,
  expire, evict, sort_by_age,
}
use npmfilter.Proxy.Cache.Entries.{IsConsistent, IsBounded}
use npmfilter.Proxy.Cache.Order.{make_room-oldest}
use npmfilter.Proxy.Cache.Room.{make_room-fits}
use npmfilter.Proxy.Cache.Bounds.{insert_at-IsBounded}
use npmfilter.Proxy.Cache.Reads.{
  Event, inserted, run, last_insertion, get_at-run, get_at-insert_at, is_disabled,
}

abbrev cache : PackumentCache
cache = record { ttl = 100; max_entries = 1; max_bytes = 1000 }

abbrev key : CacheKey
key = record { package_name = "pkg"; credential = none }

abbrev other : CacheKey
other = record { package_name = "pkg"; credential = some "Bearer x" }

abbrev held : CacheInner
held = record {
  entries = (other, record { document = null; stored = 5; bytes = 24 }) ∷ [];
  bytes = 24;
}

held-IsBounded : IsBounded cache held
unfolding Dict.get
held-IsBounded = ((refl, (refl, tt)), omega arith, omega arith)

insert_at-IsBounded_example : IsBounded cache (insert_at cache key (string "hello") 7 held)
insert_at-IsBounded_example =
    insert_at-IsBounded cache key (string "hello") 7 held (omega arith) held-IsBounded

make_room-fits_example : fits (make_room 100 1 1000 29 7 held) 1 1000 29 ≡ true
make_room-fits_example =
    make_room-fits 100 1 1000 29 7 held held-IsBounded.0 (omega arith) (omega arith) (omega arith)

abbrev history : List Event
history = inserted key (string "new") 20 ∷ inserted key (string "old") 10 ∷ []

get_at-run_example :
    (stored : ℕ) × (last_insertion key history ≡ some (string "new", stored)) × (60 - stored < 100)
unfolding get_at run insert_at make_room remove fits expire evict sort_by_age estimate_size walk
    nodes saturating_add Dict.get Dict.insert Dict.remove
get_at-run_example = get_at-run cache key 60 history (string "new") (omega arith) refl

get_at-insert_at_example :
    get_at cache key 50 (insert_at cache key (string "hello") 7 held) ≡ some (string "hello")
unfolding is_disabled estimate_size walk nodes saturating_add
get_at-insert_at_example = get_at-insert_at cache key (string "hello") 7 50 held refl (omega arith)

estimate_size_lem_example : estimate_size (string "hello") ≡ min (size (string "hello")) u64_max
estimate_size_lem_example = estimate_size_lem (string "hello")

-- Two entries, of which one has to go.
abbrev newer : CacheEntry
newer = record { document = null; stored = 6; bytes = 24 }

abbrev older : CacheEntry
older = record { document = null; stored = 5; bytes = 24 }

abbrev two_held : CacheInner
two_held = record { entries = (key, newer) ∷ (other, older) ∷ []; bytes = 48 }

two_held-IsConsistent : IsConsistent two_held
unfolding Dict.get
two_held-IsConsistent = (refl, (refl, (refl, tt)))

make_room-oldest_example : older.stored ≤ newer.stored
unfolding make_room remove fits expire evict sort_by_age saturating_add Dict.get Dict.remove
make_room-oldest_example =
    make_room-oldest 100 2 1000 29 7 two_held other key older newer two_held-IsConsistent
      (omega arith) refl refl refl
