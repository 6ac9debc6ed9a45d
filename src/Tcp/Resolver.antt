-- ===== src/Tcp/Resolver.antt =====
-- `HostResolver` of src/tcp_client.cpp: the resolver with its cache, which all clients share.
use librediscxx.Base.{
  ℕ, ◌≡◌, refl, ◌&&◌, List, [], ◌∷◌, Option, none, some, Bytes, str_eq, str_eq_refl, if◌then◌else◌,
}
use librediscxx.Os.World.{World, HostEntry}
use librediscxx.Os.Connect.{resolve_host}

abbrev Cache : Type 0
Cache = List ((Bytes × Bytes) × HostEntry)

-- `dns_cache_.find(key)`.
find_entry : Bytes → Bytes → Cache → Option HostEntry
find_entry host service [] = none
find_entry host service (((h, s), e) ∷ cache) =
    if str_eq host h && str_eq service s then some e else find_entry host service cache

-- `__lookup_cache`.
unfoldable pub lookup_cache : Bytes → Bytes → World → Option HostEntry
unfolding find_entry
lookup_cache host service w = find_entry host service w.dns_cache

-- `__update_cache`: `dns_cache_[key] = host_entry`; a lookup finds the newest entry of a key.
unfoldable pub update_cache : Bytes → Bytes → HostEntry → World → World
update_cache host service e w = record w { dns_cache = ((host, service), e) ∷ w.dns_cache }

entry_of : Option ℕ → World → HostEntry
entry_of none w = record { endpoint = 0; ec = w.errno }
entry_of (some a) w = record { endpoint = a; ec = 0 }

-- `__resolve`: what `resolve_host` finds, or its error number.
unfoldable pub resolve_once : World → HostEntry × World
unfolding entry_of
resolve_once w = let (a, w') = resolve_host w in (entry_of a w', w')

cached_or : Option HostEntry → Bytes → Bytes → World → HostEntry × World
unfolding resolve_once update_cache
cached_or (some e) host service w = (e, w)
cached_or none host service w = let (e, w') = resolve_once w in (e, update_cache host service e w')

-- `resolve` with `enable_cache_`, as the one object of the class has it.
unfoldable pub resolve : Bytes → Bytes → World → HostEntry × World
unfolding cached_or lookup_cache
resolve host service w = cached_or (lookup_cache host service w) host service w

unfoldable pub clear_cache : World → World
clear_cache w = record w { dns_cache = [] }

find_entry_head :
    (host service : Bytes) (e : HostEntry) (cache : Cache)
    → find_entry host service (((host, service), e) ∷ cache) ≡ some e
unfolding find_entry
find_entry_head host service e cache = rw (str_eq_refl host, str_eq_refl service)

resolve_again_from :
    (o : Option HostEntry) (host service : Bytes) (w v : World)
    → o ≡ lookup_cache host service w
    → v.dns_cache ≡ (cached_or o host service w).1.dns_cache
    → resolve host service v ≡ ((cached_or o host service w).0, v)
unfolding resolve
resolve_again_from (some e) host service w v h same = rw (same, ← h)
resolve_again_from none host service w v h same = rw (same, find_entry_head)

-- Whatever the first resolution of a name found, an address or a failure, every later resolution
-- gives the same, with no lookup, as long as the cache is what that resolution left.
pub resolve_again :
    (host service : Bytes) (w v : World)
    → v.dns_cache ≡ (resolve host service w).1.dns_cache
    → resolve host service v ≡ ((resolve host service w).0, v)
unfolding resolve
resolve_again host service w v same =
    resolve_again_from (lookup_cache host service w) host service w v refl same
