-- ===== src/Infrastructure/Cache.antt =====
-- app/infrastructure/cache: the in-memory cache with expiry, and the cache that is off. The
-- monotonic clock is read by each call; its time counts microseconds.
pub mod History
pub mod Tests
use ats_project_management_b.Prelude.{
  Bool, List, Option, String, [], false, if◌then◌else◌, ltb, none, some, string_eq, ℕ, ℕ_eq, ◌*◌,
  ◌+◌, ◌==◌, ◌∷◌,
}

-- A dict from keys to values with their time of expiry.
abbrev pub Store : Type 0
Store = String → Option (String × Option ℕ)

abbrev pub empty_store : Store
empty_store key = none

-- `self._store[key] = …` and `self._store.pop(key, None)`
abbrev pub with_entry : String → Option (String × Option ℕ) → Store → Store
with_entry key entry store k = if k == key then entry else store k

-- `expires_at is not None and time.monotonic() > expires_at`
abbrev pub is_expired : Option ℕ → ℕ → Bool
is_expired none now = false
is_expired (some expires_at) now = ltb expires_at now

-- `time.monotonic() + ttl_seconds if ttl_seconds else None`: zero seconds are no expiry.
abbrev pub expiry : Option ℕ → ℕ → Option ℕ
expiry none now = none
expiry (some ttl_seconds) now =
    if ttl_seconds == 0 then none else some (now + ttl_seconds * 1000000)

abbrev pub get_entry : Option (String × Option ℕ) → String → ℕ → Store → Option String × Store
get_entry none key now store = (none, store)
get_entry (some (value, expires_at)) key now store =
    if is_expired expires_at now then (none, with_entry key none store) else (some value, store)

-- `InMemoryCache.get`
unfoldable pub cache_get : String → ℕ → Store → Option String × Store
cache_get key now store = get_entry (store key) key now store

-- `InMemoryCache.set`
unfoldable pub cache_set : String → String → Option ℕ → ℕ → Store → Store
cache_set key value ttl_seconds now = with_entry key (some (value, expiry ttl_seconds now))

-- `InMemoryCache.delete`
unfoldable pub cache_delete : String → Store → Store
cache_delete key = with_entry key none

-- `InMemoryCache.clear`, and `close`.
unfoldable pub cache_clear : Store → Store
cache_clear store = empty_store

-- The calls of a client.
pub data CacheCall : Type 0 where
  get_call : String → CacheCall
  set_call : String → String → Option ℕ → CacheCall
  delete_call : String → CacheCall
  clear_call : CacheCall

-- One call at a time: the value it returns, if any, and the store.
unfoldable pub call : CacheCall → ℕ → Store → Option String × Store
unfolding cache_get cache_set cache_delete cache_clear
call (CacheCall.get_call key) now store = cache_get key now store
call (CacheCall.set_call key value ttl_seconds) now store =
    (none, cache_set key value ttl_seconds now store)
call (CacheCall.delete_call key) now store = (none, cache_delete key store)
call (CacheCall.clear_call) now store = (none, cache_clear store)

-- `NullCache`: nothing is kept.
abbrev pub null_call : CacheCall → ℕ → Unit {0} → Option String × Unit {0}
null_call c now u = (none, tt)

-- The results of a sequence of calls, each with its time.
unfoldable pub run_cache : List (ℕ × CacheCall) → Store → List (Option String)
run_cache [] store = []
run_cache ((now, c) ∷ calls) store =
    let (result, store') = call c now store in result ∷ run_cache calls store'
