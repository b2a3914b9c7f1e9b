-- ===== src/Infrastructure/Cache/History.antt =====
-- The cache refines its history: what a `get` returns is decided by the last call that wrote the
-- key, whatever entries have been dropped in between.
-- What a key holds at a time, given the calls made so far, the newest first.
use ats_project_management_b.Prelude.{
  List, Option, String, [], if◌then◌else◌, none, some, string_eq, ℕ, ℕ_eq, ◌==◌, ◌∷◌, ◌≡◌, ◌≤◌,
}
use ats_project_management_b.Infrastructure.Cache.{CacheCall, Store, expiry, is_expired}

unfoldable pub held : List (ℕ × CacheCall) → String → ℕ → Option String
held [] key now = none
held ((t, CacheCall.get_call k) ∷ past) key now = held past key now
held ((t, CacheCall.set_call k value ttl_seconds) ∷ past) key now =
    let before = held past key now in
    if key == k then if is_expired (expiry ttl_seconds t) now then none else some value else before
held ((t, CacheCall.delete_call k) ∷ past) key now =
    let before = held past key now in if key == k then none else before
held ((t, CacheCall.clear_call) ∷ past) key now = none

-- The specification of a call's result.
abbrev pub expected : List (ℕ × CacheCall) → ℕ → CacheCall → Option String
expected past now (CacheCall.get_call key) = held past key now
expected past now (CacheCall.set_call key value ttl_seconds) = none
expected past now (CacheCall.delete_call key) = none
expected past now (CacheCall.clear_call) = none

unfoldable pub expected_results : List (ℕ × CacheCall) → List (ℕ × CacheCall) → List (Option String)
expected_results past [] = []
expected_results past ((now, c) ∷ calls) =
    expected past now c ∷ expected_results ((now, c) ∷ past) calls

-- The clock does not run backwards.
abbrev pub IsMonotonic : ℕ → List (ℕ × CacheCall) → Type 0
IsMonotonic t [] = Unit {0}
IsMonotonic t ((now, c) ∷ calls) = (t ≤ now) × IsMonotonic now calls

abbrev view_entry : Option (String × Option ℕ) → ℕ → Option String
view_entry none now = none
view_entry (some (value, expires_at)) now = if is_expired expires_at now then none else some value

-- The store reads as the history does, from a time on.
abbrev Reads : ℕ → List (ℕ × CacheCall) → Store → Type 0
Reads t past store =
    (key : String) (now : ℕ) → t ≤ now → view_entry (store key) now ≡ held past key now
