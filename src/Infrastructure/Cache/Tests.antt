-- ===== src/Infrastructure/Cache/Tests.antt =====
-- The cache on a concrete sequence of calls.
use ats_project_management_b.Prelude.{List, [], none, some, ℕ, ◌∷◌}
use ats_project_management_b.Infrastructure.Cache.{CacheCall}
use ats_project_management_b.Platform.Memory.{memory}

abbrev calls : List (ℕ × CacheCall)
calls =
    (1, CacheCall.set_call "a" "x" (some 2))
    ∷ (5, CacheCall.get_call "a")
    ∷ (2000005, CacheCall.get_call "a")
    ∷ (2000006, CacheCall.set_call "a" "y" none)
    ∷ (9000000, CacheCall.get_call "a")
    ∷ []
