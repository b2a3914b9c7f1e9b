-- ===== src/Users/Hashing.antt =====
-- What a password does that the policy accepts and bcrypt refuses to hash.
use ats_project_management_b.Platform.{Platform}
