-- ===== src/Shared/Tests.antt =====
-- The theorems on pages at a concrete listing.
use ats_project_management_b.Prelude.{[], false, leb, none, some, true, ℕ, ◌∷◌}
use ats_project_management_b.Core.Session.{Session}
use ats_project_management_b.Models.{Database, RefreshToken}
use ats_project_management_b.Platform.Memory.{memory}
use ats_project_management_b.Shared.Enums.{SortOrder}
use ats_project_management_b.Shared.Pagination.{PageParams, Statement}

abbrev note : ℕ → RefreshToken
note n = record {
  id = n;
  created_at = n;
  token_hash = "";
  user_id = 1;
  family_id = n;
  expires_at = 0;
  revoked = false;
  replaced_by_id = none;
}

abbrev listed : Database ℕ
listed = record {
  users = [];
  tokens = note 3 ∷ note 1 ∷ note 2 ∷ [];
  projects = [];
  members = [];
  tasks = [];
  comments = [];
  files = [];
  notifications = [];
}

abbrev start : Session ℕ
start = record { committed = listed; current = listed; tick = 0 }

abbrev by_pairs : PageParams
by_pairs = record { page = 1; size = 2; sort = none; order = SortOrder.asc; search = none }

abbrev by_id : Statement RefreshToken
by_id = record { where_clause = λ t. true; ordering = some (λ a b. leb a.id b.id) }
