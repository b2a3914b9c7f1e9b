-- ===== src/Notifications/Tests.antt =====
-- The theorems on notifications at concrete rows of the in-memory platform.
use ats_project_management_b.Prelude.{
  Bool, [], change_where, count, false, filter, length, not, refl, some, string_eq, true, ℕ, ℕ_eq,
  ◌==◌, ◌∷◌, ◌≡◌,
}
use ats_project_management_b.Core.Repository.{find, get, save, scalar_one_or_none}
use ats_project_management_b.Core.Session.{ok, with_session, ◌>>=◌}
use ats_project_management_b.Models.{Database, Notification}
use ats_project_management_b.Notifications.Reading.{
  lookup_notification, mark_all_read_clears, mark_read_own,
}
use ats_project_management_b.Notifications.Service.{
  mark_all_read, mark_notification, mark_read, unread_of,
}
use ats_project_management_b.Platform.Memory.{memory}
use ats_project_management_b.Shared.Enums.{NotificationType}

abbrev note : ℕ → ℕ → Bool → Notification
note id user_id is_read = record {
  id = id;
  created_at = 0;
  user_id = user_id;
  type = NotificationType.general;
  title = "";
  message = "";
  is_read = is_read;
}

abbrev inbox : Database ℕ
inbox = record {
  users = [];
  tokens = [];
  projects = [];
  members = [];
  tasks = [];
  comments = [];
  files = [];
  notifications = note 1 7 false ∷ note 2 8 false ∷ [];
}

mark_all_read_clears_example :
    let (r, db') = with_session (mark_all_read 7) inbox 0 in
    (r ≡ ok tt)
    × (count (unread_of 7) db'.notifications ≡ 0)
    × (filter (λ n. not (n.user_id == 7)) db'.notifications ≡ note 2 8 false ∷ [])
    × (length db'.notifications ≡ 2)
    × (record db' { notifications = inbox.notifications } ≡ inbox)
mark_all_read_clears_example = mark_all_read_clears 7 inbox 0

mark_read_own_example :
    (m : Notification) × (lookup_notification 1 inbox.notifications ≡ ok (some m))
    × (m.user_id ≡ 7)
    × (note 1 7 true ≡ mark_notification m)
    × ((with_session (mark_read 1 7) inbox 0).1 ≡ record inbox {
      notifications = change_where (λ q. q.id == m.id) mark_notification inbox.notifications;
    })
unfolding with_session mark_read get find save scalar_one_or_none ◌>>=◌
mark_read_own_example = mark_read_own 1 7 (note 1 7 true) inbox 0 refl
