-- ===== src/Notifications/Reading.antt =====
-- Notifications are read by their owner only.
use ats_project_management_b.Prelude.{
  List, Option, ap, arith, change_where, count, count-change_where_undone, filter,
  filter-change_where_outside, length, length-map, nat_eq_iff, not, refl, some, string_eq, sym, ℕ,
  ℕ_eq, ◌==◌, ◌∙◌, ◌≡◌,
}
use ats_project_management_b.Core.Repository.{notification_model, scalar_one_or_none}
use ats_project_management_b.Core.Repository.Laws.{get_lem, read_rules, save_lem, update_where_lem}
use ats_project_management_b.Core.Session.{Result, Session, ok, with_session}
use ats_project_management_b.Core.Session.Inversion.{
  bind_ok, or_raise_ok, pure_ok, pure_value, raise_if_ok, read_ok, with_session_ok,
}
use ats_project_management_b.Models.{Database, Notification}
use ats_project_management_b.Notifications.Service.{
  mark_all_read, mark_notification, mark_read, unread_of,
}
use ats_project_management_b.Platform.{Platform}

abbrev pub lookup_notification : ℕ → List Notification → Result (Option Notification)
lookup_notification id notes = scalar_one_or_none (filter (λ n. n.id == id) notes)

module _ ⦃x : Platform⦄ where
  -- Marking all as read succeeds: the user has no unread notification afterwards, and the rows of
  -- all other users and the other tables are as they were.
  pub mark_all_read_clears :
      (user_id : ℕ) (db : Database x.Float) (tick : ℕ)
      → let (r, db') = with_session (mark_all_read user_id) db tick in
        (r ≡ ok tt)
        × (count (unread_of user_id) db'.notifications ≡ 0)
        × (filter (λ n. not (n.user_id == user_id)) db'.notifications
            ≡ filter (λ n. not (n.user_id == user_id)) db.notifications)
        × (length db'.notifications ≡ length db.notifications)
        × (record db' { notifications = db.notifications } ≡ db)
  unfolding with_session mark_all_read
  mark_all_read_clears user_id db tick = rw update_where_lem (
    refl,
    count-change_where_undone (unread_of user_id) (unread_of user_id) mark_notification
        db.notifications (λ r p. p) (λ r p. ground arith),
    filter-change_where_outside (λ n. not (n.user_id == user_id)) (unread_of user_id)
        mark_notification db.notifications (λ r p. ground arith) (λ r p. ground arith),
    length-map _ db.notifications,
    refl,
  )

  -- What is known when `mark_read` has returned.
  mark_read_ok :
      (id user_id : ℕ) (n : Notification) (s s' : Session x.Float)
      → mark_read id user_id s ≡ (ok n, s')
      → (m : Notification) × (lookup_notification id s.current.notifications ≡ ok (some m))
        × (m.user_id ≡ user_id)
        × (n ≡ mark_notification m)
        × (s' ≡ record s {
          current = record s.current {
            notifications =
                change_where (λ q. q.id == m.id) mark_notification s.current.notifications;
          };
        })
  unfolding mark_read
  mark_read_ok id user_id n s s' h =
      let (o, p1, q1) = read_ok _ _ s n s' (search read_rules) h in
      let (m, p2, q2) = read_ok _ _ s n s' (search read_rules) q1 in
      let (a3, p3, q3) = read_ok _ _ s n s' (search read_rules) q2 in
      let (a4, p4, q4) = bind_ok _ _ s n s' q3 in
      let own = raise_if_ok _ _ s a3 p3 in
      (
        m,
        sym (ap (λ r. r.0) (get_lem notification_model id s))
            ∙ (p1 ∙ ap ok (or_raise_ok o _ s m p2)),
        ground (arith, own, nat_eq_iff m.user_id user_id),
        pure_value _ n _ s' q4,
        pure_ok _ n _ s' q4 ∙ ap (λ r. r.1) (save_lem notification_model m mark_notification s),
      )

  -- If marking one notification as read returns, then it was a notification of that user, and its
  -- row alone has changed, to read.
  pub mark_read_own :
      (id user_id : ℕ) (n : Notification) (db : Database x.Float) (tick : ℕ)
      → (with_session (mark_read id user_id) db tick).0 ≡ ok n
      → (m : Notification) × (lookup_notification id db.notifications ≡ ok (some m))
        × (m.user_id ≡ user_id)
        × (n ≡ mark_notification m)
        × ((with_session (mark_read id user_id) db tick).1 ≡ record db {
          notifications = change_where (λ q. q.id == m.id) mark_notification db.notifications;
        })
  mark_read_own id user_id n db tick h =
      let s : Session x.Float = record { committed = db; current = db; tick = tick } in
      let (s', ran, left) = with_session_ok (mark_read id user_id) db tick n h in
      let (m, known, owner, value, done) = mark_read_ok id user_id n s s' ran in
      (m, known, owner, value, left ∙ ap (λ t. t.current) done)
