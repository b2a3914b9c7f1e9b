-- ===== src/Tasks/Versions.antt =====
-- Optimistic locking: of two requests that have loaded the same version of a task, one wins.
use ats_project_management_b.Prelude.{
  Bool, List, Option, [], ap, arith, change_where, count, count-change_where_undone, filter,
  filter-change_where, length-filter, map, nat_eq_iff, none, not, option_eq, refl, some, string_eq,
  true, ℕ, ℕ_eq, ◌&&◌, ◌==◌, ◌∙◌, ◌∷◌, ◌≡◌,
}
use ats_project_management_b.Core.Constants.{ErrorCode}
use ats_project_management_b.Core.Exceptions.{Exception, handle}
use ats_project_management_b.Core.Repository.{scalar_one_or_none, task_model}
use ats_project_management_b.Core.Repository.Laws.{get_lem, scalar-eq-some}
use ats_project_management_b.Core.Session.{Result, Session, ok, pure, raised, with_session, ◌>>=◌}
use ats_project_management_b.Models.{Database, Task, task_is_live}
use ats_project_management_b.Platform.{Platform}
use ats_project_management_b.Shared.Enums.{TaskStatus, project_status_eq, task_status_eq}
use ats_project_management_b.Tasks.Repository.{
  in_column, next_position, next_version, position_after, same_version, save_task,
}
use ats_project_management_b.Tasks.Service.{
  TaskStatusUpdate, moved, position_or_next, same_float, update_status,
}

abbrev pub lookup_task : {F : Type 0} → ℕ → List (Task F) → Result (Option (Task F))
lookup_task task_id tasks =
    scalar_one_or_none (filter (λ t. task_is_live t && t.id == task_id) tasks)

module _ ⦃x : Platform⦄ where
  -- The position that a move asks for.
  abbrev pub target : Option x.Float → ℕ → TaskStatus → Database x.Float → x.Float
  target none project_id status db =
      position_after
        (x.max_float (λ t. t.position) (x.select (in_column project_id status) db.tasks))
  target (some position) project_id status db = position

  -- The move is to another column or to another position.
  abbrev pub moves : Task x.Float → TaskStatusUpdate x.Float → Database x.Float → Bool
  moves task payload db = not (
      task.status == payload.status
      && same_float task.position (target payload.position task.project_id payload.status db))

  pub position_or_next_lem :
      (position : Option x.Float) (project_id : ℕ) (status : TaskStatus) (s : Session x.Float)
      → position_or_next position project_id status s
        ≡ (ok (target position project_id status s.current), s)
  unfolding position_or_next next_position pure
  position_or_next_lem none project_id status s = refl
  position_or_next_lem (some position) project_id status s = refl

  -- A move of a task whose version is no longer in the table is refused, and changes nothing.
  pub stale_move_is_refused :
      (task : Task x.Float) (db : Database x.Float) (payload : TaskStatusUpdate x.Float) (tick : ℕ)
      → count (same_version task) db.tasks ≡ 0
      → moves task payload db ≡ true
      → with_session (update_status task payload) db tick
        ≡ (raised (Exception.stale_data x.stale_text), db)
  unfolding with_session update_status save_task ◌>>=◌
  stale_move_is_refused task db payload tick gone change =
      rw position_or_next_lem
        (rw change (rw x.select_lem (rw x.count_rows_lem (rw length-filter (rw gone refl)))))

  module _ (task : Task x.Float) (db : Database x.Float) where
    -- The row after a move.
    abbrev pub moved_task : TaskStatusUpdate x.Float → Task x.Float
    moved_task payload =
        next_version
          (moved payload.status (target payload.position task.project_id payload.status db)) task

    -- The database after a move.
    abbrev pub moved_db : TaskStatusUpdate x.Float → Database x.Float
    moved_db payload = record db {
      tasks =
          change_where (same_version task)
            (next_version
              (moved payload.status (target payload.position task.project_id payload.status db)))
            db.tasks;
    }

    module _ (payload : TaskStatusUpdate x.Float) where
      pub moved_found :
          lookup_task task.id db.tasks ≡ ok (some task)
          → lookup_task task.id (moved_db payload).tasks ≡ ok (some (moved_task payload))
      unfolding scalar_one_or_none
      moved_found known =
          let f =
            next_version
              (moved payload.status (target payload.position task.project_id payload.status db)) in
          let p : Task x.Float → Bool = λ t. task_is_live t && t.id == task.id in
          let one = scalar-eq-some _ known in
          let same : same_version task task ≡ true = ground (
            arith,
            (nat_eq_iff task.id task.id).1 refl,
            (nat_eq_iff task.version task.version).1 refl,
          ) in
          ap scalar_one_or_none (
            filter-change_where p (same_version task) f db.tasks (λ r. refl)
            ∙ ap (change_where (same_version task) f) one)
          ∙ rw same refl

      pub move_run :
          (tick : ℕ)
          → lookup_task task.id db.tasks ≡ ok (some task)
          → count (same_version task) db.tasks ≡ 1
          → moves task payload db ≡ true
          → with_session (update_status task payload) db tick
            ≡ (ok (moved_task payload), moved_db payload)
      unfolding with_session update_status save_task ◌>>=◌
      move_run tick known alone change =
          rw (position_or_next_lem, change, x.select_lem, x.count_rows_lem, length-filter, alone)
            (rw x.update_lem (rw (get_lem task_model) (rw (moved_found known) refl)))

      -- A real move of a live task, in the version that is stored, succeeds: the row has the new
      -- status, position and version, and no other table changes. Another request that has loaded
      -- the same version before, and moves the task as well, is then refused with a stale version
      -- and changes nothing; its response is 409 with the code STALE_VERSION.
      pub concurrent_move_is_refused :
          (payload' : TaskStatusUpdate x.Float) (tick k : ℕ)
          → lookup_task task.id db.tasks ≡ ok (some task)
          → count (same_version task) db.tasks ≡ 1
          → moves task payload db ≡ true
          → moves task payload' (moved_db payload) ≡ true
          → let (r, db') = with_session (update_status task payload) db tick in
            let stale = Exception.stale_data x.stale_text in
            (r ≡ ok (moved_task payload))
            × (lookup_task task.id db'.tasks ≡ ok (some (moved_task payload)))
            × (db' ≡ record db { tasks = db'.tasks })
            × (with_session (update_status task payload') db' k ≡ (raised stale, db'))
            × ((handle stale).status ≡ 409)
            × (map (λ e. e.code) (handle stale).errors ≡ ErrorCode.stale_version ∷ [])
      unfolding handle
      concurrent_move_is_refused payload' tick k known alone change change' =
          rw (move_run tick known alone change) (
            refl,
            moved_found known,
            refl,
            stale_move_is_refused task (moved_db payload) payload' k
                (count-change_where_undone (same_version task) (same_version task) _ db.tasks
                  (λ r e. e) (λ r e. ground arith))
                change',
            refl,
            refl,
          )
