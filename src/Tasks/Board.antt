-- ===== src/Tasks/Board.antt =====
-- The board: its columns, and the place of a task that is put behind the others.
use mathlib.Core.List.{append-nil, append_assoc}
use mathlib.Core.Path.{subst}
use ats_project_management_b.Prelude.{
  Bool-cases, List, Option, [], any, ap, arith, false, filter, filter_ext, inl, inr, none, not,
  option_eq, refl, some, string_eq, sym, true, ℕ, ℕ_eq, ◌&&◌, ◌++◌, ◌==◌, ◌∙◌, ◌∷◌, ◌≡◌,
}
use ats_project_management_b.Core.Constants.{position_step}
use ats_project_management_b.Core.Session.{ok, with_session, ◌>>=◌}
use ats_project_management_b.Models.{Database, Task, task_is_live}
use ats_project_management_b.Platform.{Platform}
use ats_project_management_b.Shared.Enums.{TaskStatus, project_status_eq, task_status_eq}
use ats_project_management_b.Tasks.Repository.{
  board_order, in_column, list_for_project, list_for_project_query, next_position, position_after,
}
use ats_project_management_b.Tasks.Service.{Board, empty_board, fill, kanban_board, place}

ok_inj : {A : Type 0} {a b : A} → ok a ≡ ok b → a ≡ b
ok_inj h = cc

module _ ⦃x : Platform⦄ where
  column-fill :
      (board : Board) (tasks : List (Task x.Float)) (status : TaskStatus)
      → fill board tasks status ≡ board status ++ filter (λ t. t.status == status) tasks
  column-fill board [] status = sym (append-nil (board status))
  column-fill board (task ∷ tasks) status =
      column-fill (place board task) tasks status ∙ elim (Bool-cases (task.status == status)) [
        | inl e ↦ rw (e, append_assoc) refl
        | inr e ↦ rw e refl
      ]

  listed_tasks :
      (project_id : ℕ) (tasks : List (Task x.Float))
      → x.select (list_for_project_query project_id none).where_clause tasks
        ≡ filter (λ t. task_is_live t && t.project_id == project_id) tasks
  unfolding list_for_project_query
  listed_tasks project_id tasks =
      rw x.select_lem
        (filter_ext _ (λ t. task_is_live t && t.project_id == project_id) tasks (λ t. ground arith))

  -- The board of a project: a column lists the live tasks of the project that have its status, and
  -- no other, in the order of the listing; nothing is changed by the request.
  pub kanban_board_columns :
      (project_id : ℕ) (db : Database x.Float) (tick : ℕ)
      → (board : Board) × (with_session (kanban_board project_id) db tick ≡ (ok board, db))
        × ((status : TaskStatus)
            → board status
              ≡ filter
                  (λ t. t.status == status)
                  (x.order_by board_order
                    (filter (λ t. task_is_live t && t.project_id == project_id) db.tasks)))
  unfolding with_session kanban_board list_for_project ◌>>=◌
  kanban_board_columns project_id db tick = (
    fill empty_board (x.order_by board_order (x.select _ db.tasks)),
    refl,
    λ status.
        column-fill empty_board
          (x.order_by board_order
            (x.select (list_for_project_query project_id none).where_clause db.tasks))
          status
        ∙ ap (λ rows. filter (λ t. t.status == status) (x.order_by board_order rows))
            (listed_tasks project_id db.tasks),
  )

  any-below :
      (m top : x.Float) (rows : List (Task x.Float))
      → x.lt_float m top ≡ true
      → any (λ t. x.lt_float m t.position) rows ≡ false
      → any (λ t. not (x.lt_float t.position top)) rows ≡ false
  any-below m top [] h k = refl
  any-below m top (t ∷ rows) h k =
      ground (arith, any-below m top rows h, x.lt_float_cotrans m t.position top)

  behind_all :
      (rows : List (Task x.Float)) (o : Option x.Float) (top : x.Float)
      → x.max_float (λ t. t.position) rows ≡ o
      → ((m : x.Float)
          → x.max_float (λ t. t.position) rows ≡ some m
          → x.lt_float m (x.add_float m (x.to_float position_step)) ≡ true)
      → ok (position_after o) ≡ ok top
      → any (λ t. not (x.lt_float t.position top)) rows ≡ false
  behind_all rows none top e grows h = rw (x.max_float_none _ rows e) refl
  behind_all rows (some m) top e grows h =
      any-below m top rows (subst (λ q. x.lt_float m q ≡ true) (ok_inj h) (grows m e))
        (x.max_float_above (λ t. t.position) rows m e)

  -- A task that is put at the next position of a column comes after every task there, provided
  -- that a step added to the largest position gives a larger one (as it does for floats below
  -- about 2^62).
  pub next_position_is_last :
      (project_id : ℕ) (status : TaskStatus) (db : Database x.Float) (tick : ℕ) (top : x.Float)
      → ((m : x.Float)
          → x.max_float (λ t. t.position) (x.select (in_column project_id status) db.tasks) ≡ some m
          → x.lt_float m (x.add_float m (x.to_float position_step)) ≡ true)
      → with_session (next_position project_id status) db tick ≡ (ok top, db)
      → any (λ t. not (x.lt_float t.position top)) (filter (in_column project_id status) db.tasks)
        ≡ false
  unfolding with_session next_position
  next_position_is_last project_id status db tick top grows h =
      let rows = x.select (in_column project_id status) db.tasks in
      ap (any (λ t. not (x.lt_float t.position top)))
        (sym (x.select_lem (in_column project_id status) db.tasks))
      ∙ behind_all rows (x.max_float (λ t. t.position) rows) top refl grows (ap (λ o. o.0) h)
