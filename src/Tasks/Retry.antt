-- ===== src/Tasks/Retry.antt =====
-- Moves of one task, each with the task loaded afresh: what a client does after a stale version.
use mathlib.Core.Path.{subst}
use ats_project_management_b.Prelude.{
  Bool, Bool-cases, List, [], and_left, and_right, arith, count, count-map, count_ext, count_mono,
  false, filter, filter-head_passes, inl, inr, nat_eq_iff, option_eq, refl, some, string_eq, sym,
  true, ℕ, ℕ_eq, ◌&&◌, ◌==◌, ◌∙◌, ◌∷◌, ◌≡◌, ◌≤◌,
}
use ats_project_management_b.Core.Repository.{get, task_model}
use ats_project_management_b.Core.Repository.Laws.{get_lem, scalar-eq-some}
use ats_project_management_b.Core.Session.{Exec, ok, or_raise, with_session, ◌>>=◌}
use ats_project_management_b.Models.{Database, Task, task_is_live}
use ats_project_management_b.Platform.{Platform}
use ats_project_management_b.Shared.Enums.{task_status_beq_iff}
use ats_project_management_b.Tasks.Repository.{same_version, save_task}
use ats_project_management_b.Tasks.Service.{TaskStatusUpdate, task_not_found, update_status}
use ats_project_management_b.Tasks.Versions.{
  lookup_task, move_run, moved_db, moved_found, moved_task, moves, position_or_next_lem,
}

module _ {A : Type 0} where
  -- The element that a filter leaves is in the list.
  count-head :
      (p q : A → Bool) (xs : List A) {r : A} {rest : List A}
      → filter p xs ≡ r ∷ rest
      → q r ≡ true
      → 1 ≤ count q xs
  count-head p q [] e h = cc
  count-head p q (x ∷ xs) {r} {rest} e h = ground (arith, count-head p q xs {r = r} {rest = rest})

module _ ⦃x : Platform⦄ where
  -- A live task has the id, and no other row.
  pub record IsStored (id : ℕ) (task : Task x.Float) (db : Database x.Float) : Type 0 where
    pub found_task : lookup_task id db.tasks ≡ ok (some task)
    pub alone : count (λ t. t.id == id) db.tasks ≡ 1

  -- A request that loads the task and moves it.
  unfoldable pub move_fresh : ℕ → TaskStatusUpdate x.Float → Exec (Task x.Float)
  move_fresh id payload = do
    existing ← get task_model id
    task ← or_raise existing task_not_found
    update_status task payload

  -- The database after such requests, one after the other.
  unfoldable pub after_moves :
      ℕ → List (ℕ × TaskStatusUpdate x.Float) → Database x.Float → Database x.Float
  after_moves id [] db = db
  after_moves id ((tick, payload) ∷ rest) db =
      after_moves id rest (with_session (move_fresh id payload) db tick).1

  module _ (id : ℕ) (task : Task x.Float) (db : Database x.Float) (s : IsStored id task db) where
    has_id : task.id ≡ id
    has_id = (nat_eq_iff task.id id).0 (
        and_right _ (
          filter-head_passes (λ t. task_is_live t && t.id == id) db.tasks
            (scalar-eq-some _ s.found_task)))

    one_version : count (same_version task) db.tasks ≡ 1
    one_version =
        let here =
          count-head (λ t. task_is_live t && t.id == id) (same_version task) db.tasks
            (scalar-eq-some _ s.found_task)
            (ground (
              arith,
              (nat_eq_iff task.id task.id).1 refl,
              (nat_eq_iff task.version task.version).1 refl,
            )) in
        let most =
          count_mono (same_version task) (λ t. t.id == id) db.tasks
            (λ t h. (nat_eq_iff t.id id).1 ((nat_eq_iff t.id task.id).0 (and_left _ h) ∙ has_id)) in
        omega (arith, here, most, s.alone)

    found_own : lookup_task task.id db.tasks ≡ ok (some task)
    found_own = subst (λ i. lookup_task i db.tasks ≡ ok (some task)) (sym has_id) s.found_task

    module _ (payload : TaskStatusUpdate x.Float) where
      moved-IsStored : IsStored id (moved_task task db payload) (moved_db task db payload)
      moved-IsStored = record {
        found_task =
            subst
              (λ i.
                lookup_task i (moved_db task db payload).tasks
                ≡ ok (some (moved_task task db payload)))
              has_id (moved_found task db payload found_own);
        alone =
            count-map (λ t. t.id == id) _ db.tasks
            ∙ (count_ext _ _ db.tasks (λ r. ground arith) ∙ s.alone);
      }

      stays_run :
          (tick : ℕ)
          → moves task payload db ≡ false
          → with_session (update_status task payload) db tick ≡ (ok task, db)
      unfolding with_session update_status save_task ◌>>=◌
      stays_run tick e =
          rw position_or_next_lem (rw e (rw (get_lem task_model) (rw found_own refl)))

      -- The task is moved, or it is where it shall be.
      moves_or_stays :
          (tick : ℕ)
          → (task' : Task x.Float) × (db' : Database x.Float) × (with_session
                (update_status task payload)
                db
                tick
              ≡ (ok task', db'))
            × (task'.status ≡ payload.status)
            × IsStored id task' db'
      moves_or_stays tick = elim (Bool-cases (moves task payload db)) [
        | inl e ↦ (
          moved_task task db payload,
          moved_db task db payload,
          move_run task db payload tick found_own one_version e,
          refl,
          moved-IsStored,
        )
        | inr e ↦ (
          task,
          db,
          stays_run tick e,
          ground (arith, task_status_beq_iff task.status payload.status),
          s,
        )
      ]

      fresh_run :
          (tick : ℕ)
          → with_session (move_fresh id payload) db tick
            ≡ with_session (update_status task payload) db tick
      unfolding with_session move_fresh ◌>>=◌
      fresh_run tick = rw (get_lem task_model) (rw s.found_task refl)

      fresh_moves :
          (tick : ℕ)
          → (task' : Task x.Float) × (db' : Database x.Float) × (with_session
                (move_fresh id payload)
                db
                tick
              ≡ (ok task', db'))
            × (task'.status ≡ payload.status)
            × IsStored id task' db'
      fresh_moves tick =
          let (task', db', ran, there, stored') = moves_or_stays tick in
          (task', db', fresh_run tick ∙ ran, there, stored')

  -- Whatever moves of a live task, whose id no other row has, other requests have made in turn, a
  -- request that loads the task again and moves it succeeds: the task is then in the column that
  -- was asked for, and is still the only row with its id.
  pub retry_succeeds :
      (id : ℕ) (task : Task x.Float) (db : Database x.Float)
      (others : List (ℕ × TaskStatusUpdate x.Float)) (payload : TaskStatusUpdate x.Float) (tick : ℕ)
      → IsStored id task db
      → (task' : Task x.Float) × (db' : Database x.Float) × (with_session
            (move_fresh id payload)
            (after_moves id others db)
            tick
          ≡ (ok task', db'))
        × (task'.status ≡ payload.status)
        × IsStored id task' db'
  unfolding after_moves
  retry_succeeds id task db [] payload tick s = fresh_moves id task db s payload tick
  retry_succeeds id task db ((k, other) ∷ others) payload tick s =
      let (task', db', ran, there, stored') = fresh_moves id task db s other k in
      rw ran (retry_succeeds id task' db' others payload tick stored')
