-- ===== src/Core/Repository/Laws.antt =====
-- What the repository operations do to the tables, and that none of them commits.
use ats_project_management_b.Prelude.{
  Bool, List, Option, [], and_left, and_right, any, ap, arith, change_where, false, filter,
  filter-head_passes, if◌then◌else◌, nat_eq_iff, none, not, refl, some, string_eq, sym, true, ℕ,
  ℕ_eq, ◌&&◌, ◌++◌, ◌==◌, ◌∙◌, ◌∷◌, ◌≡◌,
}
use ats_project_management_b.Core.Exceptions.{Exception}
use ats_project_management_b.Core.Repository.{
  Model, SoftDelete, add, delete, delete_as, fetch, find, get, hard_delete, query, save,
  save_unique, scalar_one_or_none, scalars, stored, update_where,
}
use ats_project_management_b.Core.Session.{Result, Session, ok, raised, ◌>>=◌}
use ats_project_management_b.Core.Session.Keeps.{IsUncommitted, Keeps, keeps_rules}
use ats_project_management_b.Models.{Database}
use ats_project_management_b.Platform.{Platform, has_clash}

pub scalar-eq-none : {A : Type 0} (rows : List A) → scalar_one_or_none rows ≡ ok none → rows ≡ []
unfolding scalar_one_or_none
scalar-eq-none [] h = refl
scalar-eq-none (q ∷ []) h = cc
scalar-eq-none (q ∷ p ∷ rows) h = cc

pub scalar-eq-some :
    {A : Type 0} (rows : List A) {r : A} → scalar_one_or_none rows ≡ ok (some r) → rows ≡ r ∷ []
unfolding scalar_one_or_none
scalar-eq-some [] h = cc
scalar-eq-some (q ∷ []) h = cc
scalar-eq-some (q ∷ p ∷ rows) h = cc

module _ ⦃x : Platform⦄ {A : Type 0} (m : Model (Database x.Float) A) where
  pub scalars_lem :
      (test : A → Bool) (s : Session x.Float)
      → scalars m test s ≡ (ok (filter test (m.table s.current)), s)
  unfolding scalars
  scalars_lem test s = rw x.select_lem

  pub fetch_lem :
      (test : A → Bool) (s : Session x.Float)
      → fetch m test s ≡ (scalar_one_or_none (filter test (m.table s.current)), s)
  unfolding fetch
  fetch_lem test s = rw x.select_lem

  pub find_lem :
      (test : A → Bool) (s : Session x.Float)
      → find m test s
        ≡ (scalar_one_or_none (filter (λ r. query m false r && test r) (m.table s.current)), s)
  unfolding find
  find_lem test s = fetch_lem (λ r. query m false r && test r) s

  pub get_lem :
      (id : ℕ) (s : Session x.Float)
      → get m id s ≡ (
        scalar_one_or_none (filter (λ r. query m false r && m.row_id r == id) (m.table s.current)),
        s,
      )
  unfolding get
  get_lem id s = find_lem (λ r. m.row_id r == id) s

  -- What `get` finds is live and has the key.
  pub get_ok :
      (id : ℕ) (s : Session x.Float) (r : A)
      → (get m id s).0 ≡ ok (some r)
      → (query m false r ≡ true) × (m.row_id r ≡ id)
  get_ok id s r h =
      let p : A → Bool = λ r. query m false r && m.row_id r == id in
      let rows =
        scalar-eq-some (filter p (m.table s.current)) (sym (ap (λ o. o.0) (get_lem id s)) ∙ h) in
      let passes = filter-head_passes p (m.table s.current) rows in
      (and_left _ passes, (nat_eq_iff (m.row_id r) id).0 (and_right _ passes))

  pub update_where_lem :
      (test : A → Bool) (change : A → A) (s : Session x.Float)
      → update_where m test change s ≡ (
        ok tt,
        record s {
          current = m.with_table (change_where test change (m.table s.current)) s.current;
        },
      )
  unfolding update_where
  update_where_lem test change s = rw x.update_lem

  pub add_lem :
      (r : A) (s : Session x.Float)
      → add m r s ≡ (
          if any (m.clash r) (m.table s.current)
          then (raised Exception.integrity, s)
          else (ok r, record s { current = m.with_table (m.table s.current ++ r ∷ []) s.current }))
  unfolding add ◌>>=◌
  add_lem r s = rw (x.insert_lem, stored) (ground arith)

  pub save_lem :
      (r : A) (change : A → A) (s : Session x.Float)
      → save m r change s ≡ (
        ok tt,
        record s {
          current =
              m.with_table
                (change_where (λ q. m.row_id q == m.row_id r) change (m.table s.current))
                s.current;
        },
      )
  unfolding save
  save_lem r change s = update_where_lem (λ q. m.row_id q == m.row_id r) change s

  pub save_unique_lem :
      (r : A) (change : A → A) (s : Session x.Float)
      → save_unique m r change s ≡ (
          let t = change_where (λ q. m.row_id q == m.row_id r) change (m.table s.current) in
          if has_clash m.clash t
          then (raised Exception.integrity, s)
          else (ok tt, record s { current = m.with_table t s.current }))
  unfolding save_unique
  save_unique_lem r change s = rw x.update_unique_lem (ground arith)

  when_saved :
      (b : Bool) (s s' : Session x.Float) (o : Result (Unit {0}) × Session x.Float) (a : Unit {0})
      → o ≡ (if b then (raised Exception.integrity, s) else (ok tt, s'))
      → o.0 ≡ ok a
      → o.1 ≡ s'
  when_saved true s s' o a e h = cc
  when_saved false s s' o a e h = ap (λ o. o.1) e

  -- An UPDATE that has not raised has changed the row.
  pub save_unique_ok :
      (r : A) (change : A → A) (s : Session x.Float) (a : Unit {0})
      → (save_unique m r change s).0 ≡ ok a
      → (save_unique m r change s).1 ≡ record s {
        current =
            m.with_table
              (change_where (λ q. m.row_id q == m.row_id r) change (m.table s.current))
              s.current;
      }
  save_unique_ok r change s a h =
      when_saved _ s _ (save_unique m r change s) a (save_unique_lem r change s) h

  pub hard_delete_lem :
      (r : A) (s : Session x.Float)
      → hard_delete m r s ≡ (
        ok tt,
        record s {
          current =
              m.with_table
                (filter (λ q. not (m.row_id q == m.row_id r)) (m.table s.current))
                s.current;
        },
      )
  unfolding hard_delete
  hard_delete_lem r s = rw x.delete_lem

  -- The reads leave the session as it is, so that they keep whatever holds.
  pub scalars-Keeps : {P : Session x.Float → Type 0} (test : A → Bool) → Keeps P (scalars m test)
  unfolding scalars
  scalars-Keeps test = record { after = λ s h. h }

  pub fetch-Keeps : {P : Session x.Float → Type 0} (test : A → Bool) → Keeps P (fetch m test)
  unfolding fetch
  fetch-Keeps test = record { after = λ s h. h }

  pub find-Keeps : {P : Session x.Float → Type 0} (test : A → Bool) → Keeps P (find m test)
  unfolding find
  find-Keeps test = record { after = λ s h. h }

  pub get-Keeps : {P : Session x.Float → Type 0} (id : ℕ) → Keeps P (get m id)
  unfolding get
  get-Keeps id = record { after = λ s h. h }

  pub update_where-IsUncommitted :
      (test : A → Bool) (change : A → A) → IsUncommitted (update_where m test change)
  unfolding update_where
  update_where-IsUncommitted test change db = record { after = λ s h. h }

  pub save-IsUncommitted : (r : A) (change : A → A) → IsUncommitted (save m r change)
  unfolding save
  save-IsUncommitted r change db = record { after = λ s h. h }

  pub save_unique-IsUncommitted : (r : A) (change : A → A) → IsUncommitted (save_unique m r change)
  save_unique-IsUncommitted r change db = record {
    after = λ s h. rw save_unique_lem (ground arith);
  }

  pub add-IsUncommitted : (r : A) → IsUncommitted (add m r)
  unfolding ◌>>=◌
  add-IsUncommitted r db = record { after = λ s h. rw add_lem (ground arith) }

  pub hard_delete-IsUncommitted : (r : A) → IsUncommitted (hard_delete m r)
  unfolding hard_delete
  hard_delete-IsUncommitted r db = record { after = λ s h. h }

  delete_as-IsUncommitted : (r : A) (o : Option (SoftDelete A)) → IsUncommitted (delete_as m r o)
  delete_as-IsUncommitted r none db = hard_delete-IsUncommitted r db
  delete_as-IsUncommitted r (some d) db = search (keeps_rules, save-IsUncommitted)

  pub delete-IsUncommitted : (r : A) → IsUncommitted (delete m r)
  unfolding delete
  delete-IsUncommitted r = delete_as-IsUncommitted r m.soft_delete

pub ruleset read_rules = (keeps_rules, scalars-Keeps, fetch-Keeps, find-Keeps, get-Keeps)

pub ruleset uncommitted_rules = (
  read_rules, update_where-IsUncommitted, save-IsUncommitted, save_unique-IsUncommitted,
  add-IsUncommitted, hard_delete-IsUncommitted, delete-IsUncommitted,
)
