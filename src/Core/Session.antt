-- ===== src/Core/Session.antt =====
-- The request-scoped session (`get_db` in app/core/dependencies.py) as a state and exception monad.
-- A session sees the committed database and its own flushed changes; `tick` counts the calls whose
-- answers differ from call to call (app/shared/utils.py, random tokens, salts).
pub mod Inversion
pub mod Keeps
use ats_project_management_b.Prelude.{Bool, Option, if◌then◌else◌, none, some, ℕ, ◌+◌}
use ats_project_management_b.Core.Exceptions.{AppException, Exception}
use ats_project_management_b.Models.{Database}
use ats_project_management_b.Platform.{Platform}

pub data Result {ℓ} (A : Type ℓ) : Type ℓ where
  ok : A → Result A
  raised : Exception → Result A

pub record Session (F : Type 0) : Type 0 where
  pub committed : Database F
  pub current : Database F
  pub tick : ℕ

module _ ⦃x : Platform⦄ where
  abbrev pub Exec : Type 0 → Type 0
  Exec A = Session x.Float → Result A × Session x.Float

  unfoldable pub pure : {A : Type 0} → A → Exec A
  pure a s = (ok a, s)

  unfoldable pub raise : {A : Type 0} → Exception → Exec A
  raise e s = (raised e, s)

  -- A result that has been computed.
  unfoldable pub lift : {A : Type 0} → Result A → Exec A
  lift r s = (r, s)

  -- `if test: raise error`
  unfoldable pub raise_if : Bool → AppException → Exec (Unit {0})
  raise_if test e s = (if test then raised (Exception.app e) else ok tt, s)

  abbrev pub found : {A : Type 0} → Option A → AppException → Result A
  found none e = raised (Exception.app e)
  found (some a) e = ok a

  -- `if value is None: raise error`
  unfoldable pub or_raise : {A : Type 0} → Option A → AppException → Exec A
  or_raise o e s = (found o e, s)

  -- An answer that differs from call to call.
  unfoldable pub draw : {A : Type 0} → (ℕ → A) → Exec A
  draw f s = (ok (f s.tick), record s { tick = s.tick + 1 })

  -- `await db.commit()`
  unfoldable pub commit : Exec (Unit {0})
  commit s = (ok tt, record s { committed = s.current })

  abbrev pub continue : {A B : Type 0} → Result A → (A → Exec B) → Exec B
  continue (ok a) f s = f a s
  continue (raised e) f s = (raised e, s)

  -- `assert value is not None`
  abbrev pub asserted : {A : Type 0} → Option A → Exec A
  asserted none = raise Exception.unexpected
  asserted (some a) = pure a

  infixl 5 ◌>>=◌ ◌>>◌
  -- To open this is to open the actions above.
  unfoldable pub ◌>>=◌ : {A B : Type 0} → Exec A → (A → Exec B) → Exec B
  unfolding pure raise lift raise_if or_raise draw commit
  ◌>>=◌ m f s = let (r, s') = m s in continue r f s'

  abbrev pub ◌>>◌ : {A B : Type 0} → Exec A → Exec B → Exec B
  m >> k = m >>= λ _. k

  abbrev pub settle : {A : Type 0} → Result A × Session x.Float → Result A × Database x.Float
  settle (ok a, s) = (ok a, s.current)
  settle (raised e, s) = (raised e, s.committed)

  -- `get_db` around a request: commit on success, roll back on an exception. The result has the
  -- database that the request leaves.
  unfoldable pub with_session :
      {A : Type 0} → Exec A → Database x.Float → ℕ → Result A × Database x.Float
  with_session m db tick = settle (m (record { committed = db; current = db; tick = tick }))
