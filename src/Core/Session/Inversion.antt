-- ===== src/Core/Session/Inversion.antt =====
-- What is known of the steps of an action that has returned.
use mathlib.Core.Path.{subst}
use ats_project_management_b.Prelude.{Bool, Option, ap, false, none, refl, some, sym, true, ℕ, ◌≡◌}
use ats_project_management_b.Core.Exceptions.{AppException}
use ats_project_management_b.Core.Session.{
  Exec, Result, Session, continue, ok, or_raise, pure, raise_if, raised, settle, with_session,
  ◌>>=◌,
}
use ats_project_management_b.Core.Session.Keeps.{Keeps}
use ats_project_management_b.Models.{Database}
use ats_project_management_b.Platform.{Platform}

module _ ⦃x : Platform⦄ where
  module _ {A B : Type 0} (f : A → Exec B) where
    continue_ok :
        (r : Result A) (s : Session x.Float) (b : B) (s'' : Session x.Float)
        → continue r f s ≡ (ok b, s'')
        → (a : A) × (r ≡ ok a) × (f a s ≡ (ok b, s''))
    continue_ok (ok a) s b s'' h = (a, refl, h)
    continue_ok (raised e) s b s'' h = cc

    -- Both parts of a sequence have returned.
    pub bind_ok :
        (m : Exec A) (s : Session x.Float) (b : B) (s'' : Session x.Float)
        → (m >>= f) s ≡ (ok b, s'')
        → (a : A) × ((m s).0 ≡ ok a) × (f a (m s).1 ≡ (ok b, s''))
    unfolding ◌>>=◌
    bind_ok m s b s'' h = continue_ok (m s).0 (m s).1 b s'' h

  -- A test that has not raised was false.
  pub raise_if_ok :
      (test : Bool) (e : AppException) (s : Session x.Float) (a : Unit {0})
      → (raise_if test e s).0 ≡ ok a
      → test ≡ false
  unfolding raise_if
  raise_if_ok true e s a h = cc
  raise_if_ok false e s a h = refl

  pub or_raise_ok :
      {A : Type 0} (o : Option A) (e : AppException) (s : Session x.Float) (a : A)
      → (or_raise o e s).0 ≡ ok a
      → o ≡ some a
  unfolding or_raise
  or_raise_ok none e s a h = cc
  or_raise_ok (some b) e s a h = cc

  -- Both parts of a sequence have returned, and the first has left the session as it was.
  pub read_ok :
      {A B : Type 0} (f : A → Exec B) (m : Exec A) (s : Session x.Float) (b : B)
      (s'' : Session x.Float)
      → Keeps (λ t. t ≡ s) m
      → (m >>= f) s ≡ (ok b, s'')
      → (a : A) × ((m s).0 ≡ ok a) × (f a s ≡ (ok b, s''))
  read_ok f m s b s'' k h =
      let (a, p, q) = bind_ok f m s b s'' h in
      (a, p, subst (λ t. f a t ≡ (ok b, s'')) (k.after s refl) q)

  pub pure_ok : {A : Type 0} (a b : A) (s s' : Session x.Float) → pure a s ≡ (ok b, s') → s' ≡ s
  unfolding pure
  pure_ok a b s s' h = sym (ap (λ o. o.1) h)

  pub pure_value : {A : Type 0} (a b : A) (s s' : Session x.Float) → pure a s ≡ (ok b, s') → b ≡ a
  unfolding pure
  pure_value a b s s' h = cc

  settle_ok :
      {A : Type 0} (o : Result A × Session x.Float) (a : A)
      → (settle o).0 ≡ ok a
      → (s' : Session x.Float) × (o ≡ (ok a, s')) × ((settle o).1 ≡ s'.current)
  settle_ok (ok b, s) a h = (s, ap (λ r. (r, s)) h, refl)
  settle_ok (raised e, s) a h = cc

  -- A request that has returned leaves what its session holds.
  pub with_session_ok :
      {A : Type 0} (m : Exec A) (db : Database x.Float) (tick : ℕ) (a : A)
      → (with_session m db tick).0 ≡ ok a
      → (s' : Session x.Float) × (m (record { committed = db; current = db; tick = tick })
          ≡ (ok a, s'))
        × ((with_session m db tick).1 ≡ s'.current)
  unfolding with_session
  with_session_ok m db tick a h =
      settle_ok (m (record { committed = db; current = db; tick = tick })) a h
