-- ===== src/Core/Session/Keeps.antt =====
-- What an action preserves, with one rule for each way to build an action; and the atomicity of
-- requests that do not commit by themselves.
use ats_project_management_b.Prelude.{
  Bool, Option, false, if◌then◌else◌, none, refl, some, true, ℕ, ◌∙◌, ◌≡◌,
}
use ats_project_management_b.Core.Exceptions.{AppException, Exception}
use ats_project_management_b.Core.Session.{
  Exec, Result, Session, asserted, draw, lift, ok, or_raise, pure, raise, raise_if, raised, settle,
  with_session, ◌>>=◌,
}
use ats_project_management_b.Models.{Database}
use ats_project_management_b.Platform.{Platform}

module _ ⦃x : Platform⦄ where
  -- From a state with `P` the action leads to one, whether it returns or raises.
  pub record Keeps {A : Type 0} (P : Session x.Float → Type 0) (m : Exec A) : Type 0 where
    pub after : (s : Session x.Float) → P s → P (m s).1

  -- A predicate that does not depend on the number of calls made.
  pub record Timeless (P : Session x.Float → Type 0) : Type 0 where
    pub at_tick : (s : Session x.Float) (n : ℕ) → P s → P (record s { tick = n })

  module _ {A : Type 0} {P : Session x.Float → Type 0} where
    pub Keeps-pure : (a : A) → Keeps P (pure a)
    unfolding pure
    Keeps-pure a = record { after = λ s h. h }

    pub Keeps-raise : (e : Exception) → Keeps P (raise {A = A} e)
    unfolding raise
    Keeps-raise e = record { after = λ s h. h }

    pub Keeps-lift : (r : Result A) → Keeps P (lift r)
    unfolding lift
    Keeps-lift r = record { after = λ s h. h }

    pub Keeps-or_raise : (o : Option A) (e : AppException) → Keeps P (or_raise o e)
    unfolding or_raise
    Keeps-or_raise o e = record { after = λ s h. h }

    pub Keeps-asserted : (o : Option A) → Keeps P (asserted o)
    Keeps-asserted none = Keeps-raise Exception.unexpected
    Keeps-asserted (some a) = Keeps-pure a

    pub Keeps-draw : Timeless P → (f : ℕ → A) → Keeps P (draw f)
    unfolding draw
    Keeps-draw t f = record { after = λ s h. t.at_tick s _ h }

    pub Keeps-if : (b : Bool) (m n : Exec A) → Keeps P m → Keeps P n → Keeps P (if b then m else n)
    Keeps-if true m n km kn = km
    Keeps-if false m n km kn = kn

  pub Keeps-raise_if :
      {P : Session x.Float → Type 0} (b : Bool) (e : AppException) → Keeps P (raise_if b e)
  unfolding raise_if
  Keeps-raise_if b e = record { after = λ s h. h }

  module _ {A B : Type 0} {P : Session x.Float → Type 0} where
    continues :
        (f : A → Exec B)
        → ((a : A) → Keeps P (f a))
        → (r : Result A) (s : Session x.Float) → P s
        → P ((lift r >>= f) s).1
    unfolding ◌>>=◌
    continues f kf (ok a) s h = (kf a).after s h
    continues f kf (raised e) s h = h

    pub Keeps-bind :
        (m : Exec A) (f : A → Exec B) → Keeps P m → ((a : A) → Keeps P (f a)) → Keeps P (m >>= f)
    unfolding ◌>>=◌
    Keeps-bind m f km kf = record { after = λ s h. continues f kf (m s).0 (m s).1 (km.after s h) }

  -- The action leaves the committed database alone.
  abbrev pub IsUncommitted : {A : Type 0} → Exec A → Type 0
  IsUncommitted m = (db : Database x.Float) → Keeps (λ s. s.committed ≡ db) m

  pub Timeless-committed : (db : Database x.Float) → Timeless (λ s. s.committed ≡ db)
  Timeless-committed db = record { at_tick = λ s n h. h }

  settle_raised :
      {A : Type 0} (o : Result A × Session x.Float) (e : Exception)
      → (settle o).0 ≡ raised e
      → (settle o).1 ≡ o.1.committed
  settle_raised (ok a, s) e h = cc
  settle_raised (raised e', s) e h = refl

  -- A request that raises leaves the database as it was.
  pub rollback :
      {A : Type 0} (m : Exec A) (db : Database x.Float) (tick : ℕ) (e : Exception)
      → IsUncommitted m
      → (with_session m db tick).0 ≡ raised e
      → (with_session m db tick).1 ≡ db
  unfolding with_session
  rollback m db tick e u h =
      let start : Session x.Float = record { committed = db; current = db; tick = tick } in
      settle_raised (m start) e h ∙ (u db).after start refl

  -- The request that runs an action either succeeds or leaves the database as it was.
  abbrev pub IsAtomic : {A : Type 0} → Exec A → Type 0
  IsAtomic m =
      (db : Database x.Float) (tick : ℕ) (e : Exception)
      → (with_session m db tick).0 ≡ raised e
      → (with_session m db tick).1 ≡ db

  pub atomic : {A : Type 0} {m : Exec A} → IsUncommitted m → IsAtomic m
  atomic {m} u db tick e = rollback m db tick e u

pub ruleset keeps_rules = (
  Keeps-pure, Keeps-raise, Keeps-lift, Keeps-or_raise, Keeps-asserted, Keeps-draw, Keeps-if,
  Keeps-raise_if, Keeps-bind, Timeless-committed,
)
