-- ===== src/Shared/Pagination/Cover.antt =====
-- The pages of a listing, each the answer of a request of its own.
use ats_project_management_b.Prelude.{
  Bool, List, Option, [], false, filter, length, none, some, suc, true, zero, ℕ, ◌+◌, ◌≡◌,
}
use ats_project_management_b.Core.Repository.{Model}
use ats_project_management_b.Core.Session.{Result, Session, ok, raised}
use ats_project_management_b.Models.{Database}
use ats_project_management_b.Platform.{Ordered, Platform}
use ats_project_management_b.Shared.Pagination.{PageParams, PaginationMeta, Statement, paginate}

module _ {A : Type 0} where
  -- The columns of an ORDER BY put any two rows in some order.
  abbrev pub IsTotal : Option (A → A → Bool) → Type 0
  IsTotal none = Unit {0}
  IsTotal (some le) = (a b : A) → le a b ≡ false → le b a ≡ true

  abbrev pub IsSorted : Option (A → A → Bool) → List A → Type 0
  IsSorted none rows = Unit {0}
  IsSorted (some le) rows = Ordered le rows

  abbrev pub items_of : Result (List A × PaginationMeta) → List A
  items_of (ok (items, meta)) = items
  items_of (raised e) = []

  abbrev pub meta_of : Result (List A × PaginationMeta) → ℕ × ℕ
  meta_of (ok (items, meta)) = (meta.total, meta.pages)
  meta_of (raised e) = (0, 0)

module _ ⦃x : Platform⦄ {A : Type 0} (m : Model (Database x.Float) A) (stmt : Statement A) where
  module _ (params : PageParams) (s : Session x.Float) (tick : ℕ → ℕ) where
    -- What the client gets for a page: a request at a time of its own, on the same rows.
    abbrev pub answer_at : ℕ → Result (List A × PaginationMeta)
    answer_at n = (paginate m stmt (record params { page = n }) (record s { tick = tick n })).0

    abbrev pub page_at : ℕ → List A
    page_at n = items_of (answer_at n)

    -- The number of items on the pages 1 to n.
    abbrev pub items_up_to : ℕ → ℕ
    items_up_to zero = 0
    items_up_to (suc n) = items_up_to n + length (page_at (suc n))

    -- The rows that the statement selects.
    abbrev pub selected : List A
    selected = filter stmt.where_clause (m.table s.current)

    -- All rows, in the order of the n-th page's query.
    abbrev listing : ℕ → List A
    listing n = x.query_order (tick n) stmt.ordering selected
