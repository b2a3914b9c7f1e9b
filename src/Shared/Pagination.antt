-- ===== src/Shared/Pagination.antt =====
-- app/shared/pagination.py: page parameters, whitelisted sorting, and `paginate`.
pub mod Cover
use ats_project_management_b.Prelude.{
  Bool, List, Option, String, [], if◌then◌else◌, none, some, string_eq, ℕ, ℕ_eq, ◌*◌, ◌+◌, ◌-◌, ◌/◌,
  ◌==◌, ◌∷◌,
}
use ats_project_management_b.Core.Repository.{Model}
use ats_project_management_b.Core.Session.{Exec, found, ok}
use ats_project_management_b.Models.{Database}
use ats_project_management_b.Platform.{Platform}
use ats_project_management_b.Shared.Enums.{SortOrder}

-- FastAPI has checked `1 ≤ page` and `1 ≤ size ≤ 100`.
pub record PageParams : Type 0 where
  pub page : ℕ
  pub size : ℕ
  pub sort : Option String
  pub order : SortOrder
  pub search : Option String

pub record PaginationMeta : Type 0 where
  pub page : ℕ
  pub size : ℕ
  pub total : ℕ
  pub pages : ℕ

-- A SELECT statement: its WHERE clause, and what it orders by, as a comparison.
pub record Statement (A : Type 0) : Type 0 where
  pub where_clause : A → Bool
  pub ordering : Option (A → A → Bool)

-- `if search`: an absent or empty term does not filter.
abbrev pub search_term : Option String → Option String
search_term none = none
search_term (some term) = if term == "" then none else some term

abbrev pub offset : PageParams → ℕ
offset params = (params.page - 1) * params.size

-- `sortable.get(params.sort or "", default)`
unfoldable pub sort_column :
    {A : Type 0} → String → List (String × (A → A → Bool)) → (A → A → Bool) → A → A → Bool
sort_column key [] default = default
sort_column key ((name, column) ∷ sortable) default =
    let rest = sort_column key sortable default in if name == key then column else rest

-- `column.desc()` or `column.asc()`
abbrev pub direct : {A : Type 0} → SortOrder → (A → A → Bool) → A → A → Bool
direct SortOrder.asc column a b = column a b
direct SortOrder.desc column a b = column b a

abbrev pub sort_key : Option String → String
sort_key none = ""
sort_key (some key) = key

unfoldable pub apply_sort :
    {A : Type 0}
    → Statement A
    → PageParams
    → List (String × (A → A → Bool))
    → (A → A → Bool)
    → Statement A
apply_sort stmt params sortable default = record stmt {
  ordering = some (direct params.order (sort_column (sort_key params.sort) sortable default));
}

-- `math.ceil(total / size) if total else 0`. The float quotient is exact enough for this while
-- `total` stays far below 2^53.
abbrev pub page_count : ℕ → ℕ → ℕ
page_count total size = if total == 0 then 0 else (total + size - 1) / size

module _ ⦃x : Platform⦄ {A : Type 0} where
  abbrev pub ordered : Option (A → A → Bool) → List A → List A
  ordered none rows = rows
  ordered (some le) rows = x.order_by le rows

  -- The rows of a statement, in its order.
  unfoldable pub rows_of : Statement A → List A → List A
  rows_of stmt table = ordered stmt.ordering (x.select stmt.where_clause table)

  -- The rows that are counted come from the statement without its order. The two statements are
  -- executed anew for every page, which draws a number for the order that the rows come in.
  unfoldable pub paginate :
      Model (Database x.Float) A → Statement A → PageParams → Exec (List A × PaginationMeta)
  paginate m stmt params s =
      let found = x.select stmt.where_clause (m.table s.current) in
      let total = x.count_rows found in
      (
        ok (
          x.offset_limit (offset params) params.size (x.query_order s.tick stmt.ordering found),
          record {
            page = params.page;
            size = params.size;
            total = total;
            pages = page_count total params.size;
          },
        ),
        record s { tick = s.tick + 1 },
      )
