-- ===== src/Soql/Executor/Children.antt =====
-- The rows of a child subquery (internal/soql/executor.go).
use mock_salesforce.Base.{
  ◌≡◌, ap, fun_ext, Bool, false, Option, none, some, Bytes, Assoc, lookup, select, str_eq, arith,
  if◌then◌else◌,
}
use mock_salesforce.Value.{Record}
use mock_salesforce.Value.Access.{get, is_nil}
use mock_salesforce.Soql.Ast.{SubQuery, WhereClause}
use mock_salesforce.Soql.Executor.Runtime.{Runtime}
use mock_salesforce.Soql.Executor.Filter.{where_filter}
use mock_salesforce.Soql.Executor.Filters.{Returns, IsSafe, condition_filter-Returns}
use mock_salesforce.Soql.Executor.Window.{window}
use mock_salesforce.Soql.Executor.Project.{child_filter}
use mock_salesforce.Soql.Executor.SubQueries.{children, ordered}
use mock_salesforce.Store.{MemoryStore, or_empty}
use mock_salesforce.Store.Queries.{passes, rows, query-select}

module _ (rt : Runtime) where
  abbrev pub IsSafeWhere : Option WhereClause → Type 0
  IsSafeWhere none = Unit
  IsSafeWhere (some w) = IsSafe rt w.condition

  pub where_filter-Returns :
      (w : Option WhereClause) (r : Record) → IsSafeWhere w → Returns (where_filter rt w r)
  unfolding where_filter
  where_filter-Returns none r h = ground arith
  where_filter-Returns (some w) r h = condition_filter-Returns rt w.condition r h

  child_filter-Returns :
      (s : MemoryStore) (key parent : Bytes) (sub : SubQuery) (r : Record)
      → IsSafeWhere sub.where'
      → Returns (child_filter rt s key parent sub r)
  unfolding child_filter
  child_filter-Returns s key parent sub r h =
      let w = where_filter-Returns sub.where' r h in ground arith

  -- A record points to the parent by the foreign key, and passes the condition of the subquery.
  abbrev pub belongs : Bytes → Bytes → SubQuery → Record → Bool
  belongs key parent sub r =
      if is_nil (get key r)
      then false
      else if str_eq (rt.format (get key r)) parent
      then passes (where_filter rt sub.where' r)
      else false

  passes-child_filter :
      (s : MemoryStore) (key parent : Bytes) (sub : SubQuery) (r : Record)
      → passes (child_filter rt s key parent sub r) ≡ belongs key parent sub r
  unfolding child_filter
  passes-child_filter s key parent sub r = ground arith

  -- If no comparison of its condition has the operand '%', the rows of a subquery are the records
  -- of the child type that point to the parent and pass the condition, in the order in which the
  -- store's map is walked, then sorted, then cut by OFFSET and LIMIT.
  pub children-select :
      (walk : Assoc Record → Assoc Record) (s : MemoryStore) (t key parent : Bytes) (sub : SubQuery)
      → IsSafeWhere sub.where'
      → children rt walk s t key parent sub
        ≡ window sub.offset sub.limit (
            ordered rt sub.order_by
              (select (belongs key parent sub) (rows (walk (or_empty (lookup t s.records))))))
  unfolding children
  children-select walk s t key parent sub h =
      rw
        (
          (query-select walk s t (child_filter rt s key parent sub)
              (λ r. child_filter-Returns s key parent sub r h)),
          children,
        )
        (ap
          (λ p.
            window sub.offset sub.limit
              (ordered rt sub.order_by (select p (rows (walk (or_empty (lookup t s.records)))))))
          (fun_ext (passes-child_filter s key parent sub)))
