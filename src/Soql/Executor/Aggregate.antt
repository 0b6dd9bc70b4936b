-- ===== src/Soql/Executor/Aggregate.antt =====
-- Aggregates and GROUP BY (internal/soql/aggregate.go). `none` is a panic.
pub mod Groups
pub mod Values
pub mod Partition
use mock_salesforce.Base.{
  ℕ, ◌+◌, Bool, true, false, not, ◌&&◌, ◌||◌, Option, none, some, List, [], ◌∷◌, ◌++◌, Bytes, codes,
  is_empty, str_eq, length, ltb, if◌then◌else◌,
}
use mock_salesforce.Base.Int.{ℤ, pos}
use mock_salesforce.Value.{Value, nil, str, object, Record, no_fields, field}
use mock_salesforce.Value.Access.{get, put, as_object, is_nil}
use mock_salesforce.Soql.Ast.{Field, SelectStatement, WhereClause, OrderByField, aggregate_key}
use mock_salesforce.Soql.Executor.Runtime.{Runtime}
use mock_salesforce.Soql.Executor.Filter.{where_filter}
use mock_salesforce.Soql.Executor.Window.{window}
use mock_salesforce.Soql.Executor.SubQueries.{ordered}
use mock_salesforce.Soql.Executor.Aggregate.Groups.{Group, group_records}
use mock_salesforce.Soql.Executor.Aggregate.Values.{compute_aggregate}

pub record QueryResult : Type 0 where
  pub total_size : ℕ
  pub done : Bool
  pub records : List Record

unfoldable pub has_aggregate_fields : List Field → Bool
unfolding is_empty
has_aggregate_fields [] = false
has_aggregate_fields (f ∷ fs) = not (is_empty f.aggregate) || has_aggregate_fields fs

-- The test of `isBareCount` on the lists of fields and of group fields.
unfoldable pub is_bare_count : List Field → List Field → Bool
unfolding is_empty str_eq
is_bare_count (f ∷ []) [] =
    str_eq f.aggregate (codes "COUNT") && is_empty f.name && is_empty f.relation
is_bare_count _ _ = false

-- A field that is not an aggregate, from the first record of the group.
unfoldable pub copy_group_field : Field → List Record → Record → Option Record
unfolding is_empty get put
copy_group_field f [] row = some row
copy_group_field f (r ∷ rs) row =
    if is_empty f.relation
    then some (put f.name (get f.name r) row)
    else elim (as_object (get f.relation r)) [
      | none ↦ some row
      | some rel ↦
          let slot : Value =
            if is_nil (get f.relation row) then object no_fields else get f.relation row in
          elim (as_object slot) [
            | none ↦ none
            | some merged ↦ some (put f.relation (object (put f.name (get f.name rel) merged)) row)
          ]
    ]

-- The key under which an aggregate is returned: its alias, or `exprN`.
unfoldable pub output_key : Runtime → Field → ℕ → Bytes
unfolding is_empty
output_key rt f index = if is_empty f.alias then codes "expr" ++ rt.decimal index else f.alias

unfoldable pub next_index : Field → ℕ → ℕ
unfolding is_empty
next_index f index = if is_empty f.alias then index + 1 else index

-- The loop of `buildAggregateRow`
unfoldable pub aggregate_row : Runtime → List Record → List Field → ℕ → Record → Option Record
unfolding is_empty aggregate_key put compute_aggregate copy_group_field output_key next_index
aggregate_row rt rs [] index row = some row
aggregate_row rt rs (f ∷ fs) index row =
    let val = compute_aggregate rt f rs in
    if is_empty f.aggregate
    then elim (copy_group_field f rs row) [
      | none ↦ none
      | some row' ↦ aggregate_row rt rs fs index row'
    ]
    else aggregate_row rt rs fs (next_index f index)
        (put (output_key rt f index) val (put (aggregate_key f) val row))

-- `buildAggregateRow`
unfoldable pub build_aggregate_row : Runtime → List Field → List Record → Option Record
unfolding aggregate_row
build_aggregate_row rt fs rs = aggregate_row rt rs fs 0 (
    field (codes "attributes")
      (object (field (codes "type") (str (codes "AggregateResult")) no_fields)) no_fields)

unfoldable pub group_rows : Runtime → List Field → List Group → Option (List Record)
unfolding build_aggregate_row
group_rows rt fs [] = some []
group_rows rt fs (g ∷ gs) = elim (build_aggregate_row rt fs g.records) [
  | none ↦ none
  | some row ↦ elim (group_rows rt fs gs) [ none ↦ none | some rows ↦ some (row ∷ rows) ]
]

-- The rows that a filter takes; it may panic on one.
unfoldable pub filter_rows : (Record → Option Bool) → List Record → Option (List Record)
filter_rows f [] = some []
filter_rows f (r ∷ rs) =
    let rest = filter_rows f rs in
    elim (f r) [
      | none ↦ none
      | some b ↦ elim rest [ none ↦ none | some kept ↦ some (if b then r ∷ kept else kept) ]
    ]

unfoldable pub result_of : List Record → QueryResult
result_of rs = record { total_size = length rs; done = true; records = rs }

-- `executeAggregate`
unfoldable pub execute_aggregate : Runtime → SelectStatement → List Record → Option QueryResult
unfolding is_bare_count group_records group_rows filter_rows where_filter ordered window result_of
execute_aggregate rt stmt rs =
    if is_bare_count stmt.fields stmt.group_by
    then some (record { total_size = length rs; done = true; records = [] })
    else elim (group_rows rt stmt.fields (group_records rt stmt.group_by rs)) [
      | none ↦ none
      | some rows ↦ elim (filter_rows (where_filter rt stmt.having) rows) [
        | none ↦ none
        | some kept ↦ elim (window stmt.offset stmt.limit (ordered rt stmt.order_by kept)) [
          | none ↦ none
          | some out ↦ some (result_of out)
        ]
      ]
    ]
