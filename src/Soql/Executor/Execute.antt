-- ===== src/Soql/Executor/Execute.antt =====
-- The execution of a statement (`Execute` of internal/soql/executor.go, internal/soql/virtual.go).
pub mod Bounds
pub mod Rows
use mock_salesforce.Base.{
  ℕ, Bool, true, false, not, ◌||◌, Option, none, some, List, [], ◌∷◌, Bytes, codes, str_eq, Assoc,
  length, if◌then◌else◌,
}
use mock_salesforce.Value.{Value, str, Record}
use mock_salesforce.Value.Access.{get, put}
use mock_salesforce.Schema.{
  Registry, is_virtual, entity_definition_records, field_definition_records,
}
use mock_salesforce.Soql.Ast.{Field, SubQuery, SelectStatement, WhereClause}
use mock_salesforce.Soql.Executor.Runtime.{Runtime}
use mock_salesforce.Soql.Executor.Filter.{where_filter}
use mock_salesforce.Soql.Executor.Window.{window}
use mock_salesforce.Soql.Executor.Project.{project_fields}
use mock_salesforce.Soql.Executor.SubQueries.{
  Outcome, returned, unknown_parent, unknown_relationship, panicked, ordered, execute_sub_query,
}
use mock_salesforce.Soql.Executor.Aggregate.{
  QueryResult, has_aggregate_fields, filter_rows, execute_aggregate, result_of,
}
use mock_salesforce.Store.{MemoryStore, query}

-- What the executor works with: Go's packages, the describe registry, the order in which Go walks
-- the store's map, and the store.
pub record World : Type 1 where
  pub runtime : Runtime
  pub schema : Registry
  pub walk : Assoc Record → Assoc Record
  pub store : MemoryStore

-- `virtualRecords`
unfoldable pub virtual_records : World → Bytes → Option WhereClause → Option (List Record)
unfolding filter_rows where_filter entity_definition_records field_definition_records str_eq
virtual_records w t where' =
    if str_eq t (codes "EntityDefinition")
    then filter_rows (where_filter w.runtime where') (entity_definition_records w.schema)
    else if str_eq t (codes "FieldDefinition")
    then filter_rows (where_filter w.runtime where') (field_definition_records w.schema)
    else some []

-- The records that the statement ranges over.
unfoldable pub source_records : World → SelectStatement → Option (List Record)
unfolding virtual_records is_virtual query where_filter
source_records w stmt =
    if is_virtual stmt.object
    then virtual_records w stmt.object stmt.where'
    else query w.walk w.store stmt.object (where_filter w.runtime stmt.where')

abbrev text_or_blank : Value → Bytes
text_or_blank (str s) = s
text_or_blank _ = []

-- An error or a panic, or the rest on the value.
abbrev pub and_then {ℓ κ} : {A : Type ℓ} {B : Type κ} → Outcome A → (A → Outcome B) → Outcome B
and_then (returned a) f = f a
and_then unknown_parent f = unknown_parent
and_then unknown_relationship f = unknown_relationship
and_then panicked f = panicked

-- The inner loop: the subqueries of one parent, attached to its projection.
unfoldable pub attach : World → Bytes → Bytes → List SubQuery → Record → Outcome Record
unfolding execute_sub_query put
attach w t parent [] projected = returned projected
attach w t parent (sub ∷ subs) projected =
    and_then (execute_sub_query w.runtime w.walk w.store t parent sub)
      λ nested. attach w t parent subs (put sub.relationship nested projected)

-- The outer loop, over the records and their projections.
unfoldable pub attach_all :
    World → Bytes → List SubQuery → List Record → List Record → Outcome (List Record)
unfolding attach get
attach_all w t subs (r ∷ rs) (p ∷ ps) =
    and_then (attach w t (text_or_blank (get (codes "Id") r)) subs p)
      λ p'. and_then (attach_all w t subs rs ps) λ ps'. returned (p' ∷ ps')
attach_all w t subs _ ps = returned ps

abbrev pub or_panic {ℓ} : {A : Type ℓ} → Option A → Outcome A
or_panic none = panicked
or_panic (some a) = returned a

-- The path without aggregates: sorted, cut, projected, and with the subqueries attached.
unfoldable pub execute_plain : World → SelectStatement → List Record → Outcome QueryResult
unfolding window ordered project_fields attach_all result_of
execute_plain w stmt records =
    and_then (or_panic (window stmt.offset stmt.limit (ordered w.runtime stmt.order_by records)))
      λ cut.
        and_then (or_panic (project_fields w.runtime w.store cut stmt.fields stmt.object))
          λ projected.
            and_then (attach_all w stmt.object stmt.sub_queries cut projected)
              λ rows. returned (result_of rows)

abbrev pub has_group : List Field → Bool
has_group [] = false
has_group (_ ∷ _) = true

-- The two paths on the records.
unfoldable pub execute_records : World → SelectStatement → List Record → Outcome QueryResult
unfolding has_aggregate_fields execute_aggregate execute_plain
execute_records w stmt records =
    if has_aggregate_fields stmt.fields || has_group stmt.group_by
    then or_panic (execute_aggregate w.runtime stmt records)
    else execute_plain w stmt records

-- `Execute`
unfoldable pub execute : World → SelectStatement → Outcome QueryResult
unfolding source_records execute_records
execute w stmt = and_then (or_panic (source_records w stmt)) (execute_records w stmt)
