-- ===== src/Soql/Executor/SubQueries.antt =====
-- Child subqueries (`executeSubQuery` of internal/soql/executor.go).
use mock_salesforce.Base.{Option, none, some, List, [], ◌∷◌, Bytes, Assoc, lookup}
use mock_salesforce.Value.{Value, Record}
use mock_salesforce.Soql.Ast.{SubQuery, OrderByField}
use mock_salesforce.Soql.Executor.Runtime.{Runtime}
use mock_salesforce.Soql.Executor.Order.{sort_records}
use mock_salesforce.Soql.Executor.Window.{window}
use mock_salesforce.Soql.Executor.Project.{child_relationship_meta, child_filter, nested_result}
use mock_salesforce.Store.{MemoryStore, query}

-- A value, an error (the relationship is not known), or a panic.
pub data Outcome {ℓ} (A : Type ℓ) : Type ℓ where
  returned : A → Outcome A
  unknown_parent unknown_relationship : Outcome A
  panicked : Outcome A

-- `if len(orderBy) > 0 { sortRecords }`
unfoldable pub ordered : Runtime → List OrderByField → List Record → List Record
unfolding sort_records
ordered rt [] rs = rs
ordered rt (ob ∷ obs) rs = sort_records rt (ob ∷ obs) rs

-- The children of a parent under a foreign key: filtered, sorted and cut.
unfoldable pub children :
    Runtime
    → (Assoc Record → Assoc Record)
    → MemoryStore
    → Bytes
    → Bytes
    → Bytes
    → SubQuery
    → Option (List Record)
unfolding query child_filter ordered window
children rt walk s t key parent sub = elim (query walk s t (child_filter rt s key parent sub)) [
  | none ↦ none
  | some rs ↦ window sub.offset sub.limit (ordered rt sub.order_by rs)
]

-- `executeSubQuery`, with the order in which Go walks the store's map.
unfoldable pub execute_sub_query :
    Runtime → (Assoc Record → Assoc Record) → MemoryStore → Bytes → Bytes → SubQuery → Outcome Value
unfolding lookup children nested_result
execute_sub_query rt walk s parent_type parent sub =
    elim (lookup parent_type child_relationship_meta) [
      | none ↦ unknown_parent
      | some rels ↦ elim (lookup sub.relationship rels) [
        | none ↦ unknown_relationship
        | some meta ↦ elim (children rt walk s meta.0 meta.1 parent sub) [
          | none ↦ panicked
          | some rs ↦ elim (nested_result rt s rs sub meta.0) [
            | none ↦ panicked
            | some v ↦ returned v
          ]
        ]
      ]
    ]
