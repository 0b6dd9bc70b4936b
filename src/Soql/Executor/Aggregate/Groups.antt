-- ===== src/Soql/Executor/Aggregate/Groups.antt =====
-- GROUP BY (`groupRecords` of internal/soql/aggregate.go).
use mock_salesforce.Base.{
  ℕ, zero, suc, none, some, List, [], ◌∷◌, ◌++◌, Bytes, is_empty, Assoc, lookup, insert, length,
  if◌then◌else◌,
}
use mock_salesforce.Value.{Value, nil, array, Record, Items, no_items, item}
use mock_salesforce.Value.Access.{get, as_object}
use mock_salesforce.Soql.Ast.{Field}
use mock_salesforce.Soql.Executor.Runtime.{Runtime}

pub record Group : Type 0 where
  pub key : Items
  pub records : List Record

-- The value of a group field in a record.
unfoldable pub key_value : Record → Field → Value
unfolding is_empty get
key_value r f =
    if is_empty f.relation
    then get f.name r
    else elim (as_object (get f.relation r)) [ some rel ↦ get f.name rel | none ↦ nil ]

unfoldable pub group_key : List Field → Record → Items
unfolding key_value
group_key [] r = no_items
group_key (f ∷ fs) r = item (key_value r f) (group_key fs r)

-- `groups[i].records = append(groups[i].records, r)`
unfoldable pub append_at : ℕ → Record → List Group → List Group
append_at i r [] = []
append_at zero r (g ∷ gs) = record g { records = g.records ++ (r ∷ []) } ∷ gs
append_at (suc i) r (g ∷ gs) = g ∷ append_at i r gs

module _ (rt : Runtime) (group_by : List Field) where
  unfoldable pub hash : Items → Bytes
  hash key = rt.format (array key)

  -- One round of the loop, on the index by key and the groups.
  unfoldable pub group_step : Record → Assoc ℕ × List Group → Assoc ℕ × List Group
  unfolding group_key hash lookup insert append_at
  group_step r (index, groups) =
      let key = group_key group_by r in
      elim (lookup (hash key) index) [
        | some i ↦ (index, append_at i r groups)
        | none ↦ (
          insert (hash key) (length groups) index,
          groups ++ (record { key = key; records = r ∷ [] } ∷ []),
        )
      ]

  unfoldable pub group_loop : List Record → Assoc ℕ × List Group → Assoc ℕ × List Group
  unfolding group_step
  group_loop [] state = state
  group_loop (r ∷ rs) state = group_loop rs (group_step r state)

-- `groupRecords`
unfoldable pub group_records : Runtime → List Field → List Record → List Group
unfolding group_loop
group_records rt [] rs = record { key = no_items; records = rs } ∷ []
group_records rt (f ∷ fs) rs = (group_loop rt (f ∷ fs) rs ([], [])).1
