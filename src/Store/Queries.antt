-- ===== src/Store/Queries.antt =====
-- The method Query of the store (internal/store/memory.go).
use mock_salesforce.Base.{
  ◌≡◌, ◌≢◌, refl, Bool, false, Option, none, some, List, [], ◌∷◌, Bytes, Assoc, lookup, select,
  Option-cases, inl, inr,
}
use mock_salesforce.Value.{Record}
use mock_salesforce.Store.Types.{MemoryStore, or_empty}
use mock_salesforce.Store.Methods.{query, filter_records}
use mock_salesforce.Store.Records.{copy_record_lem}

abbrev pub passes : Option Bool → Bool
passes (some b) = b
passes none = false

abbrev pub rows : Assoc Record → List Record
rows [] = []
rows ((id, r) ∷ table) = r ∷ rows table

filter_records-select :
    (f : Record → Option Bool)
    → ((r : Record) → f r ≢ none)
    → (table : Assoc Record)
    → filter_records f table ≡ some (select (λ r. passes (f r)) (rows table))
unfolding filter_records
filter_records-select f total [] = refl
filter_records-select f total ((id, r) ∷ table) = elim (Option-cases (f r)) [
  | inl e ↦ absurd (total r e)
  | inr (b, e) ↦ rw (e, filter_records, filter_records-select f total table, copy_record_lem r) refl
]

-- With a filter that never panics, `Query` returns the records of the object type that the filter
-- takes, each as often and in the order in which the map is walked, and no others.
pub query-select :
    (walk : Assoc Record → Assoc Record) (s : MemoryStore) (t : Bytes) (f : Record → Option Bool)
    → ((r : Record) → f r ≢ none)
    → query walk s t f
      ≡ some (select (λ r. passes (f r)) (rows (walk (or_empty (lookup t s.records)))))
unfolding query
query-select walk s t f total = filter_records-select f total (walk (or_empty (lookup t s.records)))
