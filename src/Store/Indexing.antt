-- ===== src/Store/Indexing.antt =====
-- The secondary indexes: `updateIndexes` and `removeFromIndexes` (internal/store/memory.go).
use mock_salesforce.Base.{
  not, none, some, List, [], ◌∷◌, ◌++◌, Bytes, str_eq, is_empty, Assoc, lookup, insert, erase,
  select, any, if◌then◌else◌,
}
use mock_salesforce.Value.{Record}
use mock_salesforce.Value.Access.{get}
use mock_salesforce.Store.Types.{MemoryStore, or_empty, as_string}

-- The ids of a value, with one more unless it is there.
unfoldable pub add_id : Bytes → List Bytes → List Bytes
add_id id ids = if any (λ j. str_eq j id) ids then ids else ids ++ id ∷ []

-- One round of `updateIndexes`.
unfoldable pub index_field :
    Bytes → Record → Bytes → Assoc (Assoc (List Bytes)) → Assoc (Assoc (List Bytes))
unfolding is_empty
index_field id r f indexes =
    let value = as_string (get f r) in
    if is_empty value
    then indexes
    else let by_value = or_empty (lookup f indexes) in
      insert f (insert value (add_id id (or_empty (lookup value by_value))) by_value) indexes

unfoldable pub index_fields :
    Bytes → Record → List Bytes → Assoc (Assoc (List Bytes)) → Assoc (Assoc (List Bytes))
unfolding index_field add_id
index_fields id r [] indexes = indexes
index_fields id r (f ∷ fs) indexes = index_fields id r fs (index_field id r f indexes)

unfoldable pub update_indexes : MemoryStore → Bytes → Bytes → Record → MemoryStore
unfolding index_fields
update_indexes s t id r = elim (lookup t s.indexed_fields) [
  | none ↦ s
  | some fs ↦ record s {
    indexes = insert t (index_fields id r fs (or_empty (lookup t s.indexes))) s.indexes;
  }
]

-- Takes the id out of every list of an index, and a list that is then empty out of the index.
unfoldable pub remove_id : Bytes → Assoc (List Bytes) → Assoc (List Bytes)
remove_id id [] = []
remove_id id ((value, ids) ∷ m) =
    let kept = select (λ j. not (str_eq j id)) ids in
    let rest = remove_id id m in
    elim kept [ [] ↦ erase value rest | j ∷ js ↦ (value, j ∷ js) ∷ rest ]

unfoldable pub remove_ids : Bytes → Assoc (Assoc (List Bytes)) → Assoc (Assoc (List Bytes))
unfolding remove_id
remove_ids id [] = []
remove_ids id ((f, m) ∷ indexes) = (f, remove_id id m) ∷ remove_ids id indexes

unfoldable pub remove_from_indexes : MemoryStore → Bytes → Bytes → MemoryStore
unfolding remove_ids
remove_from_indexes s t id = elim (lookup t s.indexes) [
  | none ↦ s
  | some indexes ↦ record s { indexes = insert t (remove_ids id indexes) s.indexes }
]
