-- ===== src/Store/Methods.antt =====
-- The methods of the store (internal/store/memory.go). The random bytes of a new Id and the
-- order in which Go walks a map are arguments; `none` is a panic of the filter that is called.
use mock_salesforce.Base.{
  ℕ, Bool, Option, none, some, List, [], ◌∷◌, Bytes, codes, is_empty, Assoc, lookup, insert, erase,
  length, if◌then◌else◌,
}
use mock_salesforce.Value.{str, Record}
use mock_salesforce.Value.Access.{get, put, merge}
use mock_salesforce.Store.Types.{
  MemoryStore, Result, ok, err, not_found, or_empty, as_string, copy_record, generate_id,
}
use mock_salesforce.Store.Indexing.{update_indexes, remove_from_indexes}

-- `Get`
unfoldable pub get_record : MemoryStore → Bytes → Bytes → Result Record
unfolding copy_record
get_record s t id = elim (lookup id (or_empty (lookup t s.records))) [
  | none ↦ err not_found
  | some r ↦ ok (copy_record r)
]

-- The Id of the record, or a new one.
unfoldable pub id_for : Bytes → Bytes → Record → Bytes
unfolding is_empty generate_id
id_for random t r =
    let id = as_string (get (codes "Id") r) in if is_empty id then generate_id random t else id

-- `Create` also writes the Id into the map that it is given.
unfoldable pub with_id : Bytes → Bytes → Record → Record
unfolding is_empty id_for
with_id random t r =
    if is_empty (as_string (get (codes "Id") r))
    then put (codes "Id") (str (id_for random t r)) r
    else r

-- `Create`: the id, and the store.
unfoldable pub create : MemoryStore → Bytes → Bytes → Record → Bytes × MemoryStore
unfolding id_for with_id copy_record update_indexes
create s random t r =
    let id = id_for random t r in
    let stored = record s {
      records =
          insert t (insert id (copy_record (with_id random t r)) (or_empty (lookup t s.records)))
            s.records;
    } in
    (id, update_indexes stored t id (with_id random t r))

-- `Update`
unfoldable pub update : MemoryStore → Bytes → Bytes → Record → Result MemoryStore
unfolding merge update_indexes
update s t id patch = elim (lookup id (or_empty (lookup t s.records))) [
  | none ↦ err not_found
  | some existing ↦
      let merged = merge patch existing in
      ok (
        update_indexes
          (record s {
            records = insert t (insert id merged (or_empty (lookup t s.records))) s.records;
          })
          t id merged)
]

-- `Delete`
unfoldable pub delete : MemoryStore → Bytes → Bytes → Result MemoryStore
unfolding remove_from_indexes
delete s t id = elim (lookup id (or_empty (lookup t s.records))) [
  | none ↦ err not_found
  | some _ ↦
      let s' = remove_from_indexes s t id in
      ok (record s' { records = insert t (erase id (or_empty (lookup t s'.records))) s'.records })
]

-- The records that the filter takes, copied, in the order given. `none` is a panic of the filter.
unfoldable pub filter_records : (Record → Option Bool) → Assoc Record → Option (List Record)
unfolding copy_record
filter_records filter [] = some []
filter_records filter ((id, r) ∷ rs) = elim (filter r) [
  | none ↦ none
  | some taken ↦ elim (filter_records filter rs) [
    | none ↦ none
    | some found ↦ some (if taken then copy_record r ∷ found else found)
  ]
]

-- `Query`, with the order in which Go walks the map.
unfoldable pub query :
    (Assoc Record → Assoc Record)
    → MemoryStore
    → Bytes
    → (Record → Option Bool)
    → Option (List Record)
unfolding filter_records
query walk s t filter = filter_records filter (walk (or_empty (lookup t s.records)))

unfoldable pub records_of : Assoc Record → List Bytes → List Record
unfolding copy_record
records_of objects [] = []
records_of objects (id ∷ ids) =
    let rest = records_of objects ids in
    elim (lookup id objects) [ none ↦ rest | some r ↦ copy_record r ∷ rest ]

-- `GetByIndex`
unfoldable pub get_by_index : MemoryStore → Bytes → Bytes → Bytes → List Record
unfolding records_of
get_by_index s t f value =
    records_of (or_empty (lookup t s.records))
      (or_empty (lookup value (or_empty (lookup f (or_empty (lookup t s.indexes))))))

-- `Count`
unfoldable pub count : MemoryStore → Bytes → ℕ
count s t = length (or_empty (lookup t s.records))

-- `Clear`
unfoldable pub clear : MemoryStore → MemoryStore
clear s = record s { records = []; indexes = [] }

-- `LoadRecords`, with the random bytes that each round is given.
unfoldable pub load_records : MemoryStore → Bytes → List (Bytes × Record) → MemoryStore
unfolding create
load_records s t [] = s
load_records s t ((random, r) ∷ rs) = load_records (create s random t r).1 t rs
