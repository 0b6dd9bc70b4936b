-- ===== src/Store/Tests.antt =====
-- The laws of the store at a store with records.
use mock_salesforce.Base.{
  ◌≡◌, ◌&&◌, ◌||◌, refl, List, [], ◌∷◌, Bytes, codes, str_eq, lookup, insert,
}
use mock_salesforce.Value.{str, Record, no_fields, field}
use mock_salesforce.Value.Access.{get, find, put, merge}
use mock_salesforce.Store.{
  MemoryStore, new_memory_store, ok, err, get_record, create, update, get_by_index,
}
use mock_salesforce.Store.Records.{at, Updates, update-Updates}
use mock_salesforce.Store.Entries.{has, ids_at, indexed, holds}
use mock_salesforce.Store.Runs.{
  Operation, created, updated, run, replay, run-replay, IsIn, get_by_index-run,
}
use mock_salesforce.Store.Index.{ids_at-update}

abbrev random : Bytes
random = 1 ∷ 2 ∷ 3 ∷ 4 ∷ 5 ∷ 6 ∷ 255 ∷ []

abbrev row : Record
row =
    field (codes "Subject") (str (codes "Hi"))
      (field (codes "AccountId") (str (codes "001A")) no_fields)

abbrev case_type : Bytes
case_type = codes "Case"

abbrev one : MemoryStore
one = (create new_memory_store random case_type row).1

abbrev one_id : Bytes
one_id = (create new_memory_store random case_type row).0

abbrev moved : Record
moved = field (codes "AccountId") (str (codes "001B")) no_fields

update-Updates_example :
    Updates one case_type one_id moved (at one case_type one_id) (update one case_type one_id moved)
update-Updates_example = update-Updates one case_type one_id moved

-- The store after the update, where it succeeds.
abbrev second : MemoryStore
second = elim (update one case_type one_id moved) [ err e ↦ one | ok s ↦ s ]

abbrev kept : Record
kept =
    field (codes "Subject") (str (codes "Hi"))
      (field (codes "AccountId") (str (codes "001A")) (field (codes "Id") (str one_id) no_fields))

ids_at-update_example : has one_id (ids_at second case_type (codes "AccountId") (codes "001A")) ≡ (
    has one_id (ids_at one case_type (codes "AccountId") (codes "001A"))
    || str_eq case_type case_type
      && indexed one case_type (codes "AccountId")
      && holds (merge moved kept) (codes "AccountId") (codes "001A")
      && str_eq one_id one_id)
unfolding create update get_record str_eq insert get find put
ids_at-update_example =
    ids_at-update one second case_type one_id moved kept case_type (codes "AccountId")
      (codes "001A") one_id refl refl

abbrev operations : List Operation
operations = created random case_type row ∷ updated case_type one_id moved ∷ []

run-replay_example :
    at (run operations new_memory_store) case_type one_id
    ≡ replay operations (at new_memory_store) case_type one_id
run-replay_example = run-replay operations new_memory_store case_type one_id

abbrev merged : Record
merged =
    field (codes "Subject") (str (codes "Hi"))
      (field (codes "AccountId") (str (codes "001B")) (field (codes "Id") (str one_id) no_fields))

get_by_index-run_example :
    IsIn merged
      (get_by_index (run operations new_memory_store) case_type (codes "AccountId") (codes "001B"))
unfolding create update str_eq insert lookup get find put merge
get_by_index-run_example =
    get_by_index-run operations case_type one_id (codes "AccountId") (codes "001B") merged refl refl
      refl
