-- ===== src/Rest/Tests.antt =====
-- The laws of the REST handlers at concrete records.
use mock_salesforce.Base.{
  ◌≡◌, refl, some, [], Bytes, codes, is_empty, str_eq, lookup, insert, length,
}
use mock_salesforce.Value.{str, Record, no_fields, field}
use mock_salesforce.Value.Access.{find, get, put}
use mock_salesforce.Schema.Builtin.{builtin_objects, builtin_registry}
use mock_salesforce.Store.{MemoryStore, new_memory_store, get_record, create, copy_record}
use mock_salesforce.Rest.{
  api_error, Decoded, decoded, read_body, dated, handle_get, handle_create, handle_update,
  handle_delete,
}
use mock_salesforce.Rest.Created.{IsCreated}
use mock_salesforce.Rest.Stored.{
  KeepsId, handle_get-handle_create, handle_update-KeepsId, handle_get-handle_delete,
}
use mock_salesforce.Rest.Describe.{global_describe_types, handle_global_describe}
use mock_salesforce.Rest.Describe.Global.{AreFound, handle_describe-AreFound}

abbrev posted : Record
posted =
    field (codes "Id") (str (codes "500A")) (field (codes "Subject") (str (codes "Hi")) no_fields)

abbrev unmarshal : Bytes → Decoded
unmarshal body = decoded posted

abbrev today : Bytes
today = codes "2026-01-01T00:00:00Z"

handle_get-handle_create_example : IsCreated today (codes "Case") (codes "500A") posted (
    handle_get
      (codes "Case")
      (codes "500A")
      (handle_create unmarshal today [] (codes "Case") (some (codes "{}")) new_memory_store).1)
unfolding read_body is_empty handle_create create dated find str_eq put get
handle_get-handle_create_example =
    handle_get-handle_create unmarshal today [] (codes "Case") (some (codes "{}")) new_memory_store
      posted (codes "500A") refl refl

abbrev stored : MemoryStore
stored = (create new_memory_store [] (codes "Case") posted).1

handle_update-KeepsId_example :
    KeepsId
      (codes "Case")
      (codes "500A")
      posted
      (handle_update unmarshal today (codes "Case") (codes "500A") (some (codes "{}")) stored).1
unfolding create get_record copy_record lookup insert str_eq is_empty get find
handle_update-KeepsId_example =
    handle_update-KeepsId unmarshal today (codes "Case") (codes "500A") (some (codes "{}")) stored
      posted refl

handle_get-handle_delete_example :
    handle_get (codes "Case") (codes "500A") (handle_delete (codes "Case") (codes "500A") stored).1
    ≡ api_error 404 (codes "NOT_FOUND")
handle_get-handle_delete_example = handle_get-handle_delete (codes "Case") (codes "500A") stored

handle_describe-AreFound_example :
    AreFound str_eq builtin_registry stored (global_describe_types builtin_registry)
    × (length (handle_global_describe str_eq builtin_registry stored)
        ≡ length (global_describe_types builtin_registry))
handle_describe-AreFound_example = handle_describe-AreFound str_eq builtin_objects stored
