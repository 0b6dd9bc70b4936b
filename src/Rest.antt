-- ===== src/Rest.antt =====
-- The REST handlers of records (internal/handlers/sobject.go). The body of an error is its status and
-- code.
pub mod Created
pub mod Stored
pub mod Describe
mod Tests
use mock_salesforce.Base.{
  ℕ, Option, none, some, [], ◌∷◌, ◌++◌, Bytes, codes, is_empty, str_eq, if◌then◌else◌,
}
use mock_salesforce.Value.{Value, str, object, Record, no_fields, field}
use mock_salesforce.Value.Access.{find, put, remove}
use mock_salesforce.Store.{
  MemoryStore, Result, ok, err, StoreError, not_found, invalid_object, get_record, create, update,
  delete,
}

-- `crashed` is a panic.
pub data Reply : Type 0 where
  api_error : ℕ → Bytes → Reply
  found : Record → Reply
  created : Bytes → Reply
  no_content crashed : Reply

-- What `json.Unmarshal` makes of a body: an error, a nil map (of `null`), or a map.
pub data Decoded : Type 0 where
  malformed nil_map : Decoded
  decoded : Record → Decoded

-- The path of a record, under the address of the API.
unfoldable pub record_url : Bytes → Bytes → Bytes
record_url t id = codes "/services/data/v66.0/sobjects/" ++ t ++ codes "/" ++ id

unfoldable pub store_failure : StoreError → Reply
store_failure not_found = api_error 404 (codes "NOT_FOUND")
store_failure invalid_object = api_error 500 (codes "INTERNAL_ERROR")

-- `HandleGet`
unfoldable pub handle_get : Bytes → Bytes → MemoryStore → Reply
unfolding get_record put record_url store_failure
handle_get t id s = elim (get_record s t id) [
  | err e ↦ store_failure e
  | ok r ↦ found (
      put (codes "attributes")
        (object
          (field (codes "type") (str t) (field (codes "url") (str (record_url t id)) no_fields)))
        r)
]

-- The record that a body gives, or the reply of an error; `none` is a body that cannot be read.
pub data Body : Type 0 where
  refused : Reply → Body
  accepted : Record → Body

unfoldable pub read_body : (Bytes → Decoded) → Option Bytes → Body
unfolding is_empty
read_body unmarshal none = refused (api_error 400 (codes "INVALID_REQUEST"))
read_body unmarshal (some body) =
    if is_empty body
    then refused (api_error 400 (codes "INVALID_REQUEST"))
    else elim (unmarshal body) [
      | malformed ↦ refused (api_error 400 (codes "JSON_PARSER_ERROR"))
      | nil_map ↦ refused crashed
      | decoded values ↦ accepted values
    ]

-- `CreatedDate`, if it is not present.
unfoldable pub dated : Bytes → Record → Record
unfolding find put
dated now values = elim (find (codes "CreatedDate") values) [
  | some _ ↦ values
  | none ↦ put (codes "CreatedDate") (str now) values
]

-- `HandleCreate`, with the time as RFC 3339 prints it and the random bytes of an Id.
unfoldable pub handle_create :
    (Bytes → Decoded) → Bytes → Bytes → Bytes → Option Bytes → MemoryStore → Reply × MemoryStore
unfolding read_body dated create
handle_create unmarshal now random t body s = elim (read_body unmarshal body) [
  | refused reply ↦ (reply, s)
  | accepted values ↦ let made = create s random t (dated now values) in (created made.0, made.1)
]

-- The patch without an Id, and with the time.
unfoldable pub stamped : Bytes → Record → Record
unfolding remove put
stamped now values = put (codes "LastModifiedDate") (str now) (remove (codes "Id") values)

-- `HandleUpdate`
unfoldable pub handle_update :
    (Bytes → Decoded) → Bytes → Bytes → Bytes → Option Bytes → MemoryStore → Reply × MemoryStore
unfolding read_body stamped update store_failure
handle_update unmarshal now t id body s = elim (read_body unmarshal body) [
  | refused reply ↦ (reply, s)
  | accepted values ↦ elim (update s t id (stamped now values)) [
    | err e ↦ (store_failure e, s)
    | ok s' ↦ (no_content, s')
  ]
]

-- `HandleDelete`
unfoldable pub handle_delete : Bytes → Bytes → MemoryStore → Reply × MemoryStore
unfolding delete store_failure
handle_delete t id s = elim (delete s t id) [
  | err e ↦ (store_failure e, s)
  | ok s' ↦ (no_content, s')
]
