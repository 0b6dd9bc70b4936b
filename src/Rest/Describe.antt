-- ===== src/Rest/Describe.antt =====
-- The descriptions of object types (internal/handlers/sobject.go). `string.EqualFold` is a parameter.
mod Fields
mod Cases
mod Feeds
mod Activities
mod People
pub mod Global
use mock_salesforce.Base.{
  ℕ, Bool, true, false, ◌||◌, Option, none, some, List, [], ◌∷◌, ◌++◌, Bytes, codes, str_eq, any,
  Assoc, lookup, map, ltb, if◌then◌else◌,
}
use mock_salesforce.Value.{
  Value, nil, str, bool, object, array, Record, no_fields, field, Items, no_items, item,
}
use mock_salesforce.Schema.{Registry, FieldMeta, ObjectMeta, get_meta, all_fields}
use mock_salesforce.Store.{MemoryStore}
use mock_salesforce.Rest.{Reply, api_error, found}
use mock_salesforce.Rest.Describe.Fields.{
  LegacyMeta, custom_field, with_length, with_references, with_rest,
}
use mock_salesforce.Rest.Describe.Cases.{
  described_case, described_email_message, described_case_comment,
}
use mock_salesforce.Rest.Describe.Feeds.{
  described_feed_item, described_feed_comment, described_content_document,
  described_content_version,
}
use mock_salesforce.Rest.Describe.Activities.{described_task, described_event}
use mock_salesforce.Rest.Describe.People.{described_account, described_contact, described_user}

-- `commonFields`
unfoldable pub common_field_maps : List Record
unfolding with_length with_rest custom_field
common_field_maps =
    with_length 18 (
      with_rest true false
        (custom_field (codes "Id") (codes "Record ID") (codes "id") false false false true true))
    ∷ with_rest false false (
        custom_field (codes "CreatedDate") (codes "Created Date") (codes "datetime") false false
          false true true)
    ∷ with_rest false false (
        custom_field (codes "LastModifiedDate") (codes "Last Modified Date") (codes "datetime") true
          false false true true)
    ∷ []

-- `objectMeta`
abbrev pub object_meta : Assoc LegacyMeta
object_meta =
    (codes "Case", described_case)
    ∷ (codes "EmailMessage", described_email_message)
    ∷ (codes "CaseComment", described_case_comment)
    ∷ (codes "FeedItem", described_feed_item)
    ∷ (codes "FeedComment", described_feed_comment)
    ∷ (codes "Task", described_task)
    ∷ (codes "Event", described_event)
    ∷ (codes "ContentDocument", described_content_document)
    ∷ (codes "ContentVersion", described_content_version)
    ∷ (codes "Account", described_account)
    ∷ (codes "Contact", described_contact)
    ∷ (codes "User", described_user)
    ∷ []

unfoldable pub objects_of : List Record → Items
objects_of [] = no_items
objects_of (r ∷ rs) = item (object r) (objects_of rs)

unfoldable pub urls : Bytes → Value
urls name = object (
    field (codes "sobject") (str (codes "/services/data/v66.0/sobjects/" ++ name)) (
      field (codes "describe")
        (str (codes "/services/data/v66.0/sobjects/" ++ name ++ codes "/describe"))
        (field (codes "rowTemplate")
          (str (codes "/services/data/v66.0/sobjects/" ++ name ++ codes "/{ID}")) no_fields)))

-- The first keys of a description.
unfoldable pub described : Bytes → Bytes → Bytes → Bytes → List Record → Record → Record
unfolding urls objects_of
described name label label_plural key_prefix fields rest = field (codes "name") (str name) (
    field (codes "label") (str label) (
      field (codes "labelPlural") (str label_plural) (
        field (codes "keyPrefix") (str key_prefix) (
          field (codes "urls") (urls name)
            (field (codes "fields") (array (objects_of fields)) rest)))))

-- The keys that tell what can be done with an object type.
unfoldable pub abilities : Bool → Bool → Bool → Bool → Bool → Bool → Bool → Record
abilities createable updateable deletable queryable retrieveable searchable custom =
    field (codes "createable") (bool createable) (
      field (codes "updateable") (bool updateable) (
        field (codes "deletable") (bool deletable) (
          field (codes "queryable") (bool queryable) (
            field (codes "retrieveable") (bool retrieveable) (
              field (codes "searchable") (bool searchable)
                (field (codes "custom") (bool custom) no_fields))))))

abbrev if_length : ℕ → Record → Record
if_length n r = if ltb 0 n then with_length n r else r

abbrev if_references : List Bytes → Record → Record
if_references [] r = r
if_references (n ∷ ns) r = with_references (n ∷ ns) r

-- The loop of `metadataFromRegistry`
unfoldable pub registry_field : FieldMeta → Record
unfolding with_length with_references with_rest custom_field
registry_field f = if_references f.reference_to (
    if_length f.length (
      with_rest f.unique f.external_id (
        custom_field f.name f.label f.kind f.nillable f.updateable f.createable f.filterable
          f.sortable)))

unfoldable pub metadata_from_registry : ObjectMeta → Record
unfolding all_fields registry_field described abilities
metadata_from_registry m =
    described m.name m.label m.label_plural m.key_prefix (map registry_field (all_fields m)) (
      abilities m.createable m.updateable m.deletable m.queryable m.retrieveable m.searchable
        m.custom)

-- The description of a type with its entry in the table.
unfoldable pub legacy_metadata : Bytes → LegacyMeta → Record
unfolding common_field_maps described abilities
legacy_metadata t m =
    described t m.label m.label_plural m.key_prefix (common_field_maps ++ m.custom_fields)
      (abilities true true true true true true false)

-- Some object type of the store folds to the name, in whatever order the types are listed.
unfoldable pub is_stored : (Bytes → Bytes → Bool) → Bytes → Assoc (Assoc Record) → Bool
is_stored fold t [] = false
is_stored fold t ((u, rows) ∷ types) = fold u t || is_stored fold t types

-- `getObjectMetadata`
unfoldable pub get_object_metadata :
    (Bytes → Bytes → Bool) → Registry → MemoryStore → Bytes → Option Record
unfolding lookup get_meta legacy_metadata metadata_from_registry is_stored
get_object_metadata fold reg s t = elim (lookup t object_meta) [
  | some m ↦ some (legacy_metadata t m)
  | none ↦ elim (get_meta t reg) [
    | some m ↦ some (metadata_from_registry m)
    | none ↦
        if is_stored fold t s.records
        then some (
            legacy_metadata t (record {
              label = t;
              label_plural = t ++ codes "s";
              key_prefix = codes "000";
              custom_fields = [];
            }))
        else none
  ]
]

-- `HandleDescribe`
unfoldable pub handle_describe : (Bytes → Bytes → Bool) → Registry → MemoryStore → Bytes → Reply
unfolding get_object_metadata
handle_describe fold reg s t = elim (get_object_metadata fold reg s t) [
  | none ↦ api_error 404 (codes "NOT_FOUND")
  | some metadata ↦ found metadata
]

abbrev pub known_types : List Bytes
known_types =
    codes "Account"
    ∷ codes "Contact"
    ∷ codes "User"
    ∷ codes "Case"
    ∷ codes "EmailMessage"
    ∷ codes "CaseComment"
    ∷ codes "FeedItem"
    ∷ codes "FeedComment"
    ∷ codes "Task"
    ∷ codes "Event"
    ∷ codes "ContentDocument"
    ∷ codes "ContentVersion"
    ∷ []

-- The loop of `globalDescribeTypes`: `known` holds what `seen` does.
unfoldable pub add_names : List Bytes → List Bytes → List Bytes
unfolding str_eq
add_names [] known = known
add_names (n ∷ ns) known =
    add_names ns (if any (λ k. str_eq k n) known then known else known ++ (n ∷ []))

unfoldable pub global_describe_types : Registry → List Bytes
unfolding add_names
global_describe_types reg = add_names reg.names known_types

-- A description without its fields.
unfoldable pub without_fields : Record → Record
unfolding str_eq
without_fields no_fields = no_fields
without_fields (field k v r) =
    let rest = without_fields r in if str_eq k (codes "fields") then rest else field k v rest

-- The entries of `HandleGlobalDescribe`
unfoldable pub global_entries :
    (Bytes → Bytes → Bool) → Registry → MemoryStore → List Bytes → List Record
unfolding get_object_metadata without_fields
global_entries fold reg s [] = []
global_entries fold reg s (n ∷ ns) =
    let rest = global_entries fold reg s ns in
    elim (get_object_metadata fold reg s n) [
      | none ↦ rest
      | some metadata ↦ without_fields metadata ∷ rest
    ]

-- `HandleGlobalDescribe`: the list `sobjects` of the reply.
unfoldable pub handle_global_describe :
    (Bytes → Bytes → Bool) → Registry → MemoryStore → List Record
unfolding global_describe_types global_entries
handle_global_describe fold reg s = global_entries fold reg s (global_describe_types reg)
