-- ===== src/Soql/Executor/Project.antt =====
-- Projection, relationship fields and child subqueries (internal/soql/executor.go), over the in-memory
-- store. `none` is a panic. `fmt.Sprint(v)` prints as the verb %v does.
pub mod Plain
use mock_salesforce.Base.{
  ℕ, Bool, true, false, not, ◌&&◌, Option, none, some, List, [], ◌∷◌, ◌++◌, Bytes, codes, is_empty,
  str_eq, Assoc, lookup, length, if◌then◌else◌,
}
use mock_salesforce.Base.Int.{pos}
use mock_salesforce.Value.{
  Value, nil, str, int, bool, object, array, Record, Fields, no_fields, field, Items, no_items,
  item,
}
use mock_salesforce.Value.Access.{find, get, put, as_object, is_nil}
use mock_salesforce.Soql.Ast.{Field, SubQuery}
use mock_salesforce.Soql.Executor.Runtime.{Runtime}
use mock_salesforce.Soql.Executor.Filter.{where_filter}
use mock_salesforce.Soql.Executor.Order.{sort_records}
use mock_salesforce.Soql.Executor.Window.{window}
use mock_salesforce.Store.{MemoryStore, Result, ok, err, get_record, query}

abbrev rel : Bytes → Bytes → Bytes → Bytes × (Bytes × Bytes)
rel name a b = (name, (a, b))

-- For an object type, the child type and the foreign key of each child relationship.
abbrev pub child_relationship_meta : Assoc (Assoc (Bytes × Bytes))
child_relationship_meta =
    (
      codes "Account",
      rel (codes "Cases") (codes "Case") (codes "AccountId")
          ∷ rel (codes "Contacts") (codes "Contact") (codes "AccountId")
          ∷ [],
    )
    ∷ (
      codes "Case",
      rel (codes "CaseComments") (codes "CaseComment") (codes "ParentId")
          ∷ rel (codes "EmailMessages") (codes "EmailMessage") (codes "ParentId")
          ∷ rel (codes "Feeds") (codes "FeedItem") (codes "ParentId")
          ∷ rel (codes "Tasks") (codes "Task") (codes "WhatId")
          ∷ rel (codes "Events") (codes "Event") (codes "WhatId")
          ∷ rel (codes "AttachedContentDocuments") (codes "ContentDocumentLink")
              (codes "LinkedEntityId")
          ∷ [],
    )
    ∷ (codes "Contact", rel (codes "Cases") (codes "Case") (codes "ContactId") ∷ [])
    ∷ (codes "User", rel (codes "Cases") (codes "Case") (codes "OwnerId") ∷ [])
    ∷ (codes "FeedItem", rel (codes "FeedComments") (codes "FeedComment") (codes "FeedItemId") ∷ [])
    ∷ []

-- For an object type, the foreign key and the target type of each relationship field.
abbrev pub relationship_meta : Assoc (Assoc (Bytes × Bytes))
relationship_meta =
    (
      codes "Case",
      rel (codes "Account") (codes "AccountId") (codes "Account")
          ∷ rel (codes "CreatedBy") (codes "CreatedById") (codes "User")
          ∷ rel (codes "Owner") (codes "OwnerId") (codes "User")
          ∷ [],
    )
    ∷ (codes "CaseComment", rel (codes "CreatedBy") (codes "CreatedById") (codes "User") ∷ [])
    ∷ (codes "FeedItem", rel (codes "CreatedBy") (codes "CreatedById") (codes "User") ∷ [])
    ∷ (codes "EmailMessage", [])
    ∷ []

-- The two steps of a lookup in either table.
unfoldable pub lookup_meta : Bytes → Bytes → Assoc (Assoc (Bytes × Bytes)) → Option (Bytes × Bytes)
unfolding lookup
lookup_meta t name table = elim (lookup t table) [ none ↦ none | some rels ↦ lookup name rels ]

module _ (rt : Runtime) (s : MemoryStore) where
  -- `resolveRelationshipField`
  unfoldable pub resolve_relationship_field : Record → Bytes → Bytes → Bytes → Value
  unfolding lookup_meta get get_record
  resolve_relationship_field r t relation target = elim (lookup_meta t relation relationship_meta) [
    | none ↦ nil
    | some meta ↦
        let fk = get meta.0 r in
        if is_nil fk then nil else elim (get_record s meta.1 (rt.format fk)) [
          | err _ ↦ nil
          | ok related ↦ get target related
        ]
  ]

  -- The value of a relationship field: of a nested object first, then of the related record.
  unfoldable pub relation_value : Record → Bytes → Field → Value
  unfolding resolve_relationship_field get
  relation_value r t f = elim (as_object (get f.relation r)) [
    | some related ↦ get f.name related
    | none ↦ resolve_relationship_field r t f.relation f.name
  ]

  -- One field into the projected record; the type assertion panics on a slot that is not a map.
  unfoldable pub project_field : Record → Bytes → Field → Record → Option Record
  unfolding relation_value put is_empty get
  project_field r t f projected =
      if is_empty f.relation
      then some (put f.name (get f.name r) projected)
      else (let slot : Value =
            if is_nil (get f.relation projected)
            then object no_fields
            else get f.relation projected in
          elim (as_object slot) [
            | none ↦ none
            | some merged ↦
                some (put f.relation (object (put f.name (relation_value r t f) merged)) projected)
          ])

  unfoldable pub project_record : Record → Bytes → List Field → Record → Option Record
  unfolding project_field
  project_record r t [] projected = some projected
  project_record r t (f ∷ fs) projected = elim (project_field r t f projected) [
    | none ↦ none
    | some projected' ↦ project_record r t fs projected'
  ]

  -- The record that `projectFields` starts from.
  unfoldable pub attributes : Bytes → Record → Record
  unfolding get
  attributes t r =
      field (codes "attributes")
        (object (
          field (codes "type") (str t) (
            field (codes "url")
              (str (
                codes "/services/data/v66.0/sobjects/"
                ++ t
                ++ codes "/"
                ++ rt.format_text (get (codes "Id") r)))
              no_fields)))
        no_fields

  -- `projectFields`
  unfoldable pub project_fields : List Record → List Field → Bytes → Option (List Record)
  unfolding project_record attributes
  project_fields [] fs t = some []
  project_fields (r ∷ rs) fs t = elim (project_record r t fs (attributes t r)) [
    | none ↦ none
    | some p ↦ elim (project_fields rs fs t) [ none ↦ none | some ps ↦ some (p ∷ ps) ]
  ]

  -- The filter of a subquery: the record points to the parent, and passes the condition.
  unfoldable pub child_filter : Bytes → Bytes → SubQuery → Record → Option Bool
  unfolding get where_filter str_eq
  child_filter key parent sub r =
      let v = get key r in
      if is_nil v
      then some false
      else if not (str_eq (rt.format v) parent)
      then some false
      else where_filter rt sub.where' r

  unfoldable pub items_of : List Record → Items
  items_of [] = no_items
  items_of (r ∷ rs) = item (object r) (items_of rs)

  -- The nested result, which is nil without rows.
  unfoldable pub nested_result : List Record → SubQuery → Bytes → Option Value
  unfolding project_fields items_of
  nested_result [] sub t = some nil
  nested_result (r ∷ rs) sub t = elim (project_fields (r ∷ rs) sub.fields t) [
    | none ↦ none
    | some ps ↦ some (
        object (
          field (codes "totalSize") (int (pos (length ps))) (
            field (codes "done") (bool true)
              (field (codes "records") (array (items_of ps)) no_fields))))
  ]
