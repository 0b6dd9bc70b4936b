-- ===== src/Rest/Describe/Fields.antt =====
-- The maps that describe fields (internal/handlers/sobject.go).
use mock_salesforce.Base.{ℕ, Bool, List, [], ◌∷◌, Bytes, codes}
use mock_salesforce.Base.Int.{pos}
use mock_salesforce.Value.{
  nil, str, int, bool, array, Record, no_fields, field, Items, no_items, item,
}

-- The entries of `objectMeta`
pub record LegacyMeta : Type 0 where
  pub label : Bytes
  pub label_plural : Bytes
  pub key_prefix : Bytes
  pub custom_fields : List Record

-- The keys that every field of the table has.
unfoldable pub custom_field : Bytes → Bytes → Bytes → Bool → Bool → Bool → Bool → Bool → Record
custom_field name label kind nillable updateable createable filterable sortable =
    field (codes "name") (str name) (
      field (codes "label") (str label) (
        field (codes "type") (str kind) (
          field (codes "nillable") (bool nillable) (
            field (codes "updateable") (bool updateable) (
              field (codes "createable") (bool createable) (
                field (codes "filterable") (bool filterable)
                  (field (codes "sortable") (bool sortable) no_fields)))))))

-- A `[]string`
unfoldable pub texts : List Bytes → Items
texts [] = no_items
texts (s ∷ ss) = item (str s) (texts ss)

unfoldable pub with_length : ℕ → Record → Record
with_length n r = field (codes "length") (int (pos n)) r

unfoldable pub with_references : List Bytes → Record → Record
unfolding texts
with_references names r = field (codes "referenceTo") (array (texts names)) r

-- The keys that only the common fields and the fields of the registry have.
unfoldable pub with_rest : Bool → Bool → Record → Record
with_rest unique external_id r =
    field (codes "unique") (bool unique)
      (field (codes "externalId") (bool external_id) (field (codes "defaultValue") nil r))
