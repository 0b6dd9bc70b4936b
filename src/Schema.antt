-- ===== src/Schema.antt =====
-- The registry of object descriptions (internal/schema/registry.go) and the records of the virtual
-- objects (internal/schema/virtual.go). The registry's two variables are the state.
pub mod Naming
pub mod Registered
pub mod Builtin
use mock_salesforce.Base.{
  ℕ, Bool, true, false, not, ◌||◌, Option, none, some, List, [], ◌∷◌, ◌++◌, Bytes, codes, str_eq,
  Assoc, lookup, insert, map, ltb, if◌then◌else◌,
}
use mock_salesforce.Base.Int.{pos}
use mock_salesforce.Value.{Value, nil, str, int, bool, object, Record, no_fields, field}

pub record FieldMeta : Type 0 where
  pub name : Bytes
  pub label : Bytes
  pub kind : Bytes
  pub length : ℕ
  pub nillable : Bool
  pub updateable : Bool
  pub createable : Bool
  pub filterable : Bool
  pub sortable : Bool
  pub unique : Bool
  pub external_id : Bool
  pub reference_to : List Bytes

pub record ObjectMeta : Type 0 where
  pub name : Bytes
  pub label : Bytes
  pub label_plural : Bytes
  pub key_prefix : Bytes
  pub custom : Bool
  pub queryable : Bool
  pub createable : Bool
  pub updateable : Bool
  pub deletable : Bool
  pub retrieveable : Bool
  pub searchable : Bool
  pub custom_fields : List FieldMeta

abbrev pub blank_field : FieldMeta
blank_field = record {
  name = [];
  label = [];
  kind = [];
  length = 0;
  nillable = false;
  updateable = false;
  createable = false;
  filterable = false;
  sortable = false;
  unique = false;
  external_id = false;
  reference_to = [];
}

abbrev pub blank_object : ObjectMeta
blank_object = record {
  name = [];
  label = [];
  label_plural = [];
  key_prefix = [];
  custom = false;
  queryable = false;
  createable = false;
  updateable = false;
  deletable = false;
  retrieveable = false;
  searchable = false;
  custom_fields = [];
}

-- `commonFields`
abbrev pub common_fields : List FieldMeta
common_fields =
    record blank_field {
      name = codes "Id";
      label = codes "Record ID";
      kind = codes "id";
      length = 18;
      filterable = true;
      sortable = true;
      unique = true;
    }
    ∷ record blank_field {
      name = codes "CreatedDate";
      label = codes "Created Date";
      kind = codes "datetime";
      filterable = true;
      sortable = true;
    }
    ∷ record blank_field {
      name = codes "LastModifiedDate";
      label = codes "Last Modified Date";
      kind = codes "datetime";
      nillable = true;
      filterable = true;
      sortable = true;
    }
    ∷ []

unfoldable pub all_fields : ObjectMeta → List FieldMeta
all_fields m = common_fields ++ m.custom_fields

pub record Registry : Type 0 where
  pub registry : Assoc ObjectMeta
  pub names : List Bytes

unfoldable pub register : ObjectMeta → Registry → Registry
unfolding lookup insert
register m s = record {
  registry = insert m.name m s.registry;
  names = elim (lookup m.name s.registry) [ none ↦ s.names ++ (m.name ∷ []) | some _ ↦ s.names ];
}

-- `Get`
unfoldable pub get_meta : Bytes → Registry → Option ObjectMeta
unfolding lookup
get_meta name s = lookup name s.registry

-- `registry[n]`, which is the zero value for a missing key.
abbrev pub or_blank_object : Option ObjectMeta → ObjectMeta
or_blank_object none = blank_object
or_blank_object (some m) = m

-- `All`
unfoldable pub all_objects : Registry → List ObjectMeta
unfolding lookup
all_objects s = map (λ n. or_blank_object (lookup n s.registry)) s.names

unfoldable pub entity_record : ObjectMeta → Record
entity_record m = field (codes "Id") (str (m.name ++ codes "EntityDef")) (
    field (codes "QualifiedApiName") (str m.name) (
      field (codes "DeveloperName") (str m.name) (
        field (codes "MasterLabel") (str m.label) (
          field (codes "Label") (str m.label) (
            field (codes "KeyPrefix") (str m.key_prefix) (
              field (codes "PluralLabel") (str m.label_plural)
                (field (codes "IsCustomizable") (bool (not m.custom)) no_fields)))))))

-- `EntityDefinitionRecords`
unfoldable pub entity_definition_records : Registry → List Record
unfolding all_objects entity_record
entity_definition_records s = map entity_record (all_objects s)

unfoldable pub field_record : ObjectMeta → FieldMeta → Record
field_record m f = field (codes "Id") (str (m.name ++ codes "." ++ f.name)) (
    field (codes "QualifiedApiName") (str f.name) (
      field (codes "DeveloperName") (str f.name) (
        field (codes "Label") (str f.label) (
          field (codes "DataType") (str f.kind) (
            field (codes "Length") (if ltb 0 f.length then int (pos f.length) else nil) (
              field (codes "IsNillable") (bool f.nillable) (
                field (codes "EntityDefinitionId") (str (m.name ++ codes "EntityDef")) (
                  field (codes "EntityDefinition")
                    (object (
                      field (codes "QualifiedApiName") (str m.name) (
                        field (codes "DeveloperName") (str m.name) (
                          field (codes "Label") (str m.label)
                            (field (codes "KeyPrefix") (str m.key_prefix) no_fields)))))
                    no_fields))))))))

-- The two loops of `FieldDefinitionRecords`
unfoldable pub object_field_records : List ObjectMeta → List Record
unfolding all_fields field_record
object_field_records [] = []
object_field_records (m ∷ ms) = map (field_record m) (all_fields m) ++ object_field_records ms

unfoldable pub field_definition_records : Registry → List Record
unfolding all_objects object_field_records
field_definition_records s = object_field_records (all_objects s)

unfoldable pub is_virtual : Bytes → Bool
unfolding str_eq
is_virtual name = str_eq name (codes "EntityDefinition") || str_eq name (codes "FieldDefinition")
