-- ===== src/Schema/Builtin/Definitions.antt =====
-- Built-in object types (internal/schema/builtin_extra.go).
use mock_salesforce.Base.{true, [], ◌∷◌, codes}
use mock_salesforce.Schema.{ObjectMeta, blank_field, blank_object}

abbrev pub entity_definition_meta : ObjectMeta
entity_definition_meta = record blank_object {
  name = codes "EntityDefinition";
  label = codes "Entity Definition";
  label_plural = codes "Entity Definitions";
  key_prefix = codes "000";
  queryable = true;
  retrieveable = true;
  custom_fields =
      record blank_field {
        name = codes "QualifiedApiName";
        label = codes "Qualified API Name";
        kind = codes "string";
        length = 240;
        filterable = true;
        sortable = true;
      }
      ∷ record blank_field {
        name = codes "DeveloperName";
        label = codes "Object Name";
        kind = codes "string";
        length = 240;
        filterable = true;
        sortable = true;
      }
      ∷ record blank_field {
        name = codes "MasterLabel";
        label = codes "Master Label";
        kind = codes "string";
        length = 240;
        filterable = true;
        sortable = true;
      }
      ∷ record blank_field {
        name = codes "Label";
        label = codes "Label";
        kind = codes "string";
        length = 240;
        filterable = true;
        sortable = true;
      }
      ∷ record blank_field {
        name = codes "KeyPrefix";
        label = codes "Key Prefix";
        kind = codes "string";
        length = 3;
        nillable = true;
        filterable = true;
        sortable = true;
      }
      ∷ record blank_field {
        name = codes "PluralLabel";
        label = codes "Plural Label";
        kind = codes "string";
        length = 240;
        filterable = true;
        sortable = true;
      }
      ∷ record blank_field {
        name = codes "IsCustomizable";
        label = codes "Customizable";
        kind = codes "boolean";
        filterable = true;
        sortable = true;
      }
      ∷ [];
}

abbrev pub field_definition_meta : ObjectMeta
field_definition_meta = record blank_object {
  name = codes "FieldDefinition";
  label = codes "Field Definition";
  label_plural = codes "Field Definitions";
  key_prefix = codes "000";
  queryable = true;
  retrieveable = true;
  custom_fields =
      record blank_field {
        name = codes "QualifiedApiName";
        label = codes "Qualified API Name";
        kind = codes "string";
        length = 240;
        filterable = true;
        sortable = true;
      }
      ∷ record blank_field {
        name = codes "DeveloperName";
        label = codes "Field Name";
        kind = codes "string";
        length = 240;
        filterable = true;
        sortable = true;
      }
      ∷ record blank_field {
        name = codes "Label";
        label = codes "Label";
        kind = codes "string";
        length = 240;
        filterable = true;
        sortable = true;
      }
      ∷ record blank_field {
        name = codes "DataType";
        label = codes "Data Type";
        kind = codes "string";
        length = 60;
        filterable = true;
        sortable = true;
      }
      ∷ record blank_field {
        name = codes "Length";
        label = codes "Length";
        kind = codes "int";
        nillable = true;
        filterable = true;
        sortable = true;
      }
      ∷ record blank_field {
        name = codes "IsNillable";
        label = codes "Nillable";
        kind = codes "boolean";
        filterable = true;
        sortable = true;
      }
      ∷ record blank_field {
        name = codes "EntityDefinitionId";
        label = codes "Entity Definition ID";
        kind = codes "string";
        length = 240;
        filterable = true;
        sortable = true;
      }
      ∷ [];
}
