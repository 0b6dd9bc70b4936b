-- ===== src/Schema/Builtin/Documents.antt =====
-- Built-in object types (internal/schema/builtin_extra.go).
use mock_salesforce.Base.{true, [], ◌∷◌, codes}
use mock_salesforce.Schema.{ObjectMeta, blank_field, blank_object}

abbrev pub content_document_meta : ObjectMeta
content_document_meta = record blank_object {
  name = codes "ContentDocument";
  label = codes "Content Document";
  label_plural = codes "Content Documents";
  key_prefix = codes "069";
  queryable = true;
  createable = true;
  updateable = true;
  deletable = true;
  retrieveable = true;
  searchable = true;
  custom_fields =
      record blank_field {
        name = codes "Title";
        label = codes "Title";
        kind = codes "string";
        length = 255;
        updateable = true;
        filterable = true;
        sortable = true;
      }
      ∷ record blank_field {
        name = codes "FileType";
        label = codes "File Type";
        kind = codes "string";
        length = 20;
        nillable = true;
        filterable = true;
        sortable = true;
      }
      ∷ record blank_field {
        name = codes "ContentSize";
        label = codes "Size";
        kind = codes "int";
        nillable = true;
        filterable = true;
        sortable = true;
      }
      ∷ record blank_field {
        name = codes "OwnerId";
        label = codes "Owner ID";
        kind = codes "reference";
        reference_to = codes "User" ∷ [];
        updateable = true;
        filterable = true;
        sortable = true;
      }
      ∷ [];
}

abbrev pub content_version_meta : ObjectMeta
content_version_meta = record blank_object {
  name = codes "ContentVersion";
  label = codes "Content Version";
  label_plural = codes "Content Versions";
  key_prefix = codes "068";
  queryable = true;
  createable = true;
  updateable = true;
  deletable = true;
  retrieveable = true;
  searchable = true;
  custom_fields =
      record blank_field {
        name = codes "ContentDocumentId";
        label = codes "Content Document ID";
        kind = codes "reference";
        reference_to = codes "ContentDocument" ∷ [];
        nillable = true;
        createable = true;
        filterable = true;
        sortable = true;
      }
      ∷ record blank_field {
        name = codes "Title";
        label = codes "Title";
        kind = codes "string";
        length = 255;
        updateable = true;
        createable = true;
        filterable = true;
        sortable = true;
      }
      ∷ record blank_field {
        name = codes "VersionNumber";
        label = codes "Version Number";
        kind = codes "string";
        length = 20;
        nillable = true;
        filterable = true;
        sortable = true;
      }
      ∷ record blank_field {
        name = codes "FileType";
        label = codes "File Type";
        kind = codes "string";
        length = 20;
        nillable = true;
        createable = true;
        filterable = true;
        sortable = true;
      }
      ∷ record blank_field {
        name = codes "ContentSize";
        label = codes "Size";
        kind = codes "int";
        nillable = true;
        filterable = true;
        sortable = true;
      }
      ∷ [];
}
