-- ===== src/Schema/Builtin/Cases.antt =====
-- Built-in object types (internal/schema/builtin.go).
use mock_salesforce.Base.{true, [], ◌∷◌, codes}
use mock_salesforce.Schema.{ObjectMeta, blank_field, blank_object}

abbrev pub case_meta : ObjectMeta
case_meta = record blank_object {
  name = codes "Case";
  label = codes "Case";
  label_plural = codes "Cases";
  key_prefix = codes "500";
  queryable = true;
  createable = true;
  updateable = true;
  deletable = true;
  retrieveable = true;
  searchable = true;
  custom_fields =
      record blank_field {
        name = codes "CaseNumber";
        label = codes "Case Number";
        kind = codes "string";
        length = 30;
        filterable = true;
        sortable = true;
      }
      ∷ record blank_field {
        name = codes "Subject";
        label = codes "Subject";
        kind = codes "string";
        length = 255;
        nillable = true;
        updateable = true;
        createable = true;
        filterable = true;
        sortable = true;
      }
      ∷ record blank_field {
        name = codes "Status";
        label = codes "Status";
        kind = codes "picklist";
        updateable = true;
        createable = true;
        filterable = true;
        sortable = true;
      }
      ∷ record blank_field {
        name = codes "Priority";
        label = codes "Priority";
        kind = codes "picklist";
        nillable = true;
        updateable = true;
        createable = true;
        filterable = true;
        sortable = true;
      }
      ∷ record blank_field {
        name = codes "Description";
        label = codes "Description";
        kind = codes "textarea";
        length = 32000;
        nillable = true;
        updateable = true;
        createable = true;
      }
      ∷ record blank_field {
        name = codes "AccountId";
        label = codes "Account ID";
        kind = codes "reference";
        reference_to = codes "Account" ∷ [];
        nillable = true;
        updateable = true;
        createable = true;
        filterable = true;
        sortable = true;
      }
      ∷ record blank_field {
        name = codes "ContactId";
        label = codes "Contact ID";
        kind = codes "reference";
        reference_to = codes "Contact" ∷ [];
        nillable = true;
        updateable = true;
        createable = true;
        filterable = true;
        sortable = true;
      }
      ∷ record blank_field {
        name = codes "OwnerId";
        label = codes "Owner ID";
        kind = codes "reference";
        reference_to = codes "User" ∷ codes "Group" ∷ [];
        updateable = true;
        createable = true;
        filterable = true;
        sortable = true;
      }
      ∷ [];
}

abbrev pub email_message_meta : ObjectMeta
email_message_meta = record blank_object {
  name = codes "EmailMessage";
  label = codes "Email Message";
  label_plural = codes "Email Messages";
  key_prefix = codes "02s";
  queryable = true;
  createable = true;
  updateable = true;
  deletable = true;
  retrieveable = true;
  searchable = true;
  custom_fields =
      record blank_field {
        name = codes "ParentId";
        label = codes "Parent ID";
        kind = codes "reference";
        reference_to = codes "Case" ∷ [];
        nillable = true;
        updateable = true;
        createable = true;
        filterable = true;
        sortable = true;
      }
      ∷ record blank_field {
        name = codes "Subject";
        label = codes "Subject";
        kind = codes "string";
        length = 3000;
        nillable = true;
        updateable = true;
        createable = true;
        filterable = true;
        sortable = true;
      }
      ∷ record blank_field {
        name = codes "TextBody";
        label = codes "Text Body";
        kind = codes "textarea";
        length = 32000;
        nillable = true;
        updateable = true;
        createable = true;
      }
      ∷ record blank_field {
        name = codes "HtmlBody";
        label = codes "HTML Body";
        kind = codes "textarea";
        length = 32000;
        nillable = true;
        updateable = true;
        createable = true;
      }
      ∷ record blank_field {
        name = codes "FromAddress";
        label = codes "From Address";
        kind = codes "email";
        nillable = true;
        updateable = true;
        createable = true;
        filterable = true;
        sortable = true;
      }
      ∷ record blank_field {
        name = codes "ToAddress";
        label = codes "To Address";
        kind = codes "email";
        nillable = true;
        updateable = true;
        createable = true;
        filterable = true;
        sortable = true;
      }
      ∷ record blank_field {
        name = codes "MessageDate";
        label = codes "Message Date";
        kind = codes "datetime";
        nillable = true;
        updateable = true;
        createable = true;
        filterable = true;
        sortable = true;
      }
      ∷ record blank_field {
        name = codes "Incoming";
        label = codes "Is Incoming";
        kind = codes "boolean";
        updateable = true;
        createable = true;
        filterable = true;
        sortable = true;
      }
      ∷ [];
}
