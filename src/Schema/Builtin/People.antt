-- ===== src/Schema/Builtin/People.antt =====
-- Built-in object types (internal/schema/builtin.go).
use mock_salesforce.Base.{true, [], ◌∷◌, codes}
use mock_salesforce.Schema.{ObjectMeta, blank_field, blank_object}

abbrev pub account_meta : ObjectMeta
account_meta = record blank_object {
  name = codes "Account";
  label = codes "Account";
  label_plural = codes "Accounts";
  key_prefix = codes "001";
  queryable = true;
  createable = true;
  updateable = true;
  deletable = true;
  retrieveable = true;
  searchable = true;
  custom_fields =
      record blank_field {
        name = codes "Name";
        label = codes "Account Name";
        kind = codes "string";
        length = 255;
        updateable = true;
        createable = true;
        filterable = true;
        sortable = true;
      }
      ∷ record blank_field {
        name = codes "Industry";
        label = codes "Industry";
        kind = codes "picklist";
        nillable = true;
        updateable = true;
        createable = true;
        filterable = true;
        sortable = true;
      }
      ∷ record blank_field {
        name = codes "Type";
        label = codes "Account Type";
        kind = codes "picklist";
        nillable = true;
        updateable = true;
        createable = true;
        filterable = true;
        sortable = true;
      }
      ∷ record blank_field {
        name = codes "Website";
        label = codes "Website";
        kind = codes "url";
        nillable = true;
        updateable = true;
        createable = true;
        filterable = true;
        sortable = true;
      }
      ∷ record blank_field {
        name = codes "Phone";
        label = codes "Phone";
        kind = codes "phone";
        nillable = true;
        updateable = true;
        createable = true;
        filterable = true;
        sortable = true;
      }
      ∷ [];
}

abbrev pub contact_meta : ObjectMeta
contact_meta = record blank_object {
  name = codes "Contact";
  label = codes "Contact";
  label_plural = codes "Contacts";
  key_prefix = codes "003";
  queryable = true;
  createable = true;
  updateable = true;
  deletable = true;
  retrieveable = true;
  searchable = true;
  custom_fields =
      record blank_field {
        name = codes "FirstName";
        label = codes "First Name";
        kind = codes "string";
        length = 40;
        nillable = true;
        updateable = true;
        createable = true;
        filterable = true;
        sortable = true;
      }
      ∷ record blank_field {
        name = codes "LastName";
        label = codes "Last Name";
        kind = codes "string";
        length = 80;
        updateable = true;
        createable = true;
        filterable = true;
        sortable = true;
      }
      ∷ record blank_field {
        name = codes "Email";
        label = codes "Email";
        kind = codes "email";
        nillable = true;
        updateable = true;
        createable = true;
        filterable = true;
        sortable = true;
      }
      ∷ record blank_field {
        name = codes "Phone";
        label = codes "Phone";
        kind = codes "phone";
        nillable = true;
        updateable = true;
        createable = true;
        filterable = true;
        sortable = true;
      }
      ∷ record blank_field {
        name = codes "AccountId";
        label = codes "Account ID";
        kind = codes "reference";
        reference_to = codes "Account" ∷ [];
        nillable = true;
        updateable = true;
        createable = true;
        filterable = true;
        sortable = true;
      }
      ∷ [];
}

abbrev pub user_meta : ObjectMeta
user_meta = record blank_object {
  name = codes "User";
  label = codes "User";
  label_plural = codes "Users";
  key_prefix = codes "005";
  queryable = true;
  createable = true;
  updateable = true;
  deletable = true;
  retrieveable = true;
  searchable = true;
  custom_fields =
      record blank_field {
        name = codes "Name";
        label = codes "Full Name";
        kind = codes "string";
        length = 255;
        filterable = true;
        sortable = true;
      }
      ∷ record blank_field {
        name = codes "FirstName";
        label = codes "First Name";
        kind = codes "string";
        length = 40;
        nillable = true;
        updateable = true;
        createable = true;
        filterable = true;
        sortable = true;
      }
      ∷ record blank_field {
        name = codes "LastName";
        label = codes "Last Name";
        kind = codes "string";
        length = 80;
        updateable = true;
        createable = true;
        filterable = true;
        sortable = true;
      }
      ∷ record blank_field {
        name = codes "Email";
        label = codes "Email";
        kind = codes "email";
        updateable = true;
        createable = true;
        filterable = true;
        sortable = true;
      }
      ∷ record blank_field {
        name = codes "Username";
        label = codes "Username";
        kind = codes "string";
        length = 80;
        updateable = true;
        createable = true;
        filterable = true;
        sortable = true;
      }
      ∷ record blank_field {
        name = codes "IsActive";
        label = codes "Active";
        kind = codes "boolean";
        updateable = true;
        createable = true;
        filterable = true;
        sortable = true;
      }
      ∷ [];
}
