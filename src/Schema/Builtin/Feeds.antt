-- ===== src/Schema/Builtin/Feeds.antt =====
-- Built-in object types (internal/schema/builtin.go).
use mock_salesforce.Base.{true, [], ◌∷◌, codes}
use mock_salesforce.Schema.{ObjectMeta, blank_field, blank_object}

abbrev pub case_comment_meta : ObjectMeta
case_comment_meta = record blank_object {
  name = codes "CaseComment";
  label = codes "Case Comment";
  label_plural = codes "Case Comments";
  key_prefix = codes "00a";
  queryable = true;
  createable = true;
  updateable = true;
  deletable = true;
  retrieveable = true;
  searchable = true;
  custom_fields =
      record blank_field {
        name = codes "ParentId";
        label = codes "Parent ID";
        kind = codes "reference";
        reference_to = codes "Case" ∷ [];
        createable = true;
        filterable = true;
        sortable = true;
      }
      ∷ record blank_field {
        name = codes "CommentBody";
        label = codes "Body";
        kind = codes "textarea";
        length = 4000;
        nillable = true;
        updateable = true;
        createable = true;
      }
      ∷ record blank_field {
        name = codes "IsPublished";
        label = codes "Published";
        kind = codes "boolean";
        updateable = true;
        createable = true;
        filterable = true;
        sortable = true;
      }
      ∷ record blank_field {
        name = codes "CreatedById";
        label = codes "Created By ID";
        kind = codes "reference";
        reference_to = codes "User" ∷ [];
        filterable = true;
        sortable = true;
      }
      ∷ [];
}

abbrev pub feed_item_meta : ObjectMeta
feed_item_meta = record blank_object {
  name = codes "FeedItem";
  label = codes "Feed Item";
  label_plural = codes "Feed Items";
  key_prefix = codes "0D5";
  queryable = true;
  createable = true;
  updateable = true;
  deletable = true;
  retrieveable = true;
  searchable = true;
  custom_fields =
      record blank_field {
        name = codes "ParentId";
        label = codes "Parent ID";
        kind = codes "reference";
        reference_to = codes "Case" ∷ codes "Account" ∷ codes "Contact" ∷ codes "User" ∷ [];
        createable = true;
        filterable = true;
        sortable = true;
      }
      ∷ record blank_field {
        name = codes "Body";
        label = codes "Body";
        kind = codes "textarea";
        length = 10000;
        nillable = true;
        updateable = true;
        createable = true;
      }
      ∷ record blank_field {
        name = codes "Type";
        label = codes "Type";
        kind = codes "picklist";
        createable = true;
        filterable = true;
        sortable = true;
      }
      ∷ record blank_field {
        name = codes "CreatedById";
        label = codes "Created By ID";
        kind = codes "reference";
        reference_to = codes "User" ∷ [];
        filterable = true;
        sortable = true;
      }
      ∷ [];
}
