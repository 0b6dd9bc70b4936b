-- ===== src/Schema/Builtin/Work.antt =====
-- Built-in object types (internal/schema/builtin_extra.go).
use mock_salesforce.Base.{true, [], ◌∷◌, codes}
use mock_salesforce.Schema.{ObjectMeta, blank_field, blank_object}

abbrev pub feed_comment_meta : ObjectMeta
feed_comment_meta = record blank_object {
  name = codes "FeedComment";
  label = codes "Feed Comment";
  label_plural = codes "Feed Comments";
  key_prefix = codes "0D7";
  queryable = true;
  createable = true;
  updateable = true;
  deletable = true;
  retrieveable = true;
  searchable = true;
  custom_fields =
      record blank_field {
        name = codes "FeedItemId";
        label = codes "Feed Item ID";
        kind = codes "reference";
        reference_to = codes "FeedItem" ∷ [];
        createable = true;
        filterable = true;
        sortable = true;
      }
      ∷ record blank_field {
        name = codes "ParentId";
        label = codes "Parent ID";
        kind = codes "reference";
        reference_to = codes "Case" ∷ codes "Account" ∷ codes "Contact" ∷ codes "User" ∷ [];
        nillable = true;
        createable = true;
        filterable = true;
        sortable = true;
      }
      ∷ record blank_field {
        name = codes "CommentBody";
        label = codes "Comment Body";
        kind = codes "textarea";
        length = 5000;
        nillable = true;
        updateable = true;
        createable = true;
      }
      ∷ record blank_field {
        name = codes "CreatedById";
        label = codes "Created By ID";
        kind = codes "reference";
        reference_to = codes "User" ∷ [];
        filterable = true;
        sortable = true;
      }
      ∷ [];
}

abbrev pub task_meta : ObjectMeta
task_meta = record blank_object {
  name = codes "Task";
  label = codes "Task";
  label_plural = codes "Tasks";
  key_prefix = codes "00T";
  queryable = true;
  createable = true;
  updateable = true;
  deletable = true;
  retrieveable = true;
  searchable = true;
  custom_fields =
      record blank_field {
        name = codes "WhoId";
        label = codes "Name ID";
        kind = codes "reference";
        reference_to = codes "Contact" ∷ codes "Lead" ∷ [];
        nillable = true;
        updateable = true;
        createable = true;
        filterable = true;
        sortable = true;
      }
      ∷ record blank_field {
        name = codes "WhatId";
        label = codes "Related To ID";
        kind = codes "reference";
        reference_to = codes "Account" ∷ codes "Case" ∷ codes "Opportunity" ∷ [];
        nillable = true;
        updateable = true;
        createable = true;
        filterable = true;
        sortable = true;
      }
      ∷ record blank_field {
        name = codes "Subject";
        label = codes "Subject";
        kind = codes "string";
        length = 255;
        nillable = true;
        updateable = true;
        createable = true;
        filterable = true;
        sortable = true;
      }
      ∷ record blank_field {
        name = codes "ActivityDate";
        label = codes "Due Date";
        kind = codes "date";
        nillable = true;
        updateable = true;
        createable = true;
        filterable = true;
        sortable = true;
      }
      ∷ record blank_field {
        name = codes "Status";
        label = codes "Status";
        kind = codes "picklist";
        updateable = true;
        createable = true;
        filterable = true;
        sortable = true;
      }
      ∷ record blank_field {
        name = codes "Priority";
        label = codes "Priority";
        kind = codes "picklist";
        nillable = true;
        updateable = true;
        createable = true;
        filterable = true;
        sortable = true;
      }
      ∷ record blank_field {
        name = codes "OwnerId";
        label = codes "Owner ID";
        kind = codes "reference";
        reference_to = codes "User" ∷ codes "Group" ∷ [];
        updateable = true;
        createable = true;
        filterable = true;
        sortable = true;
      }
      ∷ record blank_field {
        name = codes "Description";
        label = codes "Description";
        kind = codes "textarea";
        length = 32000;
        nillable = true;
        updateable = true;
        createable = true;
      }
      ∷ [];
}

abbrev pub event_meta : ObjectMeta
event_meta = record blank_object {
  name = codes "Event";
  label = codes "Event";
  label_plural = codes "Events";
  key_prefix = codes "00U";
  queryable = true;
  createable = true;
  updateable = true;
  deletable = true;
  retrieveable = true;
  searchable = true;
  custom_fields =
      record blank_field {
        name = codes "WhoId";
        label = codes "Name ID";
        kind = codes "reference";
        reference_to = codes "Contact" ∷ codes "Lead" ∷ [];
        nillable = true;
        updateable = true;
        createable = true;
        filterable = true;
        sortable = true;
      }
      ∷ record blank_field {
        name = codes "WhatId";
        label = codes "Related To ID";
        kind = codes "reference";
        reference_to = codes "Account" ∷ codes "Case" ∷ codes "Opportunity" ∷ [];
        nillable = true;
        updateable = true;
        createable = true;
        filterable = true;
        sortable = true;
      }
      ∷ record blank_field {
        name = codes "Subject";
        label = codes "Subject";
        kind = codes "string";
        length = 255;
        nillable = true;
        updateable = true;
        createable = true;
        filterable = true;
        sortable = true;
      }
      ∷ record blank_field {
        name = codes "ActivityDateTime";
        label = codes "Start";
        kind = codes "datetime";
        nillable = true;
        updateable = true;
        createable = true;
        filterable = true;
        sortable = true;
      }
      ∷ record blank_field {
        name = codes "DurationInMinutes";
        label = codes "Duration";
        kind = codes "int";
        nillable = true;
        updateable = true;
        createable = true;
        filterable = true;
        sortable = true;
      }
      ∷ record blank_field {
        name = codes "Location";
        label = codes "Location";
        kind = codes "string";
        length = 255;
        nillable = true;
        updateable = true;
        createable = true;
        filterable = true;
        sortable = true;
      }
      ∷ record blank_field {
        name = codes "OwnerId";
        label = codes "Owner ID";
        kind = codes "reference";
        reference_to = codes "User" ∷ codes "Group" ∷ [];
        updateable = true;
        createable = true;
        filterable = true;
        sortable = true;
      }
      ∷ record blank_field {
        name = codes "Description";
        label = codes "Description";
        kind = codes "textarea";
        length = 32000;
        nillable = true;
        updateable = true;
        createable = true;
      }
      ∷ [];
}
