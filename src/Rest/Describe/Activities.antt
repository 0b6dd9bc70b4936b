-- ===== src/Rest/Describe/Activities.antt =====
-- Descriptions of object types (the table in `getObjectMetadata` of internal/handlers/sobject.go).
use mock_salesforce.Base.{true, false, [], ◌∷◌, codes}
use mock_salesforce.Rest.Describe.Fields.{LegacyMeta, custom_field, with_length, with_references}

unfoldable pub described_task : LegacyMeta
unfolding custom_field with_length with_references
described_task = record {
  label = codes "Task";
  label_plural = codes "Tasks";
  key_prefix = codes "00T";
  custom_fields =
      with_references (codes "Contact" ∷ codes "Lead" ∷ []) (
        custom_field (codes "WhoId") (codes "Name ID") (codes "reference") true true true true true)
      ∷ with_references (codes "Account" ∷ codes "Case" ∷ codes "Opportunity" ∷ []) (
          custom_field (codes "WhatId") (codes "Related To ID") (codes "reference") true true true
            true true)
      ∷ with_length 255 (
          custom_field (codes "Subject") (codes "Subject") (codes "string") true true true true
            true)
      ∷ custom_field (codes "ActivityDate") (codes "Due Date") (codes "date") true true true true
          true
      ∷ custom_field (codes "Status") (codes "Status") (codes "picklist") false true true true true
      ∷ custom_field (codes "Priority") (codes "Priority") (codes "picklist") true true true true
          true
      ∷ with_references (codes "User" ∷ codes "Group" ∷ []) (
          custom_field (codes "OwnerId") (codes "Owner ID") (codes "reference") false true true true
            true)
      ∷ with_length 32000 (
          custom_field (codes "Description") (codes "Description") (codes "textarea") true true true
            false false)
      ∷ [];
}

unfoldable pub described_event : LegacyMeta
unfolding custom_field with_length with_references
described_event = record {
  label = codes "Event";
  label_plural = codes "Events";
  key_prefix = codes "00U";
  custom_fields =
      with_references (codes "Contact" ∷ codes "Lead" ∷ []) (
        custom_field (codes "WhoId") (codes "Name ID") (codes "reference") true true true true true)
      ∷ with_references (codes "Account" ∷ codes "Case" ∷ codes "Opportunity" ∷ []) (
          custom_field (codes "WhatId") (codes "Related To ID") (codes "reference") true true true
            true true)
      ∷ with_length 255 (
          custom_field (codes "Subject") (codes "Subject") (codes "string") true true true true
            true)
      ∷ custom_field (codes "ActivityDateTime") (codes "Start") (codes "datetime") true true true
          true true
      ∷ custom_field (codes "DurationInMinutes") (codes "Duration") (codes "int") true true true
          true true
      ∷ with_length 255 (
          custom_field (codes "Location") (codes "Location") (codes "string") true true true true
            true)
      ∷ with_references (codes "User" ∷ codes "Group" ∷ []) (
          custom_field (codes "OwnerId") (codes "Owner ID") (codes "reference") false true true true
            true)
      ∷ with_length 32000 (
          custom_field (codes "Description") (codes "Description") (codes "textarea") true true true
            false false)
      ∷ [];
}
