-- ===== src/Rest/Describe/Cases.antt =====
-- Descriptions of object types (the table in `getObjectMetadata` of internal/handlers/sobject.go).
use mock_salesforce.Base.{true, false, [], ◌∷◌, codes}
use mock_salesforce.Rest.Describe.Fields.{LegacyMeta, custom_field, with_length, with_references}

unfoldable pub described_case : LegacyMeta
unfolding custom_field with_length with_references
described_case = record {
  label = codes "Case";
  label_plural = codes "Cases";
  key_prefix = codes "500";
  custom_fields =
      with_length 30 (
        custom_field (codes "CaseNumber") (codes "Case Number") (codes "string") false false false
          true true)
      ∷ with_length 255 (
          custom_field (codes "Subject") (codes "Subject") (codes "string") true true true true
            true)
      ∷ custom_field (codes "Status") (codes "Status") (codes "picklist") false true true true true
      ∷ custom_field (codes "Priority") (codes "Priority") (codes "picklist") true true true true
          true
      ∷ with_length 32000 (
          custom_field (codes "Description") (codes "Description") (codes "textarea") true true true
            false false)
      ∷ with_references (codes "Account" ∷ []) (
          custom_field (codes "AccountId") (codes "Account ID") (codes "reference") true true true
            true true)
      ∷ with_references (codes "Contact" ∷ []) (
          custom_field (codes "ContactId") (codes "Contact ID") (codes "reference") true true true
            true true)
      ∷ with_references (codes "User" ∷ codes "Group" ∷ []) (
          custom_field (codes "OwnerId") (codes "Owner ID") (codes "reference") false true true true
            true)
      ∷ [];
}

unfoldable pub described_email_message : LegacyMeta
unfolding custom_field with_length with_references
described_email_message = record {
  label = codes "Email Message";
  label_plural = codes "Email Messages";
  key_prefix = codes "02s";
  custom_fields =
      with_references (codes "Case" ∷ []) (
        custom_field (codes "ParentId") (codes "Parent ID") (codes "reference") true true true true
          true)
      ∷ with_length 3000 (
          custom_field (codes "Subject") (codes "Subject") (codes "string") true true true true
            true)
      ∷ with_length 32000 (
          custom_field (codes "TextBody") (codes "Text Body") (codes "textarea") true true true
            false false)
      ∷ with_length 32000 (
          custom_field (codes "HtmlBody") (codes "HTML Body") (codes "textarea") true true true
            false false)
      ∷ custom_field (codes "FromAddress") (codes "From Address") (codes "email") true true true
          true true
      ∷ custom_field (codes "ToAddress") (codes "To Address") (codes "email") true true true true
          true
      ∷ custom_field (codes "MessageDate") (codes "Message Date") (codes "datetime") true true true
          true true
      ∷ custom_field (codes "Incoming") (codes "Is Incoming") (codes "boolean") false true true true
          true
      ∷ [];
}

unfoldable pub described_case_comment : LegacyMeta
unfolding custom_field with_length with_references
described_case_comment = record {
  label = codes "Case Comment";
  label_plural = codes "Case Comments";
  key_prefix = codes "00a";
  custom_fields =
      with_references (codes "Case" ∷ []) (
        custom_field (codes "ParentId") (codes "Parent ID") (codes "reference") false false true
          true true)
      ∷ with_length 4000 (
          custom_field (codes "CommentBody") (codes "Body") (codes "textarea") true true true false
            false)
      ∷ custom_field (codes "IsPublished") (codes "Published") (codes "boolean") false true true
          true true
      ∷ with_references (codes "User" ∷ []) (
          custom_field (codes "CreatedById") (codes "Created By ID") (codes "reference") false false
            false true true)
      ∷ [];
}
