-- ===== src/Rest/Describe/Feeds.antt =====
-- Descriptions of object types (the table in `getObjectMetadata` of internal/handlers/sobject.go).
use mock_salesforce.Base.{true, false, [], ◌∷◌, codes}
use mock_salesforce.Rest.Describe.Fields.{LegacyMeta, custom_field, with_length, with_references}

unfoldable pub described_feed_item : LegacyMeta
unfolding custom_field with_length with_references
described_feed_item = record {
  label = codes "Feed Item";
  label_plural = codes "Feed Items";
  key_prefix = codes "0D5";
  custom_fields =
      with_references (codes "Case" ∷ codes "Account" ∷ codes "Contact" ∷ codes "User" ∷ []) (
        custom_field (codes "ParentId") (codes "Parent ID") (codes "reference") false false true
          true true)
      ∷ with_length 10000
          (custom_field (codes "Body") (codes "Body") (codes "textarea") true true true false false)
      ∷ custom_field (codes "Type") (codes "Type") (codes "picklist") false false true true true
      ∷ with_references (codes "User" ∷ []) (
          custom_field (codes "CreatedById") (codes "Created By ID") (codes "reference") false false
            false true true)
      ∷ [];
}

unfoldable pub described_feed_comment : LegacyMeta
unfolding custom_field with_length with_references
described_feed_comment = record {
  label = codes "Feed Comment";
  label_plural = codes "Feed Comments";
  key_prefix = codes "0D7";
  custom_fields =
      with_references (codes "FeedItem" ∷ []) (
        custom_field (codes "FeedItemId") (codes "Feed Item ID") (codes "reference") false false
          true true true)
      ∷ with_references (codes "Case" ∷ codes "Account" ∷ codes "Contact" ∷ codes "User" ∷ []) (
          custom_field (codes "ParentId") (codes "Parent ID") (codes "reference") true false true
            true true)
      ∷ with_length 5000 (
          custom_field (codes "CommentBody") (codes "Comment Body") (codes "textarea") true true
            true false false)
      ∷ with_references (codes "User" ∷ []) (
          custom_field (codes "CreatedById") (codes "Created By ID") (codes "reference") false false
            false true true)
      ∷ [];
}

unfoldable pub described_content_document : LegacyMeta
unfolding custom_field with_length with_references
described_content_document = record {
  label = codes "Content Document";
  label_plural = codes "Content Documents";
  key_prefix = codes "069";
  custom_fields =
      with_length 255
        (custom_field (codes "Title") (codes "Title") (codes "string") false true false true true)
      ∷ with_length 20 (
          custom_field (codes "FileType") (codes "File Type") (codes "string") true false false true
            true)
      ∷ custom_field (codes "ContentSize") (codes "Size") (codes "int") true false false true true
      ∷ with_references (codes "User" ∷ []) (
          custom_field (codes "OwnerId") (codes "Owner ID") (codes "reference") false true false
            true true)
      ∷ [];
}

unfoldable pub described_content_version : LegacyMeta
unfolding custom_field with_length with_references
described_content_version = record {
  label = codes "Content Version";
  label_plural = codes "Content Versions";
  key_prefix = codes "068";
  custom_fields =
      with_references (codes "ContentDocument" ∷ []) (
        custom_field (codes "ContentDocumentId") (codes "Content Document ID") (codes "reference")
          true false true true true)
      ∷ with_length 255
          (custom_field (codes "Title") (codes "Title") (codes "string") false true true true true)
      ∷ with_length 20 (
          custom_field (codes "VersionNumber") (codes "Version Number") (codes "string") true false
            false true true)
      ∷ with_length 20 (
          custom_field (codes "FileType") (codes "File Type") (codes "string") true false true true
            true)
      ∷ custom_field (codes "ContentSize") (codes "Size") (codes "int") true false false true true
      ∷ [];
}
