-- ===== src/Rest/Describe/People.antt =====
-- Descriptions of object types (the table in `getObjectMetadata` of internal/handlers/sobject.go).
use mock_salesforce.Base.{true, false, [], ◌∷◌, codes}
use mock_salesforce.Rest.Describe.Fields.{LegacyMeta, custom_field, with_length, with_references}

unfoldable pub described_account : LegacyMeta
unfolding custom_field with_length with_references
described_account = record {
  label = codes "Account";
  label_plural = codes "Accounts";
  key_prefix = codes "001";
  custom_fields =
      with_length 255 (
        custom_field (codes "Name") (codes "Account Name") (codes "string") false true true true
          true)
      ∷ custom_field (codes "Industry") (codes "Industry") (codes "picklist") true true true true
          true
      ∷ custom_field (codes "Type") (codes "Account Type") (codes "picklist") true true true true
          true
      ∷ custom_field (codes "Website") (codes "Website") (codes "url") true true true true true
      ∷ custom_field (codes "Phone") (codes "Phone") (codes "phone") true true true true true
      ∷ [];
}

unfoldable pub described_contact : LegacyMeta
unfolding custom_field with_length with_references
described_contact = record {
  label = codes "Contact";
  label_plural = codes "Contacts";
  key_prefix = codes "003";
  custom_fields =
      with_length 40 (
        custom_field (codes "FirstName") (codes "First Name") (codes "string") true true true true
          true)
      ∷ with_length 80 (
          custom_field (codes "LastName") (codes "Last Name") (codes "string") false true true true
            true)
      ∷ custom_field (codes "Email") (codes "Email") (codes "email") true true true true true
      ∷ custom_field (codes "Phone") (codes "Phone") (codes "phone") true true true true true
      ∷ with_references (codes "Account" ∷ []) (
          custom_field (codes "AccountId") (codes "Account ID") (codes "reference") true true true
            true true)
      ∷ [];
}

unfoldable pub described_user : LegacyMeta
unfolding custom_field with_length with_references
described_user = record {
  label = codes "User";
  label_plural = codes "Users";
  key_prefix = codes "005";
  custom_fields =
      with_length 255 (
        custom_field (codes "Name") (codes "Full Name") (codes "string") false false false true
          true)
      ∷ with_length 40 (
          custom_field (codes "FirstName") (codes "First Name") (codes "string") true true true true
            true)
      ∷ with_length 80 (
          custom_field (codes "LastName") (codes "Last Name") (codes "string") false true true true
            true)
      ∷ custom_field (codes "Email") (codes "Email") (codes "email") false true true true true
      ∷ with_length 80 (
          custom_field (codes "Username") (codes "Username") (codes "string") false true true true
            true)
      ∷ custom_field (codes "IsActive") (codes "Active") (codes "boolean") false true true true true
      ∷ [];
}
