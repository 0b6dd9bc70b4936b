-- ===== src/Schema/Builtin.antt =====
-- The built-in object types and their registration (internal/schema/builtin.go, builtin_extra.go).
mod People
mod Cases
mod Feeds
mod Work
mod Documents
mod Definitions
use mock_salesforce.Base.{List, [], ◌∷◌}
use mock_salesforce.Schema.{ObjectMeta, Registry}
use mock_salesforce.Schema.Naming.{registered, empty_registry}
use mock_salesforce.Schema.Builtin.People.{account_meta, contact_meta, user_meta}
use mock_salesforce.Schema.Builtin.Cases.{case_meta, email_message_meta}
use mock_salesforce.Schema.Builtin.Feeds.{case_comment_meta, feed_item_meta}
use mock_salesforce.Schema.Builtin.Work.{feed_comment_meta, task_meta, event_meta}
use mock_salesforce.Schema.Builtin.Documents.{content_document_meta, content_version_meta}
use mock_salesforce.Schema.Builtin.Definitions.{entity_definition_meta, field_definition_meta}

-- `builtinObjects`
abbrev pub builtin_objects : List ObjectMeta
builtin_objects =
    account_meta ∷ contact_meta ∷ user_meta ∷ case_meta ∷ email_message_meta ∷ case_comment_meta
    ∷ feed_item_meta ∷ feed_comment_meta ∷ task_meta ∷ event_meta ∷ content_document_meta
    ∷ content_version_meta ∷ entity_definition_meta ∷ field_definition_meta ∷ []

-- The registry after `init`.
abbrev pub builtin_registry : Registry
builtin_registry = registered builtin_objects empty_registry
