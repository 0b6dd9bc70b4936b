-- ===== src/Store/Types.antt =====
-- The store's state, records and ids (internal/store/memory.go).
use mock_salesforce.Base.{
  ℕ, ◌+◌, ◌-◌, Option, none, some, List, [], ◌∷◌, ◌++◌, Bytes, codes, Assoc, lookup, length, take,
  ltb, if◌then◌else◌,
}
use Prim.Native.Nat.{◌/◌, ◌%◌}
use mock_salesforce.Value.{Value, str, object, Record, Fields, no_fields, field}

pub data StoreError : Type 0 where
  not_found invalid_object : StoreError

pub data Result {ℓ} (A : Type ℓ) : Type ℓ where
  ok : A → Result A
  err : StoreError → Result A

-- data: objectType -> id -> record; indexes: objectType -> field -> value -> ids
pub record MemoryStore : Type 0 where
  pub records : Assoc (Assoc Record)
  pub indexes : Assoc (Assoc (Assoc (List Bytes)))
  pub indexed_fields : Assoc (List Bytes)

abbrev pub default_indexed_fields : Assoc (List Bytes)
default_indexed_fields =
    (codes "EmailMessage", codes "ParentId" ∷ [])
    ∷ (codes "CaseComment", codes "ParentId" ∷ [])
    ∷ (codes "FeedItem", codes "ParentId" ∷ [])
    ∷ (codes "FeedComment", codes "FeedItemId" ∷ codes "ParentId" ∷ [])
    ∷ (codes "Task", codes "WhoId" ∷ codes "WhatId" ∷ [])
    ∷ (codes "Event", codes "WhoId" ∷ codes "WhatId" ∷ [])
    ∷ (codes "ContentVersion", codes "ContentDocumentId" ∷ [])
    ∷ (codes "Contact", codes "AccountId" ∷ [])
    ∷ (codes "Case", codes "AccountId" ∷ [])
    ∷ []

abbrev pub new_memory_store : MemoryStore
new_memory_store = record { records = []; indexes = []; indexed_fields = default_indexed_fields }

-- A missing inner map reads as an empty one.
abbrev pub or_empty {ℓ} : {A : Type ℓ} → Option (List A) → List A
or_empty none = []
or_empty (some m) = m

-- `v.(string)`, with "" for any other value.
abbrev pub as_string : Value → Bytes
as_string (str s) = s
as_string _ = []

unfoldable mutual
  pub copy_record : Fields → Fields
  copy_record no_fields = no_fields
  copy_record (field k v r) = field k (copy_value v) (copy_record r)

  pub copy_value : Value → Value
  copy_value (object r) = object (copy_record r)
  copy_value v = v

-- hex.EncodeToString
abbrev hex_digit : ℕ → ℕ
hex_digit d = if ltb d 10 then b'0' + d else b'a' + (d - 10)

unfoldable pub hex : Bytes → Bytes
hex [] = []
hex (b ∷ s) = hex_digit (b / 16) ∷ hex_digit (b % 16) ∷ hex s

abbrev id_prefixes : Assoc Bytes
id_prefixes =
    (codes "Account", codes "001")
    ∷ (codes "Contact", codes "003")
    ∷ (codes "Case", codes "500")
    ∷ (codes "User", codes "005")
    ∷ (codes "CaseComment", codes "00a")
    ∷ (codes "EmailMessage", codes "02s")
    ∷ (codes "FeedItem", codes "0D5")
    ∷ (codes "FeedComment", codes "0D7")
    ∷ (codes "Task", codes "00T")
    ∷ (codes "Event", codes "00U")
    ∷ (codes "ContentDocument", codes "069")
    ∷ (codes "ContentVersion", codes "068")
    ∷ []

unfoldable pub get_id_prefix : Bytes → Bytes
unfolding lookup
get_id_prefix t = elim (lookup t id_prefixes) [ some prefix ↦ prefix | none ↦ codes "000" ]

-- `random` are the seven bytes that rand.Read gives.
unfoldable pub generate_id : Bytes → Bytes → Bytes
unfolding get_id_prefix hex
generate_id random t =
    let prefix = get_id_prefix t in
    prefix ++ (take (15 - length prefix) (hex random) ++ codes "AAA")
