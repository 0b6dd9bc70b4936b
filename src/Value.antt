-- ===== src/Value.antt =====
-- Go's `any` as the records and the query literals use it, and records (`map[string]any`,
-- internal/store/store.go). A `float64` is its IEEE bit pattern, as a number; a `DateLiteral`
-- (internal/soql/date_literal.go) occurs as a literal only.
pub mod Access
use mock_salesforce.Base.{ℕ, Bool, Bytes}
use mock_salesforce.Base.Int.{ℤ}

pub record DateLiteral : Type 0 where
  pub name : Bytes
  pub n : ℕ

mutual
  pub data Value : Type 0 where
    nil : Value
    str : Bytes → Value
    int : ℤ → Value
    float : ℕ → Value
    bool : Bool → Value
    date : DateLiteral → Value
    object : Fields → Value
    array : Items → Value

  -- A `map[string]any`.
  pub data Fields : Type 0 where
    no_fields : Fields
    field : Bytes → Value → Fields → Fields

  -- A `[]any`.
  pub data Items : Type 0 where
    no_items : Items
    item : Value → Items → Items

abbrev pub Record : Type 0
Record = Fields
