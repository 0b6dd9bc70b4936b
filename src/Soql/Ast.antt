-- ===== src/Soql/Ast.antt =====
-- The syntax of queries (internal/soql/ast.go). A pointer that may be nil is an `Option`.
use mock_salesforce.Base.{Bool, Option, List, ◌++◌, Bytes, codes, is_empty, if◌then◌else◌}
use mock_salesforce.Base.Int.{ℤ}
use mock_salesforce.Value.{Value}

pub record Field : Type 0 where
  pub name : Bytes
  pub relation : Bytes
  pub alias : Bytes
  pub aggregate : Bytes

unfoldable pub full_name : Field → Bytes
unfolding is_empty
full_name f = if is_empty f.relation then f.name else f.relation ++ codes "." ++ f.name

unfoldable pub aggregate_key : Field → Bytes
unfolding full_name
aggregate_key f =
    if is_empty f.aggregate then codes "" else f.aggregate ++ codes "(" ++ full_name f ++ codes ")"

-- The interface `Condition` and the four types that implement it.
pub data Condition : Type 0 where
  comparison : Field → Bytes → Value → Condition
  in_list : Field → List Value → Bool → Condition
  logical : Bytes → Condition → Condition → Condition
  negation : Condition → Condition

pub record WhereClause : Type 0 where
  pub condition : Condition

pub record OrderByField : Type 0 where
  pub field : Field
  pub descending : Bool
  pub nulls_first : Option Bool

pub record SubQuery : Type 0 where
  pub relationship : Bytes
  pub fields : List Field
  pub where' : Option WhereClause
  pub order_by : List OrderByField
  pub limit : Option ℤ
  pub offset : Option ℤ

pub record SelectStatement : Type 0 where
  pub fields : List Field
  pub sub_queries : List SubQuery
  pub object : Bytes
  pub where' : Option WhereClause
  pub group_by : List Field
  pub having : Option WhereClause
  pub order_by : List OrderByField
  pub limit : Option ℤ
  pub offset : Option ℤ
