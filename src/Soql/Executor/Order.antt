-- ===== src/Soql/Executor/Order.antt =====
-- The order of records (`sortRecords` of internal/soql/executor.go).
pub mod Asymmetric
use mock_salesforce.Base.{
  Bool, true, false, not, ◌&&◌, Option, none, some, List, [], ◌∷◌, if◌then◌else◌,
}
use mock_salesforce.Value.{Value, Record}
use mock_salesforce.Value.Access.{is_nil}
use mock_salesforce.Soql.Ast.{OrderByField}
use mock_salesforce.Soql.Executor.Runtime.{Runtime}
use mock_salesforce.Soql.Executor.Compare.{get_field_value, values_equal, compare_less}

abbrev or_default : Option Bool → Bool → Bool
or_default (some b) d = b
or_default none d = d

-- One round of the loop on the values of a column, with what the rounds after it answer.
unfoldable pub column_less : Runtime → OrderByField → Value → Value → Bool → Bool
unfolding values_equal compare_less
column_less rt ob v w rest =
    if is_nil v && is_nil w
    then rest
    else if is_nil v
    then or_default ob.nulls_first (not ob.descending)
    else if is_nil w
    then not (or_default ob.nulls_first (not ob.descending))
    else if values_equal rt v w
    then rest
    else if ob.descending
    then not (compare_less rt v w)
    else compare_less rt v w

-- The test that `sortRecords` gives to `sort.Slice`: `a` comes before `b`.
unfoldable pub record_less : Runtime → List OrderByField → Record → Record → Bool
unfolding get_field_value column_less
record_less rt [] a b = false
record_less rt (ob ∷ obs) a b =
    let rest = record_less rt obs a b in
    column_less rt ob (get_field_value a ob.field) (get_field_value b ob.field) rest

-- `sortRecords`
unfoldable pub sort_records : Runtime → List OrderByField → List Record → List Record
unfolding record_less
sort_records rt obs rs = rt.sort_slice (record_less rt obs) rs
