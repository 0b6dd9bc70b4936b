-- ===== src/Soql/Tests/Rows.antt =====
-- The laws of sorting, paging, projection and subqueries at concrete records.
use mock_salesforce.Base.{
  ◌+◌, ◌≡◌, ◌↔◌, refl, Bool, true, false, Option, none, some, List, [], ◌∷◌, ◌++◌, Bytes, codes,
  is_empty, str_eq, str_lt, lookup, select,
}
use mock_salesforce.Base.Int.{pos, negsuc}
use mock_salesforce.Value.{str, Record, no_fields, field}
use mock_salesforce.Value.Access.{get, find}
use mock_salesforce.Soql.Ast.{Field, OrderByField, SubQuery}
use mock_salesforce.Soql.Executor.{get_field_value}
use mock_salesforce.Soql.Executor.Order.{record_less}
use mock_salesforce.Soql.Executor.Order.Asymmetric.{record_less_asymmetric}
use mock_salesforce.Soql.Executor.Window.{window}
use mock_salesforce.Soql.Executor.Window.Pages.{is_negative, window-append, window_panics_iff}
use mock_salesforce.Soql.Executor.SubQueries.{children, ordered}
use mock_salesforce.Soql.Executor.Children.{belongs, children-select}
use mock_salesforce.Soql.Tests.{runtime, plain, row, status, urgent}
use mock_salesforce.Store.{MemoryStore, new_memory_store, create, or_empty}
use mock_salesforce.Store.Queries.{rows}

abbrev by_status : List OrderByField
by_status = record { field = status; descending = true; nulls_first = none } ∷ []

abbrev pub new_row : Record
new_row =
    field (codes "Status") (str (codes "New"))
      (field (codes "AccountId") (str (codes "001A")) no_fields)

-- The test runs on the two rows as given: "New" is after "Closed", and comes first.
record_less_asymmetric_example : record_less runtime by_status row new_row ≡ false
unfolding record_less get_field_value is_empty get find str_eq str_lt
record_less_asymmetric_example =
    record_less_asymmetric runtime (λ s. refl) by_status new_row row (tt, tt) (tt, tt) refl

abbrev page : List Bytes
page = codes "a" ∷ codes "b" ∷ codes "c" ∷ []

window-append_example :
    (first : List Bytes) × (second : List Bytes) × (window (some (pos 1)) (some (pos 1)) page
      ≡ some first)
    × (window (some (pos (1 + 1))) (some (pos 5)) page ≡ some second)
    × (window (some (pos 1)) (some (pos (1 + 5))) page ≡ some (first ++ second))
window-append_example = window-append 1 1 5 page

window_panics_iff_example :
    (window (some (pos 1)) (some (negsuc 0)) page ≡ none) ↔ (is_negative (some (negsuc 0)) ≡ true)
window_panics_iff_example = window_panics_iff (some (pos 1)) (some (negsuc 0)) page

abbrev wanted : List Field
wanted = status ∷ plain (codes "Missing") ∷ []

abbrev pub stored : MemoryStore
stored = (create new_memory_store (1 ∷ 2 ∷ []) (codes "Case") new_row).1

abbrev has_status : Record → Option Bool
has_status r = some (str_eq (runtime.format (get (codes "Status") r)) (codes "New"))

abbrev cases : SubQuery
cases = record {
  relationship = codes "Cases";
  fields = wanted;
  where' = some (record { condition = urgent });
  order_by = by_status;
  limit = some (pos 2);
  offset = none;
}

children-select_example :
    children runtime (λ m. m) stored (codes "Case") (codes "AccountId") (codes "001A") cases
    ≡ window none (some (pos 2)) (
        ordered runtime by_status (
          select
            (belongs runtime (codes "AccountId") (codes "001A") cases)
            (rows (or_empty (lookup (codes "Case") stored.records)))))
children-select_example =
    children-select runtime (λ m. m) stored (codes "Case") (codes "AccountId") (codes "001A") cases
      tt
