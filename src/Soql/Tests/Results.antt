-- ===== src/Soql/Tests/Results.antt =====
-- The laws of executed statements, of grouping and of the query endpoint at concrete inputs.
use mock_salesforce.Base.{
  Assoc, ◌≡◌, refl, none, some, List, [], ◌∷◌, Bytes, codes, is_empty, str_eq, lookup, map,
}
use mock_salesforce.Base.Int.{pos}
use mock_salesforce.Value.{Record}
use mock_salesforce.Schema.{is_virtual, all_objects, get_meta}
use mock_salesforce.Schema.{or_blank_object}
use mock_salesforce.Schema.Naming.{last_named, IsDistinct}
use mock_salesforce.Schema.Registered.{first_names, all_objects-registered}
use mock_salesforce.Schema.Builtin.{builtin_objects, builtin_registry}
use mock_salesforce.Soql.Ast.{SelectStatement}
use mock_salesforce.Soql.Executor.SubQueries.{returned, ordered}
use mock_salesforce.Soql.Executor.Project.{attributes}
use mock_salesforce.Soql.Executor.Aggregate.{
  QueryResult, result_of, is_bare_count, has_aggregate_fields,
}
use mock_salesforce.Soql.Executor.Aggregate.Groups.{group_records}
use mock_salesforce.Soql.Executor.Aggregate.Partition.{IsPartition, group_records-IsPartition}
use mock_salesforce.Soql.Executor.Execute.{World, execute}
use mock_salesforce.Soql.Executor.Execute.Bounds.{IsBounded, execute-IsBounded}
use mock_salesforce.Soql.Executor.Execute.Rows.{
  limited, skipped, copied, matching, execute-matching,
}
use mock_salesforce.Soql.Query.{handle_query}
use mock_salesforce.Soql.Query.Replies.{IsReply, handle_query-IsReply}
use mock_salesforce.Soql.Tests.{runtime, plain, row, status}
use mock_salesforce.Soql.Tests.Rows.{new_row, stored}

abbrev records : List Record
records = row ∷ new_row ∷ row ∷ []

group_records-IsPartition_example :
    IsPartition runtime (status ∷ []) records (group_records runtime (status ∷ []) records)
group_records-IsPartition_example = group_records-IsPartition runtime (status ∷ []) records

abbrev world : World
world = record { runtime = runtime; schema = builtin_registry; walk = λ t. t; store = stored }

abbrev cases : SelectStatement
cases = record {
  fields = status ∷ plain (codes "Missing") ∷ [];
  sub_queries = [];
  object = codes "Case";
  where' = none;
  group_by = [];
  having = none;
  order_by = [];
  limit = some (pos 5);
  offset = none;
}

execute-matching_example :
    execute world cases
    ≡ returned (
        result_of (
          map
            (λ r. copied r cases.fields (attributes runtime stored (codes "Case") r))
            (limited (some (pos 5)) (skipped none (ordered runtime [] (matching world cases))))))
unfolding is_empty str_eq has_aggregate_fields is_virtual
execute-matching_example =
    execute-matching world cases (refl, refl, refl, refl, (refl, (refl, tt)), tt, refl)

abbrev found : QueryResult
found = result_of (
    map (λ r. copied r cases.fields (attributes runtime stored (codes "Case") r))
      (limited (some (pos 5)) (skipped none (ordered runtime [] (matching world cases)))))

execute-IsBounded_example : IsBounded cases found
unfolding is_empty str_eq has_aggregate_fields is_virtual is_bare_count
execute-IsBounded_example =
    execute-IsBounded world cases found refl
      (execute-matching world cases (refl, refl, refl, refl, (refl, (refl, tt)), tt, refl))

abbrev query_text : Bytes
query_text = codes "SELECT Status FROM Case LIMIT 1"

abbrev params : Assoc Bytes
params = (codes "q", query_text) ∷ []

handle_query-IsReply_example :
    IsReply world (λ s. 0) query_text (handle_query world (λ s. 0) params)
unfolding lookup str_eq
handle_query-IsReply_example = handle_query-IsReply world (λ s. 0) params

all_objects-registered_example :
    (map (λ m. m.name) (all_objects builtin_registry) ≡ first_names builtin_objects)
    × (all_objects builtin_registry
        ≡ map
            (λ n. or_blank_object (last_named n builtin_objects none))
            (first_names builtin_objects))
    × IsDistinct (first_names builtin_objects)
    × ((n : Bytes) → get_meta n builtin_registry ≡ last_named n builtin_objects none)
all_objects-registered_example = all_objects-registered builtin_objects
