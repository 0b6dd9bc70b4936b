-- ===== src/Soql/Query.antt =====
-- The query endpoint (internal/handlers/query.go). The body of an error is its status and code.
pub mod Replies
use mock_salesforce.Base.{
  ℕ, Option, none, some, [], Bytes, codes, is_empty, Assoc, lookup, if◌then◌else◌,
}
use mock_salesforce.Soql.Parser.{Result, ok, err, out_of_fuel, parse}
use mock_salesforce.Soql.Executor.SubQueries.{
  Outcome, returned, unknown_parent, unknown_relationship, panicked,
}
use mock_salesforce.Soql.Executor.Aggregate.{QueryResult}
use mock_salesforce.Soql.Executor.Execute.{World, execute}

-- The reply; `crashed` is a panic, and `stuck` is what the parser's model gives without fuel.
pub data Reply : Type 0 where
  api_error : ℕ → Bytes → Reply
  answer : QueryResult → Reply
  crashed stuck : Reply

abbrev pub reply_of : Outcome QueryResult → Reply
reply_of (returned result) = answer result
reply_of unknown_parent = api_error 500 (codes "QUERY_ERROR")
reply_of unknown_relationship = api_error 500 (codes "QUERY_ERROR")
reply_of panicked = crashed

abbrev pub or_blank : Option Bytes → Bytes
or_blank none = []
or_blank (some s) = s

-- `HandleQuery`, on the parameters of the request.
unfoldable pub handle_query : World → (Bytes → ℕ) → Assoc Bytes → Reply
unfolding lookup is_empty parse execute
handle_query w float_bits params =
    let text = or_blank (lookup (codes "q") params) in
    if is_empty text
    then api_error 400 (codes "MALFORMED_QUERY")
    else elim (parse float_bits text) [
      | ok stmt ↦ reply_of (execute w stmt)
      | err _ ↦ api_error 400 (codes "MALFORMED_QUERY")
      | out_of_fuel ↦ stuck
    ]
