-- ===== src/Soql/Query/Replies.antt =====
-- The replies of the query endpoint (internal/handlers/query.go).
use mock_salesforce.Base.{
  ℕ, ◌≡◌, ◌≢◌, refl, sym, ap, ◌∙◌, ◌⊎◌, inl, inr, Bool-cases, true, false, [], Bytes, codes,
  is_empty, is_empty_nil, Assoc, lookup, arith,
}
use mock_salesforce.Soql.Ast.{SelectStatement}
use mock_salesforce.Soql.Parser.{ParseError, Result, ok, err, out_of_fuel, parse}
use mock_salesforce.Soql.Parser.Totality.{parse-ne-out_of_fuel}
use mock_salesforce.Soql.Executor.SubQueries.{
  Outcome, returned, unknown_parent, unknown_relationship, panicked,
}
use mock_salesforce.Soql.Executor.Aggregate.{QueryResult}
use mock_salesforce.Soql.Executor.Execute.{World, execute}
use mock_salesforce.Soql.Executor.Execute.Rows.{IsPlain, execute-matching}
use mock_salesforce.Soql.Query.{
  Reply, api_error, answer, crashed, stuck, reply_of, or_blank, handle_query,
}

-- The text is a statement that is not a plain one.
abbrev pub IsIntricate : World → SelectStatement → Type 0
IsIntricate w stmt = ¬ IsPlain w.runtime stmt

-- What has to hold of the text for a reply.
abbrev pub IsReply : World → (Bytes → ℕ) → Bytes → Reply → Type 0
IsReply w float_bits text (api_error status code) =
    ((status ≡ 400)
      × (code ≡ codes "MALFORMED_QUERY")
      × ((text ≡ []) ⊎ ((message : ParseError) × (parse float_bits text ≡ err message))))
    ⊎ ((status ≡ 500)
        × (code ≡ codes "QUERY_ERROR")
        × ((stmt : SelectStatement) × (parse float_bits text ≡ ok stmt)
            × ((execute w stmt ≡ unknown_parent) ⊎ (execute w stmt ≡ unknown_relationship))
            × IsIntricate w stmt))
IsReply w float_bits text (answer result) =
    (text ≢ [])
    × ((stmt : SelectStatement) × (parse float_bits text ≡ ok stmt)
        × (execute w stmt ≡ returned result))
IsReply w float_bits text crashed =
    (stmt : SelectStatement) × (parse float_bits text ≡ ok stmt)
    × (execute w stmt ≡ panicked)
    × IsIntricate w stmt
IsReply w float_bits text stuck = ⊥

intricate :
    (w : World) (stmt : SelectStatement) (o : Outcome QueryResult)
    → execute w stmt ≡ o
    → ((result : QueryResult) → o ≢ returned result)
    → IsIntricate w stmt
intricate w stmt o e n plain = n _ (sym e ∙ execute-matching w stmt plain)

executed-IsReply :
    (w : World) (float_bits : Bytes → ℕ) (text : Bytes) (stmt : SelectStatement)
    (o : Outcome QueryResult)
    → text ≢ []
    → parse float_bits text ≡ ok stmt
    → execute w stmt ≡ o
    → IsReply w float_bits text (reply_of o)
executed-IsReply w fb text stmt (returned result) n p e = (n, (stmt, p, e))
executed-IsReply w fb text stmt unknown_parent n p e =
    inr (refl, refl, (stmt, p, inl e, intricate w stmt unknown_parent e (λ r q. ground arith)))
executed-IsReply w fb text stmt unknown_relationship n p e =
    inr
      (refl, refl, (stmt, p, inr e, intricate w stmt unknown_relationship e (λ r q. ground arith)))
executed-IsReply w fb text stmt panicked n p e =
    (stmt, p, e, intricate w stmt panicked e (λ r q. ground arith))

parsed-IsReply :
    (w : World) (float_bits : Bytes → ℕ) (params : Assoc Bytes) (o : Result SelectStatement)
    → is_empty (or_blank (lookup (codes "q") params)) ≡ false
    → parse float_bits (or_blank (lookup (codes "q") params)) ≡ o
    → IsReply w float_bits (or_blank (lookup (codes "q") params)) (handle_query w float_bits params)
unfolding handle_query is_empty
parsed-IsReply w fb params (ok stmt) h e =
    rw (h, handle_query, e)
      (executed-IsReply w fb (or_blank (lookup (codes "q") params)) stmt (execute w stmt)
        (λ q. let bad : true ≡ false = ap is_empty (sym q) ∙ h in ground arith) e refl)
parsed-IsReply w fb params (err x) h e = rw (h, handle_query, e) (inl (refl, refl, inr (x, e)))
parsed-IsReply w fb params out_of_fuel h e =
    absurd (parse-ne-out_of_fuel fb (or_blank (lookup (codes "q") params)) e)

-- The endpoint replies with status 400 only to an empty text or one that does not parse, with an
-- answer only what the execution of the parsed statement returns, and with status 500 or a panic only
-- where the execution fails or panics, which is for no plain statement; it always comes to one of these.
pub handle_query-IsReply :
    (w : World) (float_bits : Bytes → ℕ) (params : Assoc Bytes)
    → IsReply w float_bits (or_blank (lookup (codes "q") params)) (handle_query w float_bits params)
unfolding handle_query is_empty
handle_query-IsReply w fb params =
    elim (Bool-cases (is_empty (or_blank (lookup (codes "q") params)))) [
      | inl e ↦ rw (e, handle_query) (inl (refl, refl, inl (is_empty_nil _ e)))
      | inr e ↦ parsed-IsReply w fb params _ e refl
    ]
