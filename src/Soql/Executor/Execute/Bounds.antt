-- ===== src/Soql/Executor/Execute/Bounds.antt =====
-- The size of a result (internal/soql/executor.go, internal/soql/aggregate.go).
use mock_salesforce.Base.{
  ℕ, suc, ◌≤◌, ◌≡◌, refl, sym, ap, ◌∙◌, inl, inr, Bool-cases, Option-cases, true, false, ◌||◌,
  Option, none, some, List, [], ◌∷◌, Bytes, length, length-take, take, subst, arith,
}
use mock_salesforce.Base.Int.{ℤ, pos}
use mock_salesforce.Value.{Record}
use mock_salesforce.Soql.Ast.{Field, SubQuery, SelectStatement}
use mock_salesforce.Soql.Executor.Runtime.{Runtime}
use mock_salesforce.Soql.Executor.Filter.{where_filter}
use mock_salesforce.Soql.Executor.Window.{cut_limit, window}
use mock_salesforce.Soql.Executor.Window.Pages.{cut_limit-take, skip_offset-returns}
use mock_salesforce.Soql.Executor.Project.{project_record, project_fields, attributes}
use mock_salesforce.Soql.Executor.SubQueries.{
  Outcome, returned, unknown_parent, unknown_relationship, panicked, ordered,
}
use mock_salesforce.Soql.Executor.Aggregate.{
  QueryResult, is_bare_count, has_aggregate_fields, filter_rows, group_rows, execute_aggregate,
  result_of,
}
use mock_salesforce.Soql.Executor.Aggregate.Groups.{group_records}
use mock_salesforce.Soql.Executor.Execute.{
  World, and_then, or_panic, attach_all, execute_plain, execute, execute_records, has_group,
}
use mock_salesforce.Store.{MemoryStore}

-- What holds of the value, if one is returned.
unfoldable pub Holds {ℓ κ} : {A : Type ℓ} → (A → Type κ) → Outcome A → Type κ
Holds P (returned a) = P a
Holds P unknown_parent = Unit
Holds P unknown_relationship = Unit
Holds P panicked = Unit

and_then-Holds {ℓ κ μ ν} :
    {A : Type ℓ} {B : Type κ} (P : A → Type μ) (Q : B → Type ν) (o : Outcome A) (f : A → Outcome B)
    → Holds P o
    → ((a : A) → P a → Holds Q (f a))
    → Holds Q (and_then o f)
unfolding Holds
and_then-Holds P Q (returned a) f h k = k a h
and_then-Holds P Q unknown_parent f h k = tt
and_then-Holds P Q unknown_relationship f h k = tt
and_then-Holds P Q panicked f h k = tt

Holds-any {ℓ} : {A : Type ℓ} (o : Outcome A) → Holds (λ _. Unit {0}) o
unfolding Holds
Holds-any (returned a) = tt
Holds-any unknown_parent = tt
Holds-any unknown_relationship = tt
Holds-any panicked = tt

or_panic-Holds {ℓ κ} :
    {A : Type ℓ} (P : A → Type κ) (o : Option A)
    → ((a : A) → o ≡ some a → P a)
    → Holds P (or_panic o)
unfolding Holds
or_panic-Holds P none h = tt
or_panic-Holds P (some a) h = h a refl

-- The value of an outcome that returned.
pub Holds_at {ℓ κ} :
    {A : Type ℓ} (P : A → Type κ) (o : Outcome A) (a : A) → Holds P o → o ≡ returned a → P a
unfolding Holds
Holds_at P o a h e = rw e at h

attach_all-length :
    (w : World) (t : Bytes) (subs : List SubQuery) (rs ps : List Record)
    → Holds (λ rows. length rows ≡ length ps) (attach_all w t subs rs ps)
unfolding attach_all Holds
attach_all-length w t subs [] ps = refl
attach_all-length w t subs (r ∷ rs) [] = refl
attach_all-length w t subs (r ∷ rs) (p ∷ ps) =
    and_then-Holds (λ _. Unit {0}) (λ rows. length rows ≡ suc (length ps)) _ _ (Holds-any _)
      λ p' _.
        and_then-Holds (λ rows. length rows ≡ length ps) (λ rows. length rows ≡ suc (length ps))
          (attach_all w t subs rs ps) (λ ps'. returned (p' ∷ ps'))
          (attach_all-length w t subs rs ps) λ ps' e. ap suc e

project_fields-length :
    (rt : Runtime) (s : MemoryStore) (rs : List Record) (fs : List Field) (t : Bytes)
    (ps : List Record)
    → project_fields rt s rs fs t ≡ some ps
    → length ps ≡ length rs
unfolding project_fields
project_fields-length rt s [] fs t ps h = ground arith
project_fields-length rt s (r ∷ rs) fs t ps h =
    elim (Option-cases (project_record rt s r t fs (attributes rt s t r))) [
      | inl e ↦ let bad : none ≡ some ps = rw (e, project_fields) at h in ground arith
      | inr (p, e) ↦ elim (Option-cases (project_fields rt s rs fs t)) [
        | inl e' ↦ let bad : none ≡ some ps = rw (e, project_fields, e') at h in ground arith
        | inr (qs, e') ↦
            let good : some (p ∷ qs) ≡ some ps = rw (e, project_fields, e') at h in
            let z = project_fields-length rt s rs fs t qs e' in ground arith
      ]
    ]

-- The rows are counted, and a limit bounds them.
abbrev pub IsBounded : SelectStatement → QueryResult → Type 0
IsBounded stmt result =
    (result.total_size ≡ length result.records)
    × (result.done ≡ true)
    × ((n : ℕ) → stmt.limit ≡ some (pos n) → length result.records ≤ n)

window-le :
    (offset limit : Option ℤ) (rs out : List Record) (n : ℕ)
    → window offset limit rs ≡ some out
    → limit ≡ some (pos n)
    → length out ≤ n
unfolding window
window-le offset limit rs out n h e =
    let (kept, f) = skip_offset-returns offset rs in
    let cut : cut_limit limit kept ≡ some out = rw (f, window) at h in
    let q : some (take n kept) ≡ some out =
      sym (cut_limit-take n kept) ∙ ap (λ l. cut_limit l kept) (sym e) ∙ cut in
    let z = length-take n kept in ground arith

execute_plain-IsBounded :
    (w : World) (stmt : SelectStatement) (rs : List Record)
    → Holds (IsBounded stmt) (execute_plain w stmt rs)
unfolding execute_plain result_of Holds
execute_plain-IsBounded w stmt rs =
    let page = window stmt.offset stmt.limit (ordered w.runtime stmt.order_by rs) in
    and_then-Holds (λ out. page ≡ some out) (IsBounded stmt) _ _ (or_panic-Holds _ page (λ a e. e))
      λ cut e.
        and_then-Holds (λ ps. length ps ≡ length cut) (IsBounded stmt) _ _
          (or_panic-Holds _ (project_fields w.runtime w.store cut stmt.fields stmt.object)
            (project_fields-length w.runtime w.store cut stmt.fields stmt.object))
          λ ps e'.
            and_then-Holds (λ rows. length rows ≡ length ps) (IsBounded stmt) _ _
              (attach_all-length w stmt.object stmt.sub_queries cut ps)
              λ rows e''. (
                refl,
                refl,
                λ n l.
                    let z = window-le stmt.offset stmt.limit _ cut n e l in
                    omega (arith, e', e'', z),
              )

-- What holds of the value, if there is one.
abbrev OfSome {ℓ κ} : {A : Type ℓ} → (A → Type κ) → Option A → Type κ
OfSome P none = Unit
OfSome P (some a) = P a

kept-IsBounded :
    (rt : Runtime) (stmt : SelectStatement) (kept : List Record) (o : Option (List Record))
    → window stmt.offset stmt.limit (ordered rt stmt.order_by kept) ≡ o
    → OfSome (IsBounded stmt) (elim o [ none ↦ none | some out ↦ some (result_of out) ])
unfolding result_of
kept-IsBounded rt stmt kept none e = tt
kept-IsBounded rt stmt kept (some out) e =
    (refl, refl, λ n l. window-le stmt.offset stmt.limit _ out n e l)

execute_aggregate-IsBounded :
    (rt : Runtime) (stmt : SelectStatement) (rs : List Record)
    → is_bare_count stmt.fields stmt.group_by ≡ false
    → OfSome (IsBounded stmt) (execute_aggregate rt stmt rs)
unfolding execute_aggregate
execute_aggregate-IsBounded rt stmt rs b =
    elim (Option-cases (group_rows rt stmt.fields (group_records rt stmt.group_by rs))) [
      | inl e ↦ rw (b, e, execute_aggregate) tt
      | inr (rows, e) ↦ elim (Option-cases (filter_rows (where_filter rt stmt.having) rows)) [
        | inl e' ↦ rw (b, e, execute_aggregate, e') tt
        | inr (kept, e') ↦ rw (b, e, execute_aggregate, e') (kept-IsBounded rt stmt kept _ refl)
      ]
    ]

execute_records-Holds :
    (w : World) (stmt : SelectStatement) (rs : List Record)
    → is_bare_count stmt.fields stmt.group_by ≡ false
    → Holds (IsBounded stmt) (execute_records w stmt rs)
unfolding execute_records
execute_records-Holds w stmt rs b =
    elim (Bool-cases (has_aggregate_fields stmt.fields || has_group stmt.group_by)) [
      | inl e ↦ rw e (
          or_panic-Holds (IsBounded stmt) (execute_aggregate w.runtime stmt rs) λ a f.
            subst (OfSome (IsBounded stmt)) f (execute_aggregate-IsBounded w.runtime stmt rs b))
      | inr e ↦ rw e (execute_plain-IsBounded w stmt rs)
    ]

execute-Holds :
    (w : World) (stmt : SelectStatement)
    → is_bare_count stmt.fields stmt.group_by ≡ false
    → Holds (IsBounded stmt) (execute w stmt)
unfolding execute
execute-Holds w stmt b =
    and_then-Holds (λ _. Unit {0}) (IsBounded stmt) _ _ (Holds-any _)
      λ rs _. execute_records-Holds w stmt rs b

-- What a statement returns, unless it is a bare COUNT(), counts its rows in totalSize, is done, and
-- has at most as many rows as a LIMIT that is not negative says.
pub execute-IsBounded :
    (w : World) (stmt : SelectStatement) (result : QueryResult)
    → is_bare_count stmt.fields stmt.group_by ≡ false
    → execute w stmt ≡ returned result
    → IsBounded stmt result
execute-IsBounded w stmt result b h =
    Holds_at (IsBounded stmt) (execute w stmt) result (execute-Holds w stmt b) h
