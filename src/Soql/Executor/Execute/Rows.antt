-- ===== src/Soql/Executor/Execute/Rows.antt =====
-- The rows of a statement without aggregates and subqueries (internal/soql/executor.go).
use mock_salesforce.Base.{
  ◌≡◌, refl, false, Option, none, some, List, [], ◌∷◌, Bytes, lookup, map, select, take, drop, All,
  arith,
}
use mock_salesforce.Base.Int.{ℤ, pos, negsuc}
use mock_salesforce.Value.{Record}
use mock_salesforce.Value.Access.{get, put}
use mock_salesforce.Schema.{is_virtual}
use mock_salesforce.Soql.Ast.{Field, SelectStatement}
use mock_salesforce.Soql.Executor.Runtime.{Runtime}
use mock_salesforce.Soql.Executor.Filter.{where_filter}
use mock_salesforce.Soql.Executor.Children.{IsSafeWhere, where_filter-Returns}
use mock_salesforce.Soql.Executor.Window.{skip_offset, cut_limit, window}
use mock_salesforce.Soql.Executor.Window.Pages.{
  is_negative, skip_offset-drop, skip_offset-negsuc, cut_limit-take,
}
use mock_salesforce.Soql.Executor.Project.{
  project_field, project_record, project_fields, attributes,
}
use mock_salesforce.Soql.Executor.Project.Plain.{IsPlainField}
use mock_salesforce.Soql.Executor.SubQueries.{returned, ordered}
use mock_salesforce.Soql.Executor.Aggregate.{has_aggregate_fields, result_of}
use mock_salesforce.Soql.Executor.Execute.{
  World, attach, attach_all, execute_plain, execute_records, execute, source_records,
}
use mock_salesforce.Store.{MemoryStore, or_empty}
use mock_salesforce.Store.Queries.{passes, rows, query-select}

-- The part of the rows that OFFSET and LIMIT leave.
abbrev pub skipped {ℓ} : {A : Type ℓ} → Option ℤ → List A → List A
skipped (some (pos n)) rs = drop n rs
skipped _ rs = rs

abbrev pub limited {ℓ} : {A : Type ℓ} → Option ℤ → List A → List A
limited (some (pos n)) rs = take n rs
limited _ rs = rs

skip_offset-skipped {ℓ} :
    {A : Type ℓ} (o : Option ℤ) (rs : List A) → skip_offset o rs ≡ some (skipped o rs)
unfolding skip_offset
skip_offset-skipped none rs = refl
skip_offset-skipped (some (negsuc n)) rs = skip_offset-negsuc n rs
skip_offset-skipped (some (pos n)) rs = skip_offset-drop n rs

cut_limit-limited {ℓ} :
    {A : Type ℓ} (l : Option ℤ) (rs : List A)
    → is_negative l ≡ false
    → cut_limit l rs ≡ some (limited l rs)
unfolding cut_limit
cut_limit-limited none rs h = refl
cut_limit-limited (some (negsuc n)) rs h = ground arith
cut_limit-limited (some (pos n)) rs h = cut_limit-take n rs

window-limited {ℓ} :
    {A : Type ℓ} (o l : Option ℤ) (rs : List A)
    → is_negative l ≡ false
    → window o l rs ≡ some (limited l (skipped o rs))
unfolding window
window-limited o l rs h =
    rw (skip_offset-skipped o rs, window) (cut_limit-limited l (skipped o rs) h)

-- The values of the fields, copied into a record one after the other.
abbrev pub copied : Record → List Field → Record → Record
copied r [] p = p
copied r (f ∷ fs) p = copied r fs (put f.name (get f.name r) p)

project_record-copied :
    (rt : Runtime) (s : MemoryStore) (r : Record) (t : Bytes) (fs : List Field) (p : Record)
    → All IsPlainField fs
    → project_record rt s r t fs p ≡ some (copied r fs p)
unfolding project_record project_field
project_record-copied rt s r t [] p h = refl
project_record-copied rt s r t (f ∷ fs) p (h, hs) =
    rw (h, project_record, project_field)
      (project_record-copied rt s r t fs (put f.name (get f.name r) p) hs)

project_fields-copied :
    (rt : Runtime) (s : MemoryStore) (rs : List Record) (fs : List Field) (t : Bytes)
    → All IsPlainField fs
    → project_fields rt s rs fs t ≡ some (map (λ r. copied r fs (attributes rt s t r)) rs)
unfolding project_fields
project_fields-copied rt s [] fs t h = refl
project_fields-copied rt s (r ∷ rs) fs t h =
    rw
      (
        project_record-copied rt s r t fs (attributes rt s t r) h,
        project_fields,
        project_fields-copied rt s rs fs t h,
      )
      refl

attach_all-none :
    (w : World) (t : Bytes) (rs ps : List Record) → attach_all w t [] rs ps ≡ returned ps
unfolding attach_all attach
attach_all-none w t [] ps = refl
attach_all-none w t (r ∷ rs) [] = refl
attach_all-none w t (r ∷ rs) (p ∷ ps) = rw (attach_all-none w t rs ps) refl

-- What makes a statement a plain one: it reads a stored object, has no aggregates, groups,
-- relationship fields or subqueries, no comparison in its condition has the operand '%', and its
-- limit is not negative.
abbrev pub IsPlain : Runtime → SelectStatement → Type 0
IsPlain rt stmt =
    (is_virtual stmt.object ≡ false)
    × (has_aggregate_fields stmt.fields ≡ false)
    × (stmt.group_by ≡ [])
    × (stmt.sub_queries ≡ [])
    × All IsPlainField stmt.fields
    × IsSafeWhere rt stmt.where'
    × (is_negative stmt.limit ≡ false)

-- The records of the object that pass the condition, in the order of the store's walk.
abbrev pub matching : World → SelectStatement → List Record
matching w stmt =
    select (λ r. passes (where_filter w.runtime stmt.where' r))
      (rows (w.walk (or_empty (lookup stmt.object w.store.records))))

-- A plain statement returns the records of the object that pass its condition, sorted by ORDER BY,
-- from OFFSET on and at most LIMIT of them, each with its attributes and the fields that are asked
-- for; it neither fails nor panics.
pub execute-matching :
    (w : World) (stmt : SelectStatement)
    → IsPlain w.runtime stmt
    → execute w stmt
      ≡ returned (
          result_of (
            map
              (λ r. copied r stmt.fields (attributes w.runtime w.store stmt.object r))
              (limited stmt.limit
                (skipped stmt.offset (ordered w.runtime stmt.order_by (matching w stmt))))))
unfolding execute source_records execute_records execute_plain
execute-matching w stmt (v, a, g, q, f, h, l) =
    let found =
      query-select w.walk w.store stmt.object (where_filter w.runtime stmt.where')
        (λ r. where_filter-Returns w.runtime stmt.where' r h) in
    let sorted = ordered w.runtime stmt.order_by (matching w stmt) in
    let cut = limited stmt.limit (skipped stmt.offset sorted) in
    rw
      (
        v,
        found,
        execute_records,
        a,
        g,
        execute_plain,
        window-limited stmt.offset stmt.limit sorted l,
        project_fields-copied w.runtime w.store cut stmt.fields stmt.object f,
        q,
        attach_all-none w stmt.object cut
            (map (λ r. copied r stmt.fields (attributes w.runtime w.store stmt.object r)) cut),
      )
      refl
