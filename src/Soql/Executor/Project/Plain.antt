-- ===== src/Soql/Executor/Project/Plain.antt =====
-- Projection on fields of the record itself (internal/soql/executor.go).
use mock_salesforce.Base.{
  ◌≡◌, refl, ap, ◌∙◌, Bool, true, ◌||◌, some, List, [], ◌∷◌, Bytes, is_empty, str_eq, str_eq_iff,
  str_eq_refl, Bool-cases, inl, inr, any, All, if◌then◌else◌,
}
use mock_salesforce.Value.{Value, Record}
use mock_salesforce.Value.Access.{get, put, find-put}
use mock_salesforce.Soql.Ast.{Field}
use mock_salesforce.Soql.Executor.Runtime.{Runtime}
use mock_salesforce.Soql.Executor.Project.{project_field, project_record}
use mock_salesforce.Store.{MemoryStore}

abbrev pub IsPlainField : Field → Type 0
IsPlainField f = is_empty f.relation ≡ true

-- Whether the fields ask for the name.
abbrev pub asks : List Field → Bytes → Bool
asks fs k = any (λ f. str_eq f.name k) fs

get-put :
    (j k : Bytes) (v : Value) (r : Record) → get k (put j v r) ≡ (if str_eq j k then v else get k r)
unfolding get
get-put j k v r =
    rw (find-put j k v r) (elim (Bool-cases (str_eq j k)) [ inl e ↦ rw e refl | inr e ↦ rw e refl ])

asked :
    (j k : Bytes) (r acc : Record) (b : Bool)
    → (if b then get k r else (if str_eq j k then get j r else get k acc))
      ≡ (if str_eq j k || b then get k r else get k acc)
asked j k r acc b = elim (Bool-cases (str_eq j k)) [
  | inl e ↦
      let q : j ≡ k = (str_eq_iff j k).0 e in
      rw (q, str_eq_refl k) (elim (Bool-cases b) [ inl u ↦ rw u refl | inr u ↦ rw u refl ])
  | inr e ↦ rw e refl
]

module _ (rt : Runtime) (s : MemoryStore) where
  -- On fields without a relationship, projection does not panic: the projected record holds the
  -- record's value, nil where it has none, under each name that is asked for, and under any other
  -- name what the record that it starts from holds.
  pub project_record-get :
      (r : Record) (t : Bytes) (fs : List Field) (start : Record) (k : Bytes)
      → All IsPlainField fs
      → (p : Record) × (project_record rt s r t fs start ≡ some p)
        × (get k p ≡ (if asks fs k then get k r else get k start))
  unfolding project_record project_field
  project_record-get r t [] start k h = (start, refl, refl)
  project_record-get r t (f ∷ fs) start k (h, hs) =
      let (p, e, g) = project_record-get r t fs (put f.name (get f.name r) start) k hs in
      (
        p,
        rw (h, project_record, project_field) e,
        g
            ∙ ap (λ v. if asks fs k then get k r else v) (get-put f.name k (get f.name r) start)
            ∙ asked f.name k r start (asks fs k),
      )
