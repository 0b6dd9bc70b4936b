-- ===== src/Store/Entries.antt =====
-- The entries of the secondary indexes under updateIndexes and removeFromIndexes
-- (internal/store/memory.go).
use mock_salesforce.Base.{
  ◌≡◌, refl, Bool, not, ◌&&◌, ◌||◌, List, [], ◌∷◌, ◌++◌, Bytes, str_eq, str_eq_iff, is_empty, Assoc,
  lookup, lookup-insert, lookup-erase, select, any, arith, inl, inr, Option-cases,
}
use mock_salesforce.Value.{Record}
use mock_salesforce.Value.Access.{get}
use mock_salesforce.Store.Types.{MemoryStore, or_empty, as_string}
use mock_salesforce.Store.Indexing.{
  add_id, index_field, index_fields, update_indexes, remove_id, remove_ids, remove_from_indexes,
}
use mock_salesforce.Store.Records.{at-write}

abbrev pub has : Bytes → List Bytes → Bool
has id ids = any (λ j. str_eq j id) ids

-- The ids under a field and a value, in the indexes of one object type.
abbrev ids_in : Assoc (Assoc (List Bytes)) → Bytes → Bytes → List Bytes
ids_in indexes f v = or_empty (lookup v (or_empty (lookup f indexes)))

abbrev pub ids_at : MemoryStore → Bytes → Bytes → Bytes → List Bytes
ids_at s t f v = ids_in (or_empty (lookup t s.indexes)) f v

-- Whether `updateIndexes` indexes the field of this object type.
abbrev pub indexed : MemoryStore → Bytes → Bytes → Bool
indexed s t f = has f (or_empty (lookup t s.indexed_fields))

has-append : (j id : Bytes) (ids : List Bytes) → has j (ids ++ id ∷ []) ≡ (has j ids || str_eq id j)
has-append j id [] = ground arith
has-append j id (i ∷ ids) = ground (arith, has-append j id ids)

has-add_id : (j id : Bytes) (ids : List Bytes) → has j (add_id id ids) ≡ (has j ids || str_eq id j)
unfolding add_id
has-add_id j id ids = ground (arith, has-append j id ids, str_eq_iff id j)

-- `r` has the value `v` at `f`, and is not left out for being empty.
abbrev pub holds : Record → Bytes → Bytes → Bool
holds r f v = str_eq (as_string (get f r)) v && not (is_empty v)

module _ (id : Bytes) (r : Record) where
  has-index_field :
      (f : Bytes) (indexes : Assoc (Assoc (List Bytes))) (g v j : Bytes)
      → has j (ids_in (index_field id r f indexes) g v)
        ≡ (has j (ids_in indexes g v) || str_eq f g && holds r f v && str_eq id j)
  unfolding index_field
  has-index_field f indexes g v j =
      let w = as_string (get f r) in
      ground (
        arith,
        at-write indexes f w (add_id id (ids_in indexes f w)) g v,
        has-add_id j id (ids_in indexes f w),
        str_eq_iff f g,
        str_eq_iff w v,
      )

  has-index_fields :
      (fs : List Bytes) (indexes : Assoc (Assoc (List Bytes))) (g v j : Bytes)
      → has j (ids_in (index_fields id r fs indexes) g v)
        ≡ (has j (ids_in indexes g v) || has g fs && holds r g v && str_eq id j)
  unfolding index_fields
  has-index_fields [] indexes g v j = ground arith
  has-index_fields (f ∷ fs) indexes g v j = ground (
    arith,
    has-index_fields fs (index_field id r f indexes) g v j,
    has-index_field f indexes g v j,
    str_eq_iff f g,
  )

  -- `updateIndexes` adds the id under each value of an indexed field, and takes nothing out.
  pub has-update_indexes :
      (s : MemoryStore) (t u g v j : Bytes)
      → has j (ids_at (update_indexes s t id r) u g v)
        ≡ (has j (ids_at s u g v) || str_eq t u && indexed s t g && holds r g v && str_eq id j)
  unfolding update_indexes
  has-update_indexes s t u g v j = elim (Option-cases (lookup t s.indexed_fields)) [
    | inl e ↦ rw (e, update_indexes) (ground arith)
    | inr (fs, e) ↦
        rw (e, update_indexes)
          (ground (
            arith,
            lookup-insert t u (index_fields id r fs (or_empty (lookup t s.indexes))) s.indexes,
            has-index_fields fs (or_empty (lookup t s.indexes)) g v j,
            str_eq_iff t u,
          ))
  ]

  pub indexed-update_indexes :
      (s : MemoryStore) (t u f : Bytes) → indexed (update_indexes s t id r) u f ≡ indexed s u f
  unfolding update_indexes
  indexed-update_indexes s t u f = ground arith

has-select :
    (j id : Bytes) (ids : List Bytes)
    → has j (select (λ i. not (str_eq i id)) ids) ≡ (has j ids && not (str_eq id j))
has-select j id [] = refl
has-select j id (i ∷ ids) =
    ground (arith, has-select j id ids, str_eq_iff i id, str_eq_iff i j, str_eq_iff id j)

has-remove_id :
    (id : Bytes) (m : Assoc (List Bytes)) (v j : Bytes)
    → has j (or_empty (lookup v (remove_id id m)))
      ≡ (has j (or_empty (lookup v m)) && not (str_eq id j))
unfolding remove_id lookup
has-remove_id id [] v j = refl
has-remove_id id ((w, ids) ∷ m) v j = ground (
  arith,
  has-select j id ids,
  has-remove_id id m v j,
  lookup-erase w v (remove_id id m),
  str_eq_iff w v,
)

has-remove_ids :
    (id : Bytes) (indexes : Assoc (Assoc (List Bytes))) (f v j : Bytes)
    → has j (ids_in (remove_ids id indexes) f v) ≡ (has j (ids_in indexes f v) && not (str_eq id j))
unfolding remove_ids lookup
has-remove_ids id [] f v j = refl
has-remove_ids id ((g, m) ∷ indexes) f v j =
    ground (arith, has-remove_id id m v j, has-remove_ids id indexes f v j)

ids_in-nil : (f v : Bytes) → ids_in [] f v ≡ []
unfolding lookup
ids_in-nil f v = refl

-- `removeFromIndexes` takes the id out of the indexes of its object type, and nothing else.
pub has-remove_from_indexes :
    (s : MemoryStore) (t id u f v j : Bytes)
    → has j (ids_at (remove_from_indexes s t id) u f v)
      ≡ (has j (ids_at s u f v) && not (str_eq t u && str_eq id j))
unfolding remove_from_indexes
has-remove_from_indexes s t id u f v j = elim (Option-cases (lookup t s.indexes)) [
  | inl e ↦ rw (e, remove_from_indexes) (ground (arith, str_eq_iff t u, ids_in-nil f v))
  | inr (indexes, e) ↦
      rw (e, remove_from_indexes)
        (ground (
          arith,
          lookup-insert t u (remove_ids id indexes) s.indexes,
          has-remove_ids id indexes f v j,
          str_eq_iff t u,
        ))
]

pub indexed-remove_from_indexes :
    (s : MemoryStore) (t id u f : Bytes) → indexed (remove_from_indexes s t id) u f ≡ indexed s u f
unfolding remove_from_indexes
indexed-remove_from_indexes s t id u f = ground arith
