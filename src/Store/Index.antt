-- ===== src/Store/Index.antt =====
-- The secondary indexes under the methods of the store (internal/store/memory.go).
use mock_salesforce.Base.{
  ◌≡◌, refl, sym, ◌&&◌, ◌||◌, true, false, str_eq, some, Bytes, str_eq_iff, str_eq_refl, lookup,
  insert, erase, arith, inl, inr, Option-cases,
}
use mock_salesforce.Value.{Record}
use mock_salesforce.Value.Access.{merge}
use mock_salesforce.Store.Types.{MemoryStore, Result, ok, err, or_empty}
use mock_salesforce.Store.Indexing.{update_indexes, remove_from_indexes}
use mock_salesforce.Store.Methods.{get_record, create, update, delete, id_for, with_id}
use mock_salesforce.Store.Records.{
  at, stored_at, at-write, at-erase, records-update_indexes, records-remove_from_indexes,
  copy_record_lem,
}
use mock_salesforce.Store.Entries.{
  has, ids_at, indexed, holds, has-update_indexes, indexed-update_indexes, has-remove_from_indexes,
  indexed-remove_from_indexes,
}

-- Every record stands in the index under the value of each of its indexed fields.
pub record IsComplete (s : MemoryStore) : Type 0 where
  pub complete :
      (t id f v : Bytes) (r : Record)
      → at s t id ≡ some r
      → indexed s t f ≡ true
      → holds r f v ≡ true
      → has id (ids_at s t f v) ≡ true

-- A write of a record and `updateIndexes` keep the indexes complete.
write-IsComplete :
    (s : MemoryStore) (t id : Bytes) (new : Record)
    → IsComplete s
    → IsComplete (
        update_indexes
          (record s {
            records = insert t (insert id new (or_empty (lookup t s.records))) s.records;
          })
          t
          id
          new)
write-IsComplete s t id new c = record {
  complete = λ u j f v r e i h.
      let written : MemoryStore = record s {
        records = insert t (insert id new (or_empty (lookup t s.records))) s.records;
      } in
      ground (
        arith,
        has-update_indexes id new written t u f v j,
        indexed-update_indexes id new written t u f,
        records-update_indexes written t id new,
        at-write s.records t id new u j,
        c.complete u j f v r,
        str_eq_iff t u,
        str_eq_iff id j,
      );
}

-- `Create` keeps the indexes complete.
pub create-IsComplete :
    (s : MemoryStore) (random t : Bytes) (r : Record)
    → IsComplete s
    → IsComplete (create s random t r).1
unfolding create
create-IsComplete s random t r c =
    rw copy_record_lem (write-IsComplete s t (id_for random t r) (with_id random t r) c)

-- `Update` and `Delete` keep a property of the store when they succeed.
abbrev pub Keeps : (MemoryStore → Type 0) → Result MemoryStore → Type 0
Keeps P (ok s) = P s
Keeps P (err e) = Unit

-- `Update` keeps the indexes complete.
pub update-IsComplete :
    (s : MemoryStore) (t id : Bytes) (patch : Record)
    → IsComplete s
    → Keeps IsComplete (update s t id patch)
unfolding update
update-IsComplete s t id patch c = elim (Option-cases (at s t id)) [
  | inl e ↦ rw (e, update) tt
  | inr (old, e) ↦ rw (e, update) (write-IsComplete s t id (merge patch old) c)
]

erase-IsComplete :
    (s : MemoryStore) (t id : Bytes)
    → IsComplete s
    → (let s' = remove_from_indexes s t id in
        IsComplete
          (record s' { records = insert t (erase id (or_empty (lookup t s'.records))) s'.records }))
erase-IsComplete s t id c = record {
  complete = λ u j f v r e i h. ground (
    arith,
    has-remove_from_indexes s t id u f v j,
    indexed-remove_from_indexes s t id u f,
    records-remove_from_indexes s t id,
    at-erase s.records t id u j,
    c.complete u j f v r,
    str_eq_iff t u,
    str_eq_iff id j,
  );
}

-- `Delete` keeps the indexes complete.
pub delete-IsComplete :
    (s : MemoryStore) (t id : Bytes) → IsComplete s → Keeps IsComplete (delete s t id)
unfolding delete
delete-IsComplete s t id c = elim (Option-cases (at s t id)) [
  | inl e ↦ rw (e, delete) tt
  | inr (old, e) ↦ rw (e, delete) (erase-IsComplete s t id c)
]

-- A deleted id stands in no index of its object type.
pub delete-leaves :
    (s : MemoryStore) (t id f v : Bytes)
    → Keeps (λ s'. has id (ids_at s' t f v) ≡ false) (delete s t id)
unfolding delete
delete-leaves s t id f v = elim (Option-cases (at s t id)) [
  | inl e ↦ rw (e, delete) tt
  | inr (old, e) ↦
      rw (e, delete)
        (ground (arith, has-remove_from_indexes s t id t f v id, str_eq_refl t, str_eq_refl id))
]

-- After an `Update` that succeeds, an id stands under a value exactly if it stood there before, or is
-- the updated one, of the object type, and the value is that of an indexed field of the record with
-- the patch and is not empty: each other id stays, and so does the updated one under its old values.
pub ids_at-update :
    (s s' : MemoryStore) (t id : Bytes) (patch old : Record) (u f v j : Bytes)
    → get_record s t id ≡ ok old
    → update s t id patch ≡ ok s'
    → has j (ids_at s' u f v) ≡ (
        has j (ids_at s u f v)
        || str_eq t u && indexed s t f && holds (merge patch old) f v && str_eq id j)
unfolding update
ids_at-update s s' t id patch old u f v j g h =
    let here : at s t id ≡ some old = stored_at s t id old (at s t id) refl g in
    let written : MemoryStore = record s {
      records = insert t (insert id (merge patch old) (or_empty (lookup t s.records))) s.records;
    } in
    let q : ok (update_indexes written t id (merge patch old)) ≡ ok s' = rw (here, update) at h in
    let same : update_indexes written t id (merge patch old) ≡ s' = cc in
    rw (sym same) (has-update_indexes id (merge patch old) written t u f v j)
