-- ===== src/Store/Records.antt =====
-- The records under the methods of the store (internal/store/memory.go).
use mock_salesforce.Base.{
  ◌≡◌, refl, sym, ◌∙◌, ap, ◌&&◌, Option, none, some, Bytes, str_eq, str_eq_iff, Assoc, lookup,
  insert, erase, lookup-insert, lookup-erase, arith, if◌then◌else◌,
}
use mock_salesforce.Value.{Value, object, Record, Fields, no_fields, field}
use mock_salesforce.Value.Access.{merge}
use mock_salesforce.Store.Types.{
  MemoryStore, Result, ok, err, not_found, or_empty, copy_record, copy_value,
}
use mock_salesforce.Store.Indexing.{update_indexes, remove_from_indexes}
use mock_salesforce.Store.Methods.{get_record, create, update, delete, id_for, with_id}

-- A deep copy holds what the record holds.
mutual
  unfolding copy_record

  copy_record-eq : (r : Fields) → copy_record r ≡ r
  copy_record-eq no_fields = refl
  copy_record-eq (field k v r) = λ i. field k (copy_value-eq v i) (copy_record-eq r i)

  copy_value-eq : (v : Value) → copy_value v ≡ v
  copy_value-eq (object r) = ap object (copy_record-eq r)
  copy_value-eq _ = refl

pub copy_record_lem : (r : Fields) → copy_record r ≡ r
copy_record_lem = copy_record-eq

-- The record at an id, if there is one.
abbrev pub at : MemoryStore → Bytes → Bytes → Option Record
at s t id = lookup id (or_empty (lookup t s.records))

abbrev pub found : Option Record → Result Record
found none = err not_found
found (some r) = ok r

copied :
    (o : Option Record) → elim o [ none ↦ err not_found | some r ↦ ok (copy_record r) ] ≡ found o
copied none = refl
copied (some r) = ap ok (copy_record_lem r)

-- `Get` returns the record that is stored, or ErrNotFound.
pub get_record-at : (s : MemoryStore) (t id : Bytes) → get_record s t id ≡ found (at s t id)
unfolding get_record
get_record-at s t id = copied (at s t id)

-- What `Get` finds is what is stored.
pub stored_at :
    (s : MemoryStore) (t id : Bytes) (old : Record) (o : Option Record)
    → at s t id ≡ o
    → get_record s t id ≡ ok old
    → o ≡ some old
stored_at s t id old none e h =
    let bad : err not_found ≡ ok old = sym (get_record-at s t id ∙ ap found e) ∙ h in cc
stored_at s t id old (some r) e h =
    let good : ok r ≡ ok old = sym (get_record-at s t id ∙ ap found e) ∙ h in
    let same : r ≡ old = cc in ap some same

pub records-update_indexes :
    (s : MemoryStore) (t id : Bytes) (r : Record) → (update_indexes s t id r).records ≡ s.records
unfolding update_indexes
records-update_indexes s t id r = ground arith

pub records-remove_from_indexes :
    (s : MemoryStore) (t id : Bytes) → (remove_from_indexes s t id).records ≡ s.records
unfolding remove_from_indexes
records-remove_from_indexes s t id = ground arith

-- A write to one inner map of a map of maps, as any reader sees it.
module _ {ℓ} {V : Type ℓ} where
  pub at-insert :
      (m : Assoc (Assoc V)) (t : Bytes) (table : Assoc V) (u j : Bytes)
      → lookup j (or_empty (lookup u (insert t table m)))
        ≡ (if str_eq t u then lookup j table else lookup j (or_empty (lookup u m)))
  at-insert m t table u j = simp lookup-insert (ground arith)

  pub at-write :
      (m : Assoc (Assoc V)) (t id : Bytes) (r : V) (u j : Bytes)
      → lookup j (or_empty (lookup u (insert t (insert id r (or_empty (lookup t m))) m)))
        ≡ (if str_eq t u && str_eq id j then some r else lookup j (or_empty (lookup u m)))
  at-write m t id r u j =
      rw (at-insert m t (insert id r (or_empty (lookup t m))) u j)
        (ground (arith, lookup-insert id j r (or_empty (lookup t m)), str_eq_iff t u))

  pub at-erase :
      (m : Assoc (Assoc V)) (t id u j : Bytes)
      → lookup j (or_empty (lookup u (insert t (erase id (or_empty (lookup t m))) m)))
        ≡ (if str_eq t u && str_eq id j then none else lookup j (or_empty (lookup u m)))
  at-erase m t id u j =
      rw (at-insert m t (erase id (or_empty (lookup t m))) u j)
        (ground (arith, lookup-erase id j (or_empty (lookup t m)), str_eq_iff t u))

pub at-create :
    (s : MemoryStore) (random t : Bytes) (r : Record) (u j : Bytes)
    → at (create s random t r).1 u j
      ≡ (if str_eq t u && str_eq (id_for random t r) j then some (with_id random t r) else at s u j)
unfolding create
at-create s random t r u j =
    rw records-update_indexes
      (rw copy_record_lem (at-write s.records t (id_for random t r) (with_id random t r) u j))

-- After `Create`, `Get` finds the record, with its Id, under the id returned, and any other pair
-- of an object type and an id as before.
pub get_record-create :
    (s : MemoryStore) (random t : Bytes) (r : Record) (u j : Bytes)
    → get_record (create s random t r).1 u j ≡ (
        if str_eq t u && str_eq (create s random t r).0 j
        then ok (with_id random t r)
        else get_record s u j)
get_record-create s random t r u j =
    rw (get_record-at, get_record-at s u j, at-create s random t r u j)
      (unfold create in ground arith)

-- The outcome of `Update`, from the record that it finds.
abbrev pub Updates :
    MemoryStore → Bytes → Bytes → Record → Option Record → Result MemoryStore → Type 0
Updates s t id patch none r = r ≡ err not_found
Updates s t id patch (some old) (err e) = ⊥
Updates s t id patch (some old) (ok s') =
    (u j : Bytes)
    → get_record s' u j
      ≡ (if str_eq t u && str_eq id j then ok (merge patch old) else get_record s u j)

update_cases :
    (s : MemoryStore) (t id : Bytes) (patch : Record) (o : Option Record)
    → at s t id ≡ o
    → Updates s t id patch o (update s t id patch)
unfolding update
update_cases s t id patch none e = rw (e, update)
update_cases s t id patch (some old) e =
    rw (e, update)
      (λ u j.
        rw
          (
            get_record-at,
            get_record-at s u j,
            records-update_indexes,
            at-write s.records t id (merge patch old) u j,
          )
          (ground arith))

-- `Update` fails with ErrNotFound exactly when the record is absent; otherwise `Get` finds the
-- fields of the patch written over the old record, and every other record as before.
pub update-Updates :
    (s : MemoryStore) (t id : Bytes) (patch : Record)
    → Updates s t id patch (at s t id) (update s t id patch)
update-Updates s t id patch = update_cases s t id patch (at s t id) refl

abbrev pub Deletes : MemoryStore → Bytes → Bytes → Option Record → Result MemoryStore → Type 0
Deletes s t id none r = r ≡ err not_found
Deletes s t id (some old) (err e) = ⊥
Deletes s t id (some old) (ok s') =
    (u j : Bytes)
    → get_record s' u j ≡ (if str_eq t u && str_eq id j then err not_found else get_record s u j)

delete_cases :
    (s : MemoryStore) (t id : Bytes) (o : Option Record)
    → at s t id ≡ o
    → Deletes s t id o (delete s t id)
unfolding delete
delete_cases s t id none e = rw (e, delete)
delete_cases s t id (some old) e =
    rw (e, delete)
      (λ u j.
        rw
          (
            get_record-at,
            get_record-at s u j,
            records-remove_from_indexes,
            at-erase s.records t id u j,
          )
          (ground arith))

-- `Delete` fails with ErrNotFound exactly when the record is absent; otherwise it is gone for
-- `Get`, and every other record is as before.
pub delete-Deletes : (s : MemoryStore) (t id : Bytes) → Deletes s t id (at s t id) (delete s t id)
delete-Deletes s t id = delete_cases s t id (at s t id) refl
