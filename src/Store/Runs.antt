-- ===== src/Store/Runs.antt =====
-- The store over runs of its operations (internal/store/memory.go), against a map from object types and
-- ids to records.
use mock_salesforce.Base.{
  ◌≡◌, refl, sym, ap, ap₂, ◌∙◌, ◌⊎◌, inl, inr, true, ◌&&◌, Option, none, some, List, [], ◌∷◌, Bytes,
  Assoc, str_eq, str_eq_iff, lookup, Option-cases, Bool-cases, arith, fun_ext, if◌then◌else◌,
}
use mock_salesforce.Value.{Record}
use mock_salesforce.Value.Access.{merge}
use mock_salesforce.Store.Types.{MemoryStore, Result, ok, err, or_empty, new_memory_store}
use mock_salesforce.Store.Methods.{
  create, update, delete, clear, id_for, with_id, get_by_index, records_of,
}
use mock_salesforce.Store.Records.{
  at, at-create, at-write, at-erase, records-update_indexes, records-remove_from_indexes,
  copy_record_lem,
}
use mock_salesforce.Store.Entries.{has, ids_at, indexed, holds}
use mock_salesforce.Store.Index.{
  IsComplete, Keeps, create-IsComplete, update-IsComplete, delete-IsComplete,
}

-- The operations that change the store, each with its arguments.
pub data Operation : Type 0 where
  created : Bytes → Bytes → Record → Operation
  updated : Bytes → Bytes → Record → Operation
  deleted : Bytes → Bytes → Operation
  cleared : Operation

-- A failed operation leaves the store as it is.
abbrev pub or_same : MemoryStore → Result MemoryStore → MemoryStore
or_same s (ok s') = s'
or_same s (err e) = s

abbrev pub perform : Operation → MemoryStore → MemoryStore
perform (created random t r) s = (create s random t r).1
perform (updated t id patch) s = or_same s (update s t id patch)
perform (deleted t id) s = or_same s (delete s t id)
perform cleared s = clear s

abbrev pub run : List Operation → MemoryStore → MemoryStore
run [] s = s
run (op ∷ ops) s = run ops (perform op s)

-- The store as it is seen: the record under an object type and an id.
abbrev pub View : Type 0
View = Bytes → Bytes → Option Record

abbrev pub patch_over : Record → Option Record → Option Record
patch_over patch none = none
patch_over patch (some r) = some (merge patch r)

-- What an operation does to the view.
abbrev pub effect : Operation → View → View
effect (created random t r) v u j =
    if str_eq t u && str_eq (id_for random t r) j then some (with_id random t r) else v u j
effect (updated t id patch) v u j =
    if str_eq t u && str_eq id j then patch_over patch (v u j) else v u j
effect (deleted t id) v u j = if str_eq t u && str_eq id j then none else v u j
effect cleared v u j = none

abbrev pub replay : List Operation → View → View
replay [] v = v
replay (op ∷ ops) v = replay ops (effect op v)

-- The same place of the view.
same_at :
    (s : MemoryStore) (t id u j : Bytes) → (str_eq t u && str_eq id j) ≡ true → at s u j ≡ at s t id
same_at s t id u j h =
    let p : t ≡ u = (str_eq_iff t u).0 (ground arith) in
    let q : id ≡ j = (str_eq_iff id j).0 (ground arith) in ap₂ (λ x y. at s x y) (sym p) (sym q)

updated_at :
    (s : MemoryStore) (t id : Bytes) (patch : Record) (u j : Bytes) (o : Option Record)
    → at s t id ≡ o
    → at (or_same s (update s t id patch)) u j ≡ effect (updated t id patch) (at s) u j
unfolding update
updated_at s t id patch u j none e = elim (Bool-cases (str_eq t u && str_eq id j)) [
  | inl h ↦
      let gone : at s u j ≡ none = same_at s t id u j h ∙ e in
      rw (e, update, h) (gone ∙ sym (ap (patch_over patch) gone))
  | inr h ↦ rw (e, update, h) refl
]
updated_at s t id patch u j (some old) e =
    let written = at-write s.records t id (merge patch old) u j in
    elim (Bool-cases (str_eq t u && str_eq id j)) [
      | inl h ↦
          rw (e, update, records-update_indexes, written, h)
            (sym (ap (patch_over patch) (same_at s t id u j h ∙ e)))
      | inr h ↦ rw (e, update, records-update_indexes, written, h) refl
    ]

deleted_at :
    (s : MemoryStore) (t id u j : Bytes) (o : Option Record)
    → at s t id ≡ o
    → at (or_same s (delete s t id)) u j ≡ effect (deleted t id) (at s) u j
unfolding delete
deleted_at s t id u j none e = elim (Bool-cases (str_eq t u && str_eq id j)) [
  | inl h ↦ rw (e, delete, h) (same_at s t id u j h ∙ e)
  | inr h ↦ rw (e, delete, h) refl
]
deleted_at s t id u j (some old) e =
    rw (e, delete, records-remove_from_indexes) (at-erase s.records t id u j)

perform_at :
    (op : Operation) (s : MemoryStore) (u j : Bytes) → at (perform op s) u j ≡ effect op (at s) u j
unfolding clear lookup
perform_at (created random t r) s u j = at-create s random t r u j
perform_at (updated t id patch) s u j = updated_at s t id patch u j (at s t id) refl
perform_at (deleted t id) s u j = deleted_at s t id u j (at s t id) refl
perform_at cleared s u j = refl

-- After any operations, the record under each object type and id is what the same operations leave of
-- a plain map: creations and patches write it, deletions and clearing take it out, and operations that
-- fail do nothing.
pub run-replay :
    (ops : List Operation) (s : MemoryStore) (u j : Bytes)
    → at (run ops s) u j ≡ replay ops (at s) u j
run-replay [] s u j = refl
run-replay (op ∷ ops) s u j =
    run-replay ops (perform op s) u j
    ∙ ap (λ v. replay ops v u j) (fun_ext (λ x. fun_ext (perform_at op s x)))

or_same-IsComplete :
    (s : MemoryStore) (r : Result MemoryStore)
    → IsComplete s
    → Keeps IsComplete r
    → IsComplete (or_same s r)
or_same-IsComplete s (ok s') c k = k
or_same-IsComplete s (err e) c k = c

perform-IsComplete : (op : Operation) (s : MemoryStore) → IsComplete s → IsComplete (perform op s)
unfolding clear lookup
perform-IsComplete (created random t r) s c = create-IsComplete s random t r c
perform-IsComplete (updated t id patch) s c =
    or_same-IsComplete s (update s t id patch) c (update-IsComplete s t id patch c)
perform-IsComplete (deleted t id) s c =
    or_same-IsComplete s (delete s t id) c (delete-IsComplete s t id c)
perform-IsComplete cleared s c = record { complete = λ t id f v r a i h. ground arith }

run-IsComplete : (ops : List Operation) (s : MemoryStore) → IsComplete s → IsComplete (run ops s)
run-IsComplete [] s c = c
run-IsComplete (op ∷ ops) s c = run-IsComplete ops (perform op s) (perform-IsComplete op s c)

-- The record is in the list.
abbrev pub IsIn : Record → List Record → Type 0
IsIn r [] = ⊥
IsIn r (q ∷ qs) = (q ≡ r) ⊎ IsIn r qs

records_of-IsIn :
    (objects : Assoc Record) (id : Bytes) (r : Record) (ids : List Bytes)
    → lookup id objects ≡ some r
    → has id ids ≡ true
    → IsIn r (records_of objects ids)
unfolding records_of
records_of-IsIn objects id r [] e h = ground arith
records_of-IsIn objects id r (j ∷ ids) e h = elim (Bool-cases (str_eq j id)) [
  | inl q ↦
      let f : lookup j objects ≡ some r = ap (λ x. lookup x objects) ((str_eq_iff j id).0 q) ∙ e in
      rw (f, records_of) (inl (copy_record_lem r))
  | inr q ↦
      let rest = records_of-IsIn objects id r ids e (rw q at h) in
      elim (Option-cases (lookup j objects)) [
        | inl f ↦ rw (f, records_of) rest
        | inr (x, f) ↦ rw (f, records_of) (inr rest)
      ]
]

new_memory_store-IsComplete : IsComplete new_memory_store
unfolding lookup
new_memory_store-IsComplete = record { complete = λ t id f v r a i h. ground arith }

-- After any operations on an empty store, `GetByIndex` finds every record that is stored, under the
-- value of each of its indexed fields, if that is a text that is not empty.
pub get_by_index-run :
    (ops : List Operation) (t id f v : Bytes) (r : Record)
    → (let s = run ops new_memory_store in
        at s t id ≡ some r
        → indexed s t f ≡ true
        → holds r f v ≡ true
        → IsIn r (get_by_index s t f v))
unfolding get_by_index
get_by_index-run ops t id f v r e i h =
    let s = run ops new_memory_store in
    let c = run-IsComplete ops new_memory_store new_memory_store-IsComplete in
    records_of-IsIn (or_empty (lookup t s.records)) id r (ids_at s t f v) e
      (c.complete t id f v r e i h)
