-- ===== src/Rest/Stored.antt =====
-- Records through the REST handlers (internal/handlers/sobject.go, internal/store/memory.go).
use mock_salesforce.Base.{
  ◌≡◌, refl, sym, ap, ◌∙◌, subst, ◌⊎◌, inl, inr, Option, none, some, Bytes, codes, str_eq,
  str_eq_refl,
}
use mock_salesforce.Value.{str, object, Record, no_fields, field}
use mock_salesforce.Value.Access.{find, put, remove, merge, find-put, find-remove, find-merge}
use mock_salesforce.Store.{
  MemoryStore, Result, ok, err, not_found, get_record, create, update, delete, with_id, id_for,
}
use mock_salesforce.Store.Records
use mock_salesforce.Store.Records.{
  at, stored_at, get_record-at, get_record-create, Updates, update-Updates, Deletes, delete-Deletes,
}
use mock_salesforce.Rest.Created.{IsCreated, given_or_new, created_fields}
use mock_salesforce.Rest.{
  Reply, api_error, found, created, Decoded, Body, refused, accepted, record_url, store_failure,
  handle_get, read_body, dated, handle_create, stamped, handle_update, handle_delete,
}

-- The record as `HandleGet` shows it.
abbrev pub shown : Bytes → Bytes → Record → Reply
shown t id r = found (
    put (codes "attributes")
      (object
        (field (codes "type") (str t) (field (codes "url") (str (record_url t id)) no_fields)))
      r)

get_ok :
    (t id : Bytes) (s : MemoryStore) (r : Record)
    → get_record s t id ≡ ok r
    → handle_get t id s ≡ shown t id r
unfolding handle_get
get_ok t id s r e = rw (e, handle_get) refl

shown_after :
    (unmarshal : Bytes → Decoded) (now random t : Bytes) (body : Option Bytes) (s : MemoryStore)
    (values : Record)
    → read_body unmarshal body ≡ accepted values
    → (let id = id_for random t (dated now values) in
        handle_get t id (handle_create unmarshal now random t body s).1
        ≡ shown t id (with_id random t (dated now values)))
unfolding handle_create create
shown_after unmarshal now random t body s values e =
    let id = id_for random t (dated now values) in
    let s' = (create s random t (dated now values)).1 in
    let stored : (handle_create unmarshal now random t body s).1 ≡ s' =
      rw (e, handle_create) refl in
    ap (handle_get t id) stored
    ∙ get_ok t id s' (with_id random t (dated now values)) (
        get_record-create s random t (dated now values) t id
        ∙ rw (str_eq_refl t, str_eq_refl id) refl)

-- A record that a POST creates is what a GET of its id shows: with its attributes, its Id, which is
-- the one of the body if it has one, the time as its CreatedDate if the body has none, and the other
-- values of the body.
pub handle_get-handle_create :
    (unmarshal : Bytes → Decoded) (now random t : Bytes) (body : Option Bytes) (s : MemoryStore)
    (values : Record) (id : Bytes)
    → read_body unmarshal body ≡ accepted values
    → (handle_create unmarshal now random t body s).0 ≡ created id
    → IsCreated now t id values (handle_get t id (handle_create unmarshal now random t body s).1)
unfolding handle_create create
handle_get-handle_create unmarshal now random t body s values id e h =
    let q : created (id_for random t (dated now values)) ≡ created id =
      rw (e, handle_create) at h in
    let same : id_for random t (dated now values) ≡ id = cc in
    subst
      (λ i.
        IsCreated now t i values (handle_get t i (handle_create unmarshal now random t body s).1))
      same
      (
        given_or_new now random t values,
        (_, shown_after unmarshal now random t body s values e, created_fields now random t values),
      )

same_id :
    (now : Bytes) (values old : Record)
    → find (codes "Id") (merge (stamped now values) old) ≡ find (codes "Id") old
unfolding stamped str_eq
same_id now values old = find-merge (codes "Id") (stamped now values) old (
    rw
      (
        find-put (codes "LastModifiedDate") (codes "Id") (str now) (remove (codes "Id") values),
        find-remove (codes "Id") (codes "Id") values,
      )
      refl)

-- The record is there, with the Id of the old one.
abbrev pub KeepsId : Bytes → Bytes → Record → MemoryStore → Type 0
KeepsId t id old s =
    (new : Record) × (get_record s t id ≡ ok new) × (find (codes "Id") new ≡ find (codes "Id") old)

-- The store after an update, or the old one.
abbrev after : MemoryStore → Result MemoryStore → MemoryStore
after s (ok s') = s'
after s (err e) = s

handle_update-accepted :
    (unmarshal : Bytes → Decoded) (now t id : Bytes) (body : Option Bytes) (s : MemoryStore)
    (values : Record) (u : Result MemoryStore)
    → read_body unmarshal body ≡ accepted values
    → update s t id (stamped now values) ≡ u
    → (handle_update unmarshal now t id body s).1 ≡ after s u
unfolding handle_update
handle_update-accepted unmarshal now t id body s values (ok s') e f = rw (e, handle_update, f) refl
handle_update-accepted unmarshal now t id body s values (err x) e f = rw (e, handle_update, f) refl

updated-KeepsId :
    (now t id : Bytes) (s : MemoryStore) (values old : Record) (u : Result MemoryStore)
    → Updates s t id (stamped now values) (some old) u
    → KeepsId t id old (after s u)
updated-KeepsId now t id s values old (err x) h = absurd h
updated-KeepsId now t id s values old (ok s') h = (
  merge (stamped now values) old,
  h t id ∙ rw (str_eq_refl t, str_eq_refl id) refl,
  same_id now values old,
)

body_cases :
    (b : Body)
    → ((reply : Reply) × (b ≡ refused reply)) ⊎ ((values : Record) × (b ≡ accepted values))
body_cases (refused reply) = inl (reply, refl)
body_cases (accepted values) = inr (values, refl)

-- A PATCH of any body leaves the record there, with the Id that it had.
pub handle_update-KeepsId :
    (unmarshal : Bytes → Decoded) (now t id : Bytes) (body : Option Bytes) (s : MemoryStore)
    (old : Record)
    → get_record s t id ≡ ok old
    → KeepsId t id old (handle_update unmarshal now t id body s).1
unfolding handle_update
handle_update-KeepsId unmarshal now t id body s old h =
    elim (body_cases (read_body unmarshal body)) [
      | inl (reply, e) ↦ rw (e, handle_update) (old, h, refl)
      | inr (values, e) ↦
          let u = update s t id (stamped now values) in
          subst (KeepsId t id old)
            (sym (handle_update-accepted unmarshal now t id body s values u e refl))
            (updated-KeepsId now t id s values old u (
              subst (λ o. Updates s t id (stamped now values) o u)
                (stored_at s t id old (at s t id) refl h)
                (update-Updates s t id (stamped now values))))
    ]

get_missing :
    (t id : Bytes) (s : MemoryStore)
    → get_record s t id ≡ err not_found
    → handle_get t id s ≡ api_error 404 (codes "NOT_FOUND")
unfolding handle_get store_failure
get_missing t id s e = rw (e, handle_get) refl

handle_delete-after :
    (t id : Bytes) (s : MemoryStore) (u : Result MemoryStore)
    → delete s t id ≡ u
    → (handle_delete t id s).1 ≡ after s u
unfolding handle_delete
handle_delete-after t id s (ok s') e = rw (e, handle_delete) refl
handle_delete-after t id s (err x) e = rw (e, handle_delete) refl

deleted_missing :
    (t id : Bytes) (s : MemoryStore) (o : Option Record) (u : Result MemoryStore)
    → at s t id ≡ o
    → Deletes s t id o u
    → get_record (after s u) t id ≡ err not_found
deleted_missing t id s none u e h =
    ap (λ x. get_record (after s x) t id) h ∙ get_record-at s t id ∙ ap Records.found e
deleted_missing t id s (some old) (err x) e h = absurd h
deleted_missing t id s (some old) (ok s') e h = h t id ∙ rw (str_eq_refl t, str_eq_refl id) refl

-- After a DELETE, whether it found the record or not, a GET replies 404.
pub handle_get-handle_delete :
    (t id : Bytes) (s : MemoryStore)
    → handle_get t id (handle_delete t id s).1 ≡ api_error 404 (codes "NOT_FOUND")
handle_get-handle_delete t id s =
    ap (handle_get t id) (handle_delete-after t id s (delete s t id) refl)
    ∙ get_missing t id (after s (delete s t id))
        (deleted_missing t id s (at s t id) (delete s t id) refl (delete-Deletes s t id))
