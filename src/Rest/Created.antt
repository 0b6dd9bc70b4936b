-- ===== src/Rest/Created.antt =====
-- The fields of the record that a POST creates (internal/handlers/sobject.go,
-- internal/store/memory.go).
use mock_salesforce.Base.{
  ◌≡◌, refl, sym, ap, ◌∙◌, ◌⊎◌, inl, inr, true, false, Option, none, some, Bytes, codes, str_eq,
  str_eq_iff, Bool-cases, Option-cases, is_empty, arith, ◌++◌, if◌then◌else◌,
}
use mock_salesforce.Value.{Value, str, object, Record, no_fields, field}
use mock_salesforce.Value.Access.{get, or_nil, find, put, find-put}
use mock_salesforce.Store.{as_string, with_id, id_for}
use mock_salesforce.Rest.{Reply, found, record_url, dated}

-- The value of CreatedDate after a POST: the time, if the body has none.
abbrev pub created_date : Bytes → Option Value → Value
created_date now none = str now
created_date now (some v) = v

-- The fields of a record that a POST of these values created: those that the server writes, and else
-- those of the values.
abbrev pub created_field : Bytes → Bytes → Bytes → Record → Bytes → Option Value
created_field now t id values f =
    if str_eq (codes "attributes") f
    then some (
        object (
          field (codes "type") (str t) (
            field (codes "url")
              (str (codes "/services/data/v66.0/sobjects/" ++ t ++ codes "/" ++ id)) no_fields)))
    else if str_eq (codes "Id") f
    then some (str id)
    else if str_eq (codes "CreatedDate") f
    then some (created_date now (find (codes "CreatedDate") values))
    else find f values

-- The reply shows the record with these fields; its id is the one of the values, if they have one
-- that is a text and not empty.
abbrev pub IsCreated : Bytes → Bytes → Bytes → Record → Reply → Type 0
IsCreated now t id values reply =
    ((is_empty (as_string (get (codes "Id") values)) ≡ true)
      ⊎ (as_string (get (codes "Id") values) ≡ id))
    × ((r : Record) × (reply ≡ found r)
        × ((f : Bytes) → find f r ≡ created_field now t id values f))

find-dated :
    (now : Bytes) (values : Record) (f : Bytes)
    → find f (dated now values) ≡ (
        if str_eq (codes "CreatedDate") f
        then some (created_date now (find (codes "CreatedDate") values))
        else find f values)
unfolding dated
find-dated now values f = elim (Option-cases (find (codes "CreatedDate") values)) [
  | inl e ↦ rw (e, dated) (find-put (codes "CreatedDate") f (str now) values)
  | inr (v, e) ↦
      rw (e, dated)
        (elim (Bool-cases (str_eq (codes "CreatedDate") f)) [
          | inl h ↦ rw h (ap (λ k. find k values) (sym ((str_eq_iff _ f).0 h)) ∙ e)
          | inr h ↦ rw h refl
        ])
]

is_str :
    (o : Option Value)
    → is_empty (as_string (or_nil o)) ≡ false
    → o ≡ some (str (as_string (or_nil o)))
unfolding is_empty
is_str (some (str s)) h = refl
is_str none h = absurd (ground arith)
is_str (some _) h = absurd (ground arith)

id_for-given :
    (random t : Bytes) (r : Record)
    → is_empty (as_string (get (codes "Id") r)) ≡ false
    → id_for random t r ≡ as_string (get (codes "Id") r)
unfolding id_for
id_for-given random t r e = rw e refl

with_id-given :
    (random t : Bytes) (r : Record)
    → is_empty (as_string (get (codes "Id") r)) ≡ false
    → with_id random t r ≡ r
unfolding with_id
with_id-given random t r e = rw e refl

with_id-new :
    (random t : Bytes) (r : Record)
    → is_empty (as_string (get (codes "Id") r)) ≡ true
    → with_id random t r ≡ put (codes "Id") (str (id_for random t r)) r
unfolding with_id
with_id-new random t r e = rw e refl

given_Id :
    (random t : Bytes) (r : Record) (f : Bytes)
    → is_empty (as_string (get (codes "Id") r)) ≡ false
    → find f r ≡ (if str_eq (codes "Id") f then some (str (id_for random t r)) else find f r)
unfolding get
given_Id random t r f e = elim (Bool-cases (str_eq (codes "Id") f)) [
  | inl h ↦
      rw (h, id_for-given random t r e)
        (ap (λ k. find k r) (sym ((str_eq_iff _ f).0 h)) ∙ is_str (find (codes "Id") r) e)
  | inr h ↦ rw h refl
]

find-with_id :
    (random t : Bytes) (r : Record) (f : Bytes)
    → find f (with_id random t r)
      ≡ (if str_eq (codes "Id") f then some (str (id_for random t r)) else find f r)
find-with_id random t r f = elim (Bool-cases (is_empty (as_string (get (codes "Id") r)))) [
  | inl e ↦
      ap (find f) (with_id-new random t r e) ∙ find-put (codes "Id") f (str (id_for random t r)) r
  | inr e ↦ ap (find f) (with_id-given random t r e) ∙ given_Id random t r f e
]

get_Id-dated :
    (now : Bytes) (values : Record) → get (codes "Id") (dated now values) ≡ get (codes "Id") values
unfolding get str_eq
get_Id-dated now values = ap or_nil (find-dated now values (codes "Id"))

pub given_or_new :
    (now random t : Bytes) (values : Record)
    → (is_empty (as_string (get (codes "Id") values)) ≡ true)
      ⊎ (as_string (get (codes "Id") values) ≡ id_for random t (dated now values))
given_or_new now random t values =
    elim (Bool-cases (is_empty (as_string (get (codes "Id") values)))) [
      | inl e ↦ inl e
      | inr e ↦
          let same = get_Id-dated now values in
          let given : is_empty (as_string (get (codes "Id") (dated now values))) ≡ false =
            ap (λ v. is_empty (as_string v)) same ∙ e in
          inr (sym (id_for-given random t (dated now values) given ∙ ap as_string same))
    ]

pub created_fields :
    (now random t : Bytes) (values : Record) (f : Bytes)
    → find f (
        put
          (codes "attributes")
          (object (
            field (codes "type") (str t) (
              field
                (codes "url")
                (str (record_url t (id_for random t (dated now values))))
                no_fields)))
          (with_id random t (dated now values)))
      ≡ created_field now t (id_for random t (dated now values)) values f
unfolding record_url
created_fields now random t values f =
    find-put (codes "attributes") f _ (with_id random t (dated now values))
    ∙ rw (find-with_id random t (dated now values) f, find-dated now values f) refl
