-- ===== src/Value/Access.antt =====
-- Reading and writing a `map[string]any`.
use mock_salesforce.Base.{
  Bool, true, false, ◌≡◌, refl, ◌∙◌, inl, inr, Bool-cases, Option, none, some, Bytes, arith, str_eq,
  str_eq_iff, if◌then◌else◌,
}
use mock_salesforce.Value.{Value, nil, object, Fields, no_fields, field}

-- `v, ok := r[k]`
unfoldable pub find : Bytes → Fields → Option Value
find k no_fields = none
find k (field j v r) = if str_eq j k then some v else find k r

abbrev pub or_nil : Option Value → Value
or_nil none = nil
or_nil (some v) = v

-- `r[k]`, which is nil for a missing key.
unfoldable pub get : Bytes → Fields → Value
get k r = or_nil (find k r)

-- `r[k] = v`
unfoldable pub put : Bytes → Value → Fields → Fields
put k v no_fields = field k v no_fields
put k v (field j w r) = if str_eq j k then field k v r else field j w (put k v r)

-- `delete(r, k)`
unfoldable pub remove : Bytes → Fields → Fields
remove k no_fields = no_fields
remove k (field j v r) = let rest = remove k r in if str_eq j k then rest else field j v rest

-- `for k, v := range patch { r[k] = v }`
unfoldable pub merge : Fields → Fields → Fields
merge no_fields r = r
merge (field k v patch) r = merge patch (put k v r)

-- `v.(map[string]any)`
abbrev pub as_object : Value → Option Fields
as_object (object r) = some r
as_object nil = none
as_object _ = none

-- `v == nil`
abbrev pub is_nil : Value → Bool
is_nil nil = true
is_nil _ = false

pub find-put :
    (k j : Bytes) (v : Value) (r : Fields)
    → find j (put k v r) ≡ (if str_eq k j then some v else find j r)
unfolding find put
find-put k j v no_fields = refl
find-put k j v (field i w r) =
    ground (arith, str_eq_iff k j, str_eq_iff i k, str_eq_iff i j, find-put k j v r)

pub find-remove :
    (k j : Bytes) (r : Fields) → find j (remove k r) ≡ (if str_eq k j then none else find j r)
unfolding find remove
find-remove k j no_fields = ground arith
find-remove k j (field i w r) =
    ground (arith, str_eq_iff k j, str_eq_iff i k, str_eq_iff i j, find-remove k j r)

-- A field that the patch does not have stays as it is.
pub find-merge :
    (k : Bytes) (patch r : Fields) → find k patch ≡ none → find k (merge patch r) ≡ find k r
unfolding find merge
find-merge k no_fields r h = refl
find-merge k (field j v patch) r h = elim (Bool-cases (str_eq j k)) [
  | inl e ↦ let bad : some v ≡ none = rw e at h in ground arith
  | inr e ↦ find-merge k patch (put j v r) (rw e at h) ∙ find-put j k v r ∙ rw e refl
]
