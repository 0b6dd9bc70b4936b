-- ===== src/Soql/Executor/Aggregate/Partition.antt =====
-- The groups of GROUP BY as a partition of the records (internal/soql/aggregate.go).
use mock_salesforce.Base.{
  ℕ, suc, ◌+◌, ◌≡◌, refl, sym, ap, ap₂, ◌∙◌, inl, inr, Bool-cases, Bool, true, false, ◌||◌, Option,
  none, some, List, [], ◌∷◌, ◌++◌, Bytes, str_eq, str_eq_iff, Assoc, lookup, insert, length,
  length-append, select, arith, if◌then◌else◌,
}
use mathlib.Core.List.{append-nil}
use mock_salesforce.Value.{Record, no_items}
use mock_salesforce.Soql.Ast.{Field}
use mock_salesforce.Soql.Executor.Runtime.{Runtime}
use mock_salesforce.Soql.Executor.Aggregate.Groups.{
  Group, group_key, append_at, hash, group_step, group_loop, group_records,
}

-- The number of records in the groups.
abbrev pub total : List Group → ℕ
total [] = 0
total (g ∷ gs) = length g.records + total gs

module _ (rt : Runtime) (fs : List Field) where
  -- The hash of the key of a group, and of a record.
  abbrev pub hash_of : Group → Bytes
  hash_of g = hash rt fs g.key

  abbrev pub record_hash : Record → Bytes
  record_hash r = hash rt fs (group_key fs r)

  -- The records of the first group under a hash.
  abbrev pub rows_of : Bytes → List Group → List Record
  rows_of h [] = []
  rows_of h (g ∷ gs) = if str_eq (hash_of g) h then g.records else rows_of h gs

  -- The index that belongs to groups, which stand from a position on.
  abbrev indexed : ℕ → List Group → Assoc ℕ
  indexed i [] = []
  indexed i (g ∷ gs) = (hash_of g, i) ∷ indexed (suc i) gs

  -- A record joins the first group under its hash, or is a new group at the end.
  abbrev joined : Record → List Group → List Group
  joined r [] = record { key = group_key fs r; records = r ∷ [] } ∷ []
  joined r (g ∷ gs) =
      if str_eq (hash_of g) (record_hash r)
      then record g { records = g.records ++ (r ∷ []) } ∷ gs
      else g ∷ joined r gs

  indexed-snoc :
      (i : ℕ) (r : Record) (gs : List Group)
      → lookup (record_hash r) (indexed i gs) ≡ none
      → (insert (record_hash r) (i + length gs) (indexed i gs) ≡ indexed i (joined r gs))
        × (gs ++ (record { key = group_key fs r; records = r ∷ [] } ∷ []) ≡ joined r gs)
  unfolding lookup insert
  indexed-snoc i r [] h = (let z : i + 0 ≡ i = omega arith in rw z refl, refl)
  indexed-snoc i r (g ∷ gs) h = elim (Bool-cases (str_eq (hash_of g) (record_hash r))) [
    | inl e ↦ let bad : some i ≡ none = rw e at h in ground arith
    | inr e ↦
        let (a, b) = indexed-snoc (suc i) r gs (rw e at h) in
        let z : i + suc (length gs) ≡ suc i + length gs = omega arith in
        (
          rw e (
              ap (λ x. (hash_of g, i) ∷ x)
                (ap (λ n. insert (record_hash r) n (indexed (suc i) gs)) z ∙ a)),
          rw e (ap (λ x. g ∷ x) b),
        )
  ]

  indexed-joined :
      (i j : ℕ) (r : Record) (gs : List Group)
      → lookup (record_hash r) (indexed i gs) ≡ some j
      → (d : ℕ) × (j ≡ i + d)
        × (append_at d r gs ≡ joined r gs)
        × (indexed i (joined r gs) ≡ indexed i gs)
  unfolding lookup append_at
  indexed-joined i j r [] h = ground arith
  indexed-joined i j r (g ∷ gs) h = elim (Bool-cases (str_eq (hash_of g) (record_hash r))) [
    | inl e ↦ let same : some i ≡ some j = rw e at h in (0, ground arith, rw e refl, rw e refl)
    | inr e ↦
        let (d, p, q, t) = indexed-joined (suc i) j r gs (rw e at h) in
        (suc d, omega arith, rw e (ap (λ x. g ∷ x) q), rw e (ap (λ x. (hash_of g, i) ∷ x) t))
  ]

  group_step_found :
      (r : Record) (gs : List Group) (o : Option ℕ)
      → lookup (record_hash r) (indexed 0 gs) ≡ o
      → group_step rt fs r (indexed 0 gs, gs) ≡ (indexed 0 (joined r gs), joined r gs)
  unfolding group_step
  group_step_found r gs none e =
      let (a, b) = indexed-snoc 0 r gs e in
      let z : 0 + length gs ≡ length gs = omega arith in
      rw (e, group_step)
        (ap₂ (λ x y. (x, y)) (ap (λ n. insert (record_hash r) n (indexed 0 gs)) (sym z) ∙ a) b)
  group_step_found r gs (some j) e =
      let (d, p, q, t) = indexed-joined 0 j r gs e in
      let z : j ≡ d = omega arith in
      rw (e, group_step) (ap₂ (λ x y. (x, y)) (sym t) (ap (λ n. append_at n r gs) z ∙ q))

  group_loop-joined :
      (r : Record) (rs : List Record) (gs : List Group)
      → group_loop rt fs (r ∷ rs) (indexed 0 gs, gs)
        ≡ group_loop rt fs rs (indexed 0 (joined r gs), joined r gs)
  unfolding group_loop
  group_loop-joined r rs gs =
      ap (group_loop rt fs rs) (group_step_found r gs (lookup (record_hash r) (indexed 0 gs)) refl)

  total-joined : (r : Record) (gs : List Group) → total (joined r gs) ≡ suc (total gs)
  total-joined r [] = refl
  total-joined r (g ∷ gs) =
      let z = length-append g.records (r ∷ []) in ground (arith, total-joined r gs)

  rows_of-joined :
      (h : Bytes) (r : Record) (gs : List Group)
      → rows_of h (joined r gs)
        ≡ (if str_eq (record_hash r) h then rows_of h gs ++ (r ∷ []) else rows_of h gs)
  rows_of-joined h r [] = ground arith
  rows_of-joined h r (g ∷ gs) = ground (
    arith,
    str_eq_iff (hash_of g) (record_hash r),
    str_eq_iff (hash_of g) h,
    str_eq_iff (record_hash r) h,
    rows_of-joined h r gs,
  )

  total-group_loop :
      (rs : List Record) (gs : List Group)
      → total (group_loop rt fs rs (indexed 0 gs, gs)).1 ≡ total gs + length rs
  unfolding group_loop
  total-group_loop [] gs = omega arith
  total-group_loop (r ∷ rs) gs =
      let e = total-group_loop rs (joined r gs) in
      let j = total-joined r gs in rw (group_loop-joined r rs gs) (omega arith)

  append_snoc :
      (xs : List Record) (r : Record) (ys : List Record) → (xs ++ (r ∷ [])) ++ ys ≡ xs ++ (r ∷ ys)
  append_snoc [] r ys = refl
  append_snoc (x ∷ xs) r ys = ap (λ z. x ∷ z) (append_snoc xs r ys)

  rows_of-group_loop :
      (h : Bytes) (rs : List Record) (gs : List Group)
      → rows_of h (group_loop rt fs rs (indexed 0 gs, gs)).1
        ≡ rows_of h gs ++ select (λ r. str_eq (record_hash r) h) rs
  unfolding group_loop
  rows_of-group_loop h [] gs = sym (append-nil (rows_of h gs))
  rows_of-group_loop h (r ∷ rs) gs =
      rw (group_loop-joined r rs gs, rows_of-group_loop h rs (joined r gs), rows_of-joined h r gs)
        (elim (Bool-cases (str_eq (record_hash r) h)) [
          | inl e ↦ rw e (append_snoc (rows_of h gs) r (select (λ x. str_eq (record_hash x) h) rs))
          | inr e ↦ rw e refl
        ])

  -- Some group has the hash.
  abbrev has : Bytes → List Group → Bool
  has h [] = false
  has h (g ∷ gs) = str_eq (hash_of g) h || has h gs

  -- No two groups have the same hash.
  abbrev pub IsDistinct : List Group → Type 0
  IsDistinct [] = Unit
  IsDistinct (g ∷ gs) = (has (hash_of g) gs ≡ false) × IsDistinct gs

  has-joined :
      (h : Bytes) (r : Record) (gs : List Group)
      → has h (joined r gs) ≡ (has h gs || str_eq (record_hash r) h)
  has-joined h r [] = ground arith
  has-joined h r (g ∷ gs) = ground (
    arith,
    str_eq_iff (hash_of g) (record_hash r),
    str_eq_iff (hash_of g) h,
    str_eq_iff (record_hash r) h,
    has-joined h r gs,
  )

  joined-IsDistinct : (r : Record) (gs : List Group) → IsDistinct gs → IsDistinct (joined r gs)
  joined-IsDistinct r [] d = (refl, tt)
  joined-IsDistinct r (g ∷ gs) (d, ds) = elim (Bool-cases (str_eq (hash_of g) (record_hash r))) [
    | inl e ↦ rw e (d, ds)
    | inr e ↦ rw e (
      ground (
        arith,
        has-joined (hash_of g) r gs,
        str_eq_iff (hash_of g) (record_hash r),
        str_eq_iff (record_hash r) (hash_of g),
      ),
      joined-IsDistinct r gs ds,
    )
  ]

  group_loop-IsDistinct :
      (rs : List Record) (gs : List Group)
      → IsDistinct gs
      → IsDistinct (group_loop rt fs rs (indexed 0 gs, gs)).1
  unfolding group_loop
  group_loop-IsDistinct [] gs d = d
  group_loop-IsDistinct (r ∷ rs) gs d =
      rw (group_loop-joined r rs gs)
        (group_loop-IsDistinct rs (joined r gs) (joined-IsDistinct r gs d))

  -- The groups hold as many records as there are, no two have the same key, and each key's group
  -- holds the records with that key, in their order.
  abbrev pub IsPartition : List Record → List Group → Type 0
  IsPartition rs gs =
      (total gs ≡ length rs)
      × IsDistinct gs
      × ((h : Bytes) → rows_of h gs ≡ select (λ r. str_eq (record_hash r) h) rs)

select_all {ℓ} : {A : Type ℓ} (xs : List A) → select (λ _. true) xs ≡ xs
select_all [] = refl
select_all (x ∷ xs) = ap (λ z. x ∷ z) (select_all xs)

select_none {ℓ} : {A : Type ℓ} (xs : List A) → select (λ _. false) xs ≡ []
select_none [] = refl
select_none (x ∷ xs) = select_none xs

-- GROUP BY partitions the records by the text of their keys: the groups hold as many records as
-- there are, no two groups have the same text, and the group of a text holds exactly the records
-- whose key has it, in their order. Without group fields there is one group.
pub group_records-IsPartition :
    (rt : Runtime) (fs : List Field) (rs : List Record)
    → IsPartition rt fs rs (group_records rt fs rs)
unfolding group_records group_key
group_records-IsPartition rt [] rs = (
  omega arith,
  (refl, tt),
  λ h. elim (Bool-cases (str_eq (hash rt [] no_items) h)) [
    | inl e ↦ rw e (sym (select_all rs))
    | inr e ↦ rw e (sym (select_none rs))
  ],
)
group_records-IsPartition rt (f ∷ fs) rs = (
  (let z = total-group_loop rt (f ∷ fs) rs [] in omega arith),
  group_loop-IsDistinct rt (f ∷ fs) rs [] tt,
  λ h. rows_of-group_loop rt (f ∷ fs) h rs [],
)
