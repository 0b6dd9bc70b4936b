-- ===== src/Rest/Describe/Global.antt =====
-- The listed object types and their descriptions (internal/handlers/sobject.go,
-- internal/schema/registry.go).
use mock_salesforce.Base.{
  ◌≡◌, refl, ap, Bool, true, false, inl, inr, Bool-cases, Option-cases, none, some, List, [], ◌∷◌,
  ◌++◌, Bytes, str_eq, suc, any, All, lookup, length,
}
use mock_salesforce.Value.{Record}
use mock_salesforce.Schema.{Registry, ObjectMeta, get_meta}
use mock_salesforce.Schema.Naming.{IsNamed, registered, registered-IsValid, empty_registry}
use mock_salesforce.Store.{MemoryStore}
use mock_salesforce.Rest.{found}
use mock_salesforce.Rest.Describe.Fields.{LegacyMeta}
use mock_salesforce.Rest.Describe.{
  object_meta, legacy_metadata, metadata_from_registry, get_object_metadata, handle_describe,
  known_types, add_names, global_describe_types, global_entries, handle_global_describe,
}

module _ (fold : Bytes → Bytes → Bool) (reg : Registry) (s : MemoryStore) where
  -- The type has a description.
  abbrev IsDescribed : Bytes → Type 0
  IsDescribed n = (r : Record) × (get_object_metadata fold reg s n ≡ some r)

  listed-IsDescribed : (n : Bytes) (m : LegacyMeta) → lookup n object_meta ≡ some m → IsDescribed n
  unfolding get_object_metadata
  listed-IsDescribed n m e = (legacy_metadata n m, rw (e, get_object_metadata) refl)

  named-IsDescribed : (n : Bytes) → IsNamed reg n → IsDescribed n
  unfolding get_object_metadata get_meta
  named-IsDescribed n (m, e, same) = elim (Option-cases (lookup n object_meta)) [
    | inr (l, f) ↦ listed-IsDescribed n l f
    | inl f ↦ (metadata_from_registry m, rw (f, get_object_metadata, get_meta, e) refl)
  ]

  All-snoc :
      (ns : List Bytes) (n : Bytes)
      → All IsDescribed ns
      → IsDescribed n
      → All IsDescribed (ns ++ (n ∷ []))
  All-snoc [] n h p = (p, tt)
  All-snoc (j ∷ ns) n (h, hs) p = (h, All-snoc ns n hs p)

  names-IsDescribed : (ns : List Bytes) → All (IsNamed reg) ns → All IsDescribed ns
  names-IsDescribed [] h = tt
  names-IsDescribed (n ∷ ns) (h, hs) = (named-IsDescribed n h, names-IsDescribed ns hs)

  add_names-IsDescribed :
      (ns known : List Bytes)
      → All IsDescribed ns
      → All IsDescribed known
      → All IsDescribed (add_names ns known)
  unfolding add_names
  add_names-IsDescribed [] known h k = k
  add_names-IsDescribed (n ∷ ns) known (h, hs) k = elim (Bool-cases (any (λ x. str_eq x n) known)) [
    | inl e ↦ rw e (add_names-IsDescribed ns known hs k)
    | inr e ↦ rw e (add_names-IsDescribed ns (known ++ (n ∷ [])) hs (All-snoc known n k h))
  ]

  -- Every type has an entry in the table.
  abbrev is_listed : List Bytes → Bool
  is_listed [] = true
  is_listed (n ∷ ns) = elim (lookup n object_meta) [ none ↦ false | some _ ↦ is_listed ns ]

  is_listed_lem : (ns : List Bytes) → is_listed ns ≡ true → All IsDescribed ns
  is_listed_lem [] h = tt
  is_listed_lem (n ∷ ns) h = elim (Option-cases (lookup n object_meta)) [
    | inl e ↦ let bad : false ≡ true = rw (e, is_listed) at h in cc
    | inr (m, e) ↦ (listed-IsDescribed n m e, is_listed_lem ns (rw (e, is_listed) at h))
  ]

  known-IsDescribed : All IsDescribed known_types
  unfolding lookup str_eq
  known-IsDescribed = is_listed_lem known_types refl

  global_entries-length :
      (ns : List Bytes) → All IsDescribed ns → length (global_entries fold reg s ns) ≡ length ns
  unfolding global_entries
  global_entries-length [] h = refl
  global_entries-length (n ∷ ns) ((r, e), hs) =
      rw (e, global_entries) (ap suc (global_entries-length ns hs))

  -- `HandleDescribe` finds each of the types.
  abbrev pub AreFound : List Bytes → Type 0
  AreFound = All (λ n. (r : Record) × (handle_describe fold reg s n ≡ found r))

  described-AreFound : (ns : List Bytes) → All IsDescribed ns → AreFound ns
  unfolding handle_describe
  described-AreFound [] h = tt
  described-AreFound (n ∷ ns) ((r, e), hs) =
      ((r, rw (e, handle_describe) refl), described-AreFound ns hs)

-- Whatever object types are registered, `HandleDescribe` finds every type that `globalDescribeTypes`
-- lists, and `HandleGlobalDescribe` shows one entry for each.
pub handle_describe-AreFound :
    (fold : Bytes → Bytes → Bool) (ms : List ObjectMeta) (s : MemoryStore)
    → (let reg = registered ms empty_registry in
        AreFound fold reg s (global_describe_types reg)
        × (length (handle_global_describe fold reg s) ≡ length (global_describe_types reg)))
unfolding handle_global_describe global_describe_types
handle_describe-AreFound fold ms s =
    let reg = registered ms empty_registry in
    let (_, named) = registered-IsValid ms empty_registry (tt, tt) in
    let all =
      add_names-IsDescribed fold reg s reg.names known_types
        (names-IsDescribed fold reg s reg.names named) (known-IsDescribed fold reg s) in
    (
      described-AreFound fold reg s (global_describe_types reg) all,
      global_entries-length fold reg s (global_describe_types reg) all,
    )
