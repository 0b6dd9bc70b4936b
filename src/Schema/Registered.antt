-- ===== src/Schema/Registered.antt =====
-- What the registry holds after registrations (internal/schema/registry.go).
use mock_salesforce.Base.{
  ◌≡◌, refl, sym, ap, ap₂, ◌∙◌, ◌||◌, Bool, not, true, select, inl, inr, Bool-cases, Option-cases,
  false, Option, none, some, List, [], ◌∷◌, ◌++◌, Bytes, str_eq, str_eq_iff, lookup, lookup-insert,
  map, any, All, arith, subst, if◌then◌else◌,
}
use mathlib.Core.List.{append_assoc, append-nil}
use mock_salesforce.Schema.{Registry, ObjectMeta, register, get_meta, all_objects, or_blank_object}
use mock_salesforce.Schema.Naming.{
  empty_registry, registered, last_named, IsDistinct, IsNamed, registered-IsValid, register-names,
}

get_meta-register :
    (m : ObjectMeta) (n : Bytes) (s : Registry)
    → get_meta n (register m s) ≡ (if str_eq m.name n then some m else get_meta n s)
unfolding get_meta register
get_meta-register m n s = lookup-insert m.name n m s.registry

get_meta-registered :
    (ms : List ObjectMeta) (n : Bytes) (s : Registry)
    → get_meta n (registered ms s) ≡ last_named n ms (get_meta n s)
get_meta-registered [] n s = refl
get_meta-registered (m ∷ ms) n s =
    get_meta-registered ms n (register m s) ∙ ap (last_named n ms) (get_meta-register m n s)

names_of :
    (s : Registry) (ns : List Bytes)
    → All (IsNamed s) ns
    → map (λ m. m.name) (map (λ n. or_blank_object (lookup n s.registry)) ns) ≡ ns
names_of s [] h = refl
names_of s (n ∷ ns) ((m, e, same), hs) = ap₂ (λ x xs. x ∷ xs) (rw e same) (names_of s ns hs)

-- The names of a list of descriptions, each at its first place.
abbrev pub first_names : List ObjectMeta → List Bytes
first_names [] = []
first_names (m ∷ ms) = m.name ∷ select (λ n. not (str_eq m.name n)) (first_names ms)

-- The names that are not in the first list.
abbrev without : List Bytes → List Bytes → List Bytes
without ns fs = select (λ n. not (any (str_eq n) ns)) fs

any-append_one :
    (n k : Bytes) (ns : List Bytes)
    → any (str_eq n) (ns ++ (k ∷ [])) ≡ (any (str_eq n) ns || str_eq n k)
any-append_one n k [] = ground arith
any-append_one n k (j ∷ ns) = ground (arith, any-append_one n k ns)

without-append :
    (k : Bytes) (ns fs : List Bytes)
    → without (ns ++ (k ∷ [])) fs ≡ without ns (select (λ n. not (str_eq k n)) fs)
without-append k ns [] = refl
without-append k ns (f ∷ fs) =
    ground (arith, without-append k ns fs, any-append_one f k ns, str_eq_iff k f, str_eq_iff f k)

without_known :
    (k : Bytes) (ns fs : List Bytes)
    → any (str_eq k) ns ≡ true
    → without ns (select (λ n. not (str_eq k n)) fs) ≡ without ns fs
without_known k ns [] h = refl
without_known k ns (f ∷ fs) h = elim (Bool-cases (str_eq k f)) [
  | inl e ↦
      let same : k ≡ f = (str_eq_iff k f).0 e in
      let there : any (str_eq f) ns ≡ true = ap (λ x. any (str_eq x) ns) (sym same) ∙ h in
      rw (e, there) (without_known k ns fs h)
  | inr e ↦ rw (e, without_known k ns fs h) refl
]

without_nil : (fs : List Bytes) → without [] fs ≡ fs
without_nil [] = refl
without_nil (f ∷ fs) = ap (λ xs. f ∷ xs) (without_nil fs)

abbrev is_some : Option ObjectMeta → Bool
is_some none = false
is_some (some m) = true

-- The names that are listed are those that are registered.
abbrev IsListed : Registry → Type 0
IsListed s = (n : Bytes) → any (str_eq n) s.names ≡ is_some (lookup n s.registry)

IsListed-register : (m : ObjectMeta) (s : Registry) → IsListed s → IsListed (register m s)
unfolding register
IsListed-register m s h n = elim (Option-cases (lookup m.name s.registry)) [
  | inl e ↦
      rw (e, register, lookup-insert m.name n m s.registry, any-append_one n m.name s.names, h n)
        (ground (arith, str_eq_iff m.name n, str_eq_iff n m.name))
  | inr (old, e) ↦
      rw (e, register, lookup-insert m.name n m s.registry, h n)
        (elim (Bool-cases (str_eq m.name n)) [
          | inl q ↦ rw q (
              ap (λ k. is_some (lookup k s.registry)) (sym ((str_eq_iff m.name n).0 q))
              ∙ ap is_some e)
          | inr q ↦ rw q refl
        ])
]

registered-names :
    (ms : List ObjectMeta) (s : Registry)
    → IsListed s
    → (registered ms s).names ≡ s.names ++ without s.names (first_names ms)
registered-names [] s h = sym (append-nil s.names)
registered-names (m ∷ ms) s h = elim (Option-cases (lookup m.name s.registry)) [
  | inl e ↦
      let fresh : any (str_eq m.name) s.names ≡ false = h m.name ∙ ap is_some e in
      registered-names ms (register m s) (IsListed-register m s h)
      ∙ ap (λ ns. ns ++ without ns (first_names ms)) (register-names m s none e)
      ∙ ap (λ xs. (s.names ++ (m.name ∷ [])) ++ xs) (without-append m.name s.names (first_names ms))
      ∙ append_assoc s.names (m.name ∷ []) _
      ∙ rw fresh refl
  | inr (old, e) ↦
      let known : any (str_eq m.name) s.names ≡ true = h m.name ∙ ap is_some e in
      registered-names ms (register m s) (IsListed-register m s h)
      ∙ ap (λ ns. ns ++ without ns (first_names ms)) (register-names m s (some old) e)
      ∙ rw (known, without_known m.name s.names (first_names ms) known) refl
]

described :
    (ms : List ObjectMeta) (ns : List Bytes)
    → map (λ n. or_blank_object (lookup n (registered ms empty_registry).registry)) ns
      ≡ map (λ n. or_blank_object (last_named n ms none)) ns
unfolding get_meta lookup
described ms [] = refl
described ms (n ∷ ns) =
    ap₂ (λ x xs. or_blank_object x ∷ xs) (get_meta-registered ms n empty_registry) (described ms ns)

-- After any registrations, `All` lists a description for each name that was registered, in the order
-- of the first registrations and no name twice; it bears that name, it is the one that was registered
-- last under it, and `Get` finds it.
pub all_objects-registered :
    (ms : List ObjectMeta)
    → (map (λ m. m.name) (all_objects (registered ms empty_registry)) ≡ first_names ms)
      × (all_objects (registered ms empty_registry)
          ≡ map (λ n. or_blank_object (last_named n ms none)) (first_names ms))
      × IsDistinct (first_names ms)
      × ((n : Bytes) → get_meta n (registered ms empty_registry) ≡ last_named n ms none)
unfolding all_objects get_meta lookup
all_objects-registered ms =
    let s = registered ms empty_registry in
    let (d, h) = registered-IsValid ms empty_registry (tt, tt) in
    let names = registered-names ms empty_registry (λ n. refl) ∙ without_nil (first_names ms) in
    (
      names_of s s.names h ∙ names,
      described ms s.names ∙ ap (map (λ n. or_blank_object (last_named n ms none))) names,
      subst IsDistinct names d,
      λ n. get_meta-registered ms n empty_registry,
    )
